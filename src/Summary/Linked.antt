-- ===== src/Summary/Linked.antt =====
-- `assembleLinkedSummaries` and `roundAmount` of internal/handlers/summary.go: one summary for each
-- link, in the order in which the rows name the links.
use mathlib.Core.List.{append-nil, append_assoc}
use financentury_backend.Prelude.{
  ℕ, ◌+◌, ◌≡◌, refl, sym, ap, ◌∙◌, inl, inr, Bool, Bool-cases, true, false, Option, none, some,
  List, [], ◌∷◌, ◌++◌, ℕ_discrete, ite, arith, if◌then◌else◌,
}
use financentury_backend.Prelude.Maps.{find, assign, find-assign, member}
use financentury_backend.Summary.{FloatOps, bump}

-- The operations of float64 that this part needs besides the sum.
pub record RoundOps (F : Type 0) : Type 0 where
  pub sums : FloatOps F
  pub is_zero : F → Bool
  pub hundred : F
  pub times : F → F → F
  pub over : F → F → F
  pub round : F → F

-- A row: the link with the columns of its source budget and category, which are the same in all its
-- rows, and one amount.
pub record LinkRow (F L : Type 0) : Type 0 where
  pub link_id : ℕ
  pub columns : L
  pub allocation_value : F
  pub created_by : Option ℕ
  pub amount : F
  pub count : ℕ

-- `accum`
pub record Accum (F L : Type 0) : Type 0 where
  pub columns : L
  pub allocation_value : F
  pub total_spent : F
  pub count : ℕ
  pub by_user : List (ℕ × F)

-- What is shown for a link; `U` is the list that `buildUserSpending` makes.
pub record LinkedSummary (F L U : Type 0) : Type 0 where
  pub columns : L
  pub allocated_amount : F
  pub total_spent : F
  pub expense_count : ℕ
  pub spending_by_user : U

module _ {F : Type 0} (float : RoundOps F) where
  -- `roundAmount`
  pub round_amount : F → F
  round_amount v = float.over (float.round (float.times v float.hundred)) float.hundred

module _ {F L : Type 0} (float : RoundOps F) where
  abbrev pub fresh_accum : LinkRow F L → Accum F L
  fresh_accum r = record {
    columns = r.columns;
    allocation_value = r.allocation_value;
    total_spent = float.sums.zero;
    count = 0;
    by_user = [];
  }

  -- The sums of one row.
  pub add_row : LinkRow F L → Accum F L → Accum F L
  add_row r a = record a {
    total_spent = float.sums.plus a.total_spent r.amount;
    count = a.count + r.count;
    by_user = elim r.created_by [
      | none ↦ a.by_user
      | some u ↦ if float.is_zero r.amount then a.by_user else bump float.sums u r.amount a.by_user
    ];
  }

  -- One round of the loop: `idxByLink` and `order`.
  pub link_step : LinkRow F L → List (ℕ × Accum F L) × List ℕ → List (ℕ × Accum F L) × List ℕ
  link_step r (by_link, order) = elim (find ℕ_discrete r.link_id by_link) [
    | some a ↦ (assign ℕ_discrete r.link_id (add_row r a) by_link, order)
    | none ↦
        (assign ℕ_discrete r.link_id (add_row r (fresh_accum r)) by_link, order ++ r.link_id ∷ [])
  ]

  pub link_loop : List (LinkRow F L) → List (ℕ × Accum F L) × List ℕ → List (ℕ × Accum F L) × List ℕ
  link_loop [] s = s
  link_loop (r ∷ rows) s = link_loop rows (link_step r s)

  module _ {U : Type 0} (build_user_spending : List (ℕ × F) → U) where
    pub show_link : Accum F L → LinkedSummary F L U
    show_link a = record {
      columns = a.columns;
      allocated_amount = round_amount float a.allocation_value;
      total_spent = round_amount float a.total_spent;
      expense_count = a.count;
      spending_by_user = build_user_spending a.by_user;
    }

    -- The last loop; each id of `order` has its entry.
    pub show_links : List ℕ → List (ℕ × Accum F L) → List (LinkedSummary F L U)
    show_links [] by_link = []
    show_links (id ∷ ids) by_link =
        let rest = show_links ids by_link in
        elim (find ℕ_discrete id by_link) [ none ↦ rest | some a ↦ show_link a ∷ rest ]

    -- `assembleLinkedSummaries`; no rows give no summaries.
    pub assemble_linked_summaries : List (LinkRow F L) → List (LinkedSummary F L U)
    assemble_linked_summaries rows =
        let (by_link, order) = link_loop rows ([], []) in show_links order by_link

  -- A reference: the rows of each link, by the link's first row.
  unfoldable pub rows_of : ℕ → List (LinkRow F L) → List (LinkRow F L)
  rows_of id [] = []
  rows_of id (r ∷ rows) = ite (ℕ_discrete r.link_id id) (r ∷ rows_of id rows) (rows_of id rows)

  unfoldable pub add_rows : List (LinkRow F L) → Accum F L → Accum F L
  add_rows [] a = a
  add_rows (r ∷ rows) a = add_rows rows (add_row r a)

  unfoldable pub accum_of : Option (Accum F L) → List (LinkRow F L) → Option (Accum F L)
  accum_of o [] = o
  accum_of none (r ∷ rows) = some (add_rows rows (add_row r (fresh_accum r)))
  accum_of (some a) (r ∷ rows) = some (add_rows rows (add_row r a))

  link_step-find :
      (id : ℕ) (r : LinkRow F L) (s : List (ℕ × Accum F L) × List ℕ)
      → find ℕ_discrete id (link_step r s).0
        ≡ ite
            (ℕ_discrete r.link_id id)
            (accum_of (find ℕ_discrete id s.0) (r ∷ []))
            (find ℕ_discrete id s.0)
  unfolding link_step accum_of add_rows
  link_step-find id r (by_link, order) = grind (
    arith,
    find-assign {V = Accum F L} ℕ_discrete r.link_id id,
    ap (λ w. find ℕ_discrete w by_link) {x = r.link_id} {y = id},
  )

  accum_of-cons :
      (o : Option (Accum F L)) (r : LinkRow F L) (rows : List (LinkRow F L))
      → accum_of (accum_of o (r ∷ [])) rows ≡ accum_of o (r ∷ rows)
  unfolding accum_of add_rows
  accum_of-cons none r [] = refl
  accum_of-cons none r (x ∷ rows) = refl
  accum_of-cons (some a) r [] = refl
  accum_of-cons (some a) r (x ∷ rows) = refl

  link_loop-find :
      (id : ℕ) (rows : List (LinkRow F L)) (s : List (ℕ × Accum F L) × List ℕ)
      → find ℕ_discrete id (link_loop rows s).0
        ≡ accum_of (find ℕ_discrete id s.0) (rows_of id rows)
  unfolding link_loop rows_of accum_of
  link_loop-find id [] s = refl
  link_loop-find id (r ∷ rows) s =
      link_loop-find id rows (link_step r s)
      ∙ ap (λ o. accum_of o (rows_of id rows)) (link_step-find id r s)
      ∙ ground (arith, accum_of-cons (find ℕ_discrete id s.0) r (rows_of id rows))

  -- The links in the order of their first rows.
  unfoldable pub order_of : List ℕ → List (LinkRow F L) → List ℕ
  order_of seen [] = []
  order_of seen (r ∷ rows) =
      let later = order_of seen rows in
      let rest = order_of (r.link_id ∷ seen) rows in
      if member ℕ_discrete r.link_id seen then later else r.link_id ∷ rest

  abbrev is_found : ℕ → List (ℕ × Accum F L) → Bool
  is_found id by_link = elim (find ℕ_discrete id by_link) [ none ↦ false | some a ↦ true ]

  found_step :
      (id : ℕ) (r : LinkRow F L) (s : List (ℕ × Accum F L) × List ℕ)
      → is_found id (link_step r s).0 ≡ ite (ℕ_discrete r.link_id id) true (is_found id s.0)
  unfolding accum_of
  found_step id r s = ground (arith, link_step-find id r s)

  step-order :
      (r : LinkRow F L) (s : List (ℕ × Accum F L) × List ℕ)
      → (link_step r s).1 ≡ (if is_found r.link_id s.0 then s.1 else s.1 ++ r.link_id ∷ [])
  unfolding link_step
  step-order r s = ground arith

  link_loop-order :
      (rows : List (LinkRow F L)) (s : List (ℕ × Accum F L) × List ℕ) (seen : List ℕ)
      → ((id : ℕ) → is_found id s.0 ≡ member ℕ_discrete id seen)
      → (link_loop rows s).1 ≡ s.1 ++ order_of seen rows
  unfolding link_loop order_of member
  link_loop-order [] s seen h = sym (append-nil s.1)
  link_loop-order (r ∷ rows) s seen h = elim (Bool-cases (member ℕ_discrete r.link_id seen)) [
    | inl old ↦
        link_loop-order rows (link_step r s) seen (found_old old)
        ∙ rw old (ap (λ o. o ++ order_of seen rows) (order_old old))
    | inr new ↦
        link_loop-order rows (link_step r s) (r.link_id ∷ seen) (found_new new)
        ∙ rw new (
            ap (λ o. o ++ order_of (r.link_id ∷ seen) rows) (order_new new)
            ∙ append_assoc s.1 (r.link_id ∷ []) (order_of (r.link_id ∷ seen) rows))
  ]
    where
      found_old :
          member ℕ_discrete r.link_id seen ≡ true
          → (id : ℕ) → is_found id (link_step r s).0 ≡ member ℕ_discrete id seen
      found_old old id = ground (
        arith,
        found_step id r s,
        h id,
        h r.link_id,
        ap (λ w. member ℕ_discrete w seen) {x = r.link_id} {y = id},
      )

      found_new :
          member ℕ_discrete r.link_id seen ≡ false
          → (id : ℕ) → is_found id (link_step r s).0 ≡ member ℕ_discrete id (r.link_id ∷ seen)
      found_new new id = ground (arith, found_step id r s, h id)

      order_old : member ℕ_discrete r.link_id seen ≡ true → (link_step r s).1 ≡ s.1
      order_old old = ground (arith, step-order r s, h r.link_id)

      order_new :
          member ℕ_discrete r.link_id seen ≡ false → (link_step r s).1 ≡ s.1 ++ r.link_id ∷ []
      order_new new = ground (arith, step-order r s, h r.link_id)

  module _ {U : Type 0} (build : List (ℕ × F) → U) where
    -- The summaries of the links, each from its own rows alone.
    unfoldable pub show_each : List ℕ → List (LinkRow F L) → List (LinkedSummary F L U)
    show_each [] rows = []
    show_each (id ∷ ids) rows =
        let rest = show_each ids rows in
        elim (accum_of none (rows_of id rows)) [ none ↦ rest | some a ↦ show_link build a ∷ rest ]

    show_links-each :
        (ids : List ℕ) (rows : List (LinkRow F L)) (by_link : List (ℕ × Accum F L))
        → ((id : ℕ) → find ℕ_discrete id by_link ≡ accum_of none (rows_of id rows))
        → show_links build ids by_link ≡ show_each ids rows
    unfolding show_links show_each
    show_links-each [] rows by_link h = refl
    show_links-each (id ∷ ids) rows by_link h =
        ground (arith, h id, show_links-each ids rows by_link h)

    -- The links appear in the order of their first rows, each once, and each with the columns of
    -- its first row and the sums of its own rows: the rows of one link need not stand together.
    pub assemble-show_each :
        (rows : List (LinkRow F L))
        → assemble_linked_summaries build rows ≡ show_each (order_of [] rows) rows
    unfolding assemble_linked_summaries find member
    assemble-show_each rows =
        let s = link_loop rows ([], []) in
        ap (λ ids. show_links build ids s.0) (link_loop-order rows ([], []) [] fresh)
        ∙ show_links-each (order_of [] rows) rows s.0
            (λ id. link_loop-find id rows ([], []) ∙ none_found id)
      where
        fresh : (id : ℕ) → is_found id [] ≡ member ℕ_discrete id []
        fresh id = refl

        none_found :
            (id : ℕ)
            → accum_of (find ℕ_discrete id []) (rows_of id rows) ≡ accum_of none (rows_of id rows)
        none_found id = refl
