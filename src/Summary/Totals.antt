-- ===== src/Summary/Totals.antt =====
-- What `aggregateSummarySpending` of internal/handlers/summary.go computes, in terms of the rows.
use financentury_backend.Prelude.{
  ℕ, ◌+◌, Option-cases, inl, inr, ◌≡◌, refl, sym, ap, ◌∙◌, Bool, true, false, ◌||◌, Option, none,
  some, List, [], ◌∷◌, ◌++◌, bytes, bytes_discrete, ℕ_discrete, ite, arith,
}
use financentury_backend.Prelude.Maps.{find, find-assign}
use financentury_backend.Summary.{
  FloatOps, OwnAggRow, LinkedAggRow, SummaryAggregation, bumped, bump, own_step, linked_step,
  own_loop, linked_loop, empty_summary, aggregate_summary_spending,
}

module _ {F : Type 0} (float : FloatOps F) where
  -- The sum of the amounts, from the left.
  unfoldable pub sum_from : F → List F → F
  sum_from x [] = x
  sum_from x (y ∷ ys) = sum_from (float.plus x y) ys

  -- The entry of a map after additions: none if there were none.
  unfoldable pub accumulate : Option F → List F → Option F
  accumulate o [] = o
  accumulate none (y ∷ ys) = accumulate (some (float.plus float.zero y)) ys
  accumulate (some x) (y ∷ ys) = accumulate (some (float.plus x y)) ys

  pub accumulate-nil : (o : Option F) → accumulate o [] ≡ o
  unfolding accumulate
  accumulate-nil o = refl

  pub accumulate-append :
      (o : Option F) (xs ys : List F) → accumulate o (xs ++ ys) ≡ accumulate (accumulate o xs) ys
  unfolding accumulate
  accumulate-append o [] ys = refl
  accumulate-append none (x ∷ xs) ys = accumulate-append (some (float.plus float.zero x)) xs ys
  accumulate-append (some z) (x ∷ xs) ys = accumulate-append (some (float.plus z x)) xs ys

  abbrev pub own_amounts : List (OwnAggRow F) → List F
  own_amounts [] = []
  own_amounts (row ∷ rows) = row.amount ∷ own_amounts rows

  abbrev pub linked_amounts : List (LinkedAggRow F) → List F
  linked_amounts [] = []
  linked_amounts (l ∷ ls) = l.amount ∷ linked_amounts ls

  abbrev pub counts : List (OwnAggRow F) → ℕ
  counts [] = 0
  counts (row ∷ rows) = row.count + counts rows

  -- The amount that a row carries for a user, if any.
  unfoldable pub own_share : ℕ → OwnAggRow F → List F
  own_share u row = elim row.created_by [
    | none ↦ []
    | some v ↦ ite (ℕ_discrete v u) (row.amount ∷ []) []
  ]

  unfoldable pub mine_share : ℕ → LinkedAggRow F → List F
  mine_share u l = elim l.created_by [
    | none ↦ []
    | some v ↦
        ite (bytes_discrete l.filter_mode (bytes "mine")) (ite (ℕ_discrete v u) (l.amount ∷ []) [])
          []
  ]

  -- The amounts that a user's own rows carry.
  unfoldable pub own_shares : ℕ → List (OwnAggRow F) → List F
  own_shares u [] = []
  own_shares u (row ∷ rows) = own_share u row ++ own_shares u rows

  -- The amounts that a user's linked rows carry where the link's mode is `mine`.
  unfoldable pub mine_shares : ℕ → List (LinkedAggRow F) → List F
  mine_shares u [] = []
  mine_shares u (l ∷ ls) = mine_share u l ++ mine_shares u ls

  unfoldable pub if_category : ℕ → OwnAggRow F → List (OwnAggRow F)
  if_category cid row = ite (ℕ_discrete row.category_id cid) (row ∷ []) []

  unfoldable pub in_category : ℕ → List (OwnAggRow F) → List (OwnAggRow F)
  in_category cid [] = []
  in_category cid (row ∷ rows) = if_category cid row ++ in_category cid rows

  abbrev pub is_creator : ℕ → Option ℕ → Bool
  is_creator u none = false
  is_creator u (some v) = ite (ℕ_discrete v u) true false

  abbrev pub own_creator : ℕ → List (OwnAggRow F) → Bool
  own_creator u [] = false
  own_creator u (row ∷ rows) = is_creator u row.created_by || own_creator u rows

  abbrev pub linked_creator : ℕ → List (LinkedAggRow F) → Bool
  linked_creator u [] = false
  linked_creator u (l ∷ ls) = is_creator u l.created_by || linked_creator u ls

  pub find-bump :
      (u v : ℕ) (x : F) (m : List (ℕ × F))
      → find ℕ_discrete u (bump float v x m)
        ≡ ite (ℕ_discrete v u) (accumulate (find ℕ_discrete u m) (x ∷ [])) (find ℕ_discrete u m)
  unfolding bump accumulate
  find-bump u v x m = ground (
    arith,
    find-assign {V = F} ℕ_discrete v u (bumped float (find ℕ_discrete v m) x) m,
    ap (λ w. find ℕ_discrete w m) {x = v} {y = u},
  )

  -- The parts of the state under the two loops.
  linked_loop-total :
      (ls : List (LinkedAggRow F)) (agg : SummaryAggregation F)
      → (linked_loop float ls agg).total_spent ≡ sum_from agg.total_spent (linked_amounts ls)
  unfolding linked_loop linked_step sum_from
  linked_loop-total [] agg = refl
  linked_loop-total (l ∷ ls) agg =
      linked_loop-total ls (linked_step float agg l)
      ∙ ap (λ x. sum_from x (linked_amounts ls)) (ground arith)

  pub linked_loop-categories :
      (ls : List (LinkedAggRow F)) (agg : SummaryAggregation F)
      → (linked_loop float ls agg).categories ≡ agg.categories
  unfolding linked_loop linked_step
  linked_loop-categories [] agg = refl
  linked_loop-categories (l ∷ ls) agg =
      linked_loop-categories ls (linked_step float agg l) ∙ ground arith

  linked_step-budget_by_user :
      (u : ℕ) (l : LinkedAggRow F) (agg : SummaryAggregation F)
      → find ℕ_discrete u (linked_step float agg l).budget_by_user
        ≡ accumulate (find ℕ_discrete u agg.budget_by_user) (mine_share u l)
  unfolding linked_step mine_share
  linked_step-budget_by_user u l agg = elim (Option-cases l.created_by) [
    | inl nobody ↦ ground (arith, accumulate-nil (find ℕ_discrete u agg.budget_by_user))
    | inr (v, e) ↦ ground (
      arith,
      accumulate-nil (find ℕ_discrete u agg.budget_by_user),
      find-bump u v l.amount agg.budget_by_user,
    )
  ]

  linked_loop-budget_by_user :
      (u : ℕ) (ls : List (LinkedAggRow F)) (agg : SummaryAggregation F)
      → find ℕ_discrete u (linked_loop float ls agg).budget_by_user
        ≡ accumulate (find ℕ_discrete u agg.budget_by_user) (mine_shares u ls)
  unfolding linked_loop mine_shares
  linked_loop-budget_by_user u [] agg = sym (accumulate-nil (find ℕ_discrete u agg.budget_by_user))
  linked_loop-budget_by_user u (l ∷ ls) agg =
      linked_loop-budget_by_user u ls (linked_step float agg l)
      ∙ ap (λ o. accumulate o (mine_shares u ls)) (linked_step-budget_by_user u l agg)
      ∙ sym (
          accumulate-append (find ℕ_discrete u agg.budget_by_user) (mine_share u l)
            (mine_shares u ls))

  own_step-budget_by_user :
      (u : ℕ) (row : OwnAggRow F) (agg : SummaryAggregation F)
      → find ℕ_discrete u (own_step float agg row).budget_by_user
        ≡ accumulate (find ℕ_discrete u agg.budget_by_user) (own_share u row)
  unfolding own_step own_share
  own_step-budget_by_user u row agg = elim (Option-cases row.created_by) [
    | inl nobody ↦ ground (arith, accumulate-nil (find ℕ_discrete u agg.budget_by_user))
    | inr (v, e) ↦ ground (
      arith,
      accumulate-nil (find ℕ_discrete u agg.budget_by_user),
      find-bump u v row.amount agg.budget_by_user,
    )
  ]

  own_loop-budget_by_user :
      (u : ℕ) (rows : List (OwnAggRow F)) (agg : SummaryAggregation F)
      → find ℕ_discrete u (own_loop float rows agg).budget_by_user
        ≡ accumulate (find ℕ_discrete u agg.budget_by_user) (own_shares u rows)
  unfolding own_loop own_shares
  own_loop-budget_by_user u [] agg = sym (accumulate-nil (find ℕ_discrete u agg.budget_by_user))
  own_loop-budget_by_user u (row ∷ rows) agg =
      own_loop-budget_by_user u rows (own_step float agg row)
      ∙ ap (λ o. accumulate o (own_shares u rows)) (own_step-budget_by_user u row agg)
      ∙ sym (
          accumulate-append (find ℕ_discrete u agg.budget_by_user) (own_share u row)
            (own_shares u rows))

  own_loop-total :
      (rows : List (OwnAggRow F)) (agg : SummaryAggregation F)
      → (own_loop float rows agg).total_spent ≡ sum_from agg.total_spent (own_amounts rows)
  unfolding own_loop own_step sum_from
  own_loop-total [] agg = refl
  own_loop-total (row ∷ rows) agg =
      own_loop-total rows (own_step float agg row)
      ∙ ap (λ x. sum_from x (own_amounts rows)) (ground arith)

  -- The summary's total is the sum of all the budget's own amounts and then of all the linked
  -- amounts, whatever the link's mode and also where nobody is named.
  pub aggregate-total_spent :
      (own : List (OwnAggRow F)) (linked : List (LinkedAggRow F))
      → (aggregate_summary_spending float own linked).total_spent
        ≡ sum_from (sum_from float.zero (own_amounts own)) (linked_amounts linked)
  unfolding aggregate_summary_spending
  aggregate-total_spent own linked =
      linked_loop-total linked (own_loop float own (empty_summary float))
      ∙ ap (λ x. sum_from x (linked_amounts linked)) (own_loop-total own (empty_summary float))

  -- A user's entry is the sum of the user's own amounts and then of the amounts linked as `mine`;
  -- there is no entry for a user with neither. Rows linked as `all` are left out.
  pub aggregate-budget_by_user :
      (own : List (OwnAggRow F)) (linked : List (LinkedAggRow F)) (u : ℕ)
      → find ℕ_discrete u (aggregate_summary_spending float own linked).budget_by_user
        ≡ accumulate none (own_shares u own ++ mine_shares u linked)
  unfolding aggregate_summary_spending find
  aggregate-budget_by_user own linked u =
      linked_loop-budget_by_user u linked (own_loop float own (empty_summary float))
      ∙ ap (λ o. accumulate o (mine_shares u linked))
          (own_loop-budget_by_user u own (empty_summary float))
      ∙ sym (accumulate-append none (own_shares u own) (mine_shares u linked))
