-- ===== src/Summary/Categories.antt =====
-- The category buckets and the user ids that `aggregateSummarySpending` of
-- internal/handlers/summary.go collects.
use financentury_backend.Prelude.{
  ℕ, ◌+◌, ◌≡◌, refl, sym, ap, ◌∙◌, inl, inr, ◌||◌, Option-cases, none, some, List, [], ◌∷◌, ◌++◌,
  ℕ_discrete, arith,
}
use financentury_backend.Prelude.Maps.{find, member, find-assign, member-add}
use financentury_backend.Summary.Totals.{
  sum_from, accumulate, accumulate-nil, accumulate-append, own_amounts, counts, own_share,
  own_shares, if_category, in_category, own_creator, linked_creator, find-bump,
  linked_loop-categories,
}
use financentury_backend.Summary.{
  FloatOps, OwnAggRow, LinkedAggRow, CategoryAgg, SummaryAggregation, bump, empty_agg, category_of,
  own_step, linked_step, own_loop, linked_loop, empty_summary, aggregate_summary_spending,
}

module _ {F : Type 0} (float : FloatOps F) where
  -- One row into its own category's bucket.
  cat_step : CategoryAgg F → OwnAggRow F → CategoryAgg F
  cat_step cat row = record {
    total_spent = float.plus cat.total_spent row.amount;
    count = cat.count + row.count;
    by_user = elim row.created_by [
      | none ↦ cat.by_user
      | some u ↦ bump float u row.amount cat.by_user
    ];
  }

  cat_loop : List (OwnAggRow F) → CategoryAgg F → CategoryAgg F
  cat_loop [] cat = cat
  cat_loop (row ∷ rows) cat = cat_loop rows (cat_step cat row)

  own_step-category :
      (cid : ℕ) (row : OwnAggRow F) (agg : SummaryAggregation F)
      → category_of float cid (own_step float agg row).categories
        ≡ cat_loop (if_category float cid row) (category_of float cid agg.categories)
  unfolding own_step cat_loop cat_step if_category
  own_step-category cid row agg =
      let cat = cat_step (category_of float row.category_id agg.categories) row in
      ground (
        arith,
        find-assign {V = CategoryAgg F} ℕ_discrete row.category_id cid cat agg.categories,
        ap (λ w. find ℕ_discrete w agg.categories) {x = row.category_id} {y = cid},
      )

  cat_loop-append :
      (xs ys : List (OwnAggRow F)) (cat : CategoryAgg F)
      → cat_loop (xs ++ ys) cat ≡ cat_loop ys (cat_loop xs cat)
  unfolding cat_loop
  cat_loop-append [] ys cat = refl
  cat_loop-append (x ∷ xs) ys cat = cat_loop-append xs ys (cat_step cat x)

  own_loop-category :
      (cid : ℕ) (rows : List (OwnAggRow F)) (agg : SummaryAggregation F)
      → category_of float cid (own_loop float rows agg).categories
        ≡ cat_loop (in_category float cid rows) (category_of float cid agg.categories)
  unfolding own_loop in_category
  own_loop-category cid [] agg = unfold cat_loop in refl
  own_loop-category cid (row ∷ rows) agg =
      own_loop-category cid rows (own_step float agg row)
      ∙ ap (cat_loop (in_category float cid rows)) (own_step-category cid row agg)
      ∙ sym (cat_loop-append (if_category float cid row) (in_category float cid rows) _)

  cat_loop-total :
      (rows : List (OwnAggRow F)) (cat : CategoryAgg F)
      → ((cat_loop rows cat).total_spent ≡ sum_from float cat.total_spent (own_amounts float rows))
        × ((cat_loop rows cat).count ≡ cat.count + counts float rows)
  unfolding cat_loop cat_step sum_from
  cat_loop-total [] cat = (refl, omega arith)
  cat_loop-total (row ∷ rows) cat =
      let (t, n) = cat_loop-total rows (cat_step cat row) in (t, omega arith)

  cat_step-by_user :
      (u : ℕ) (row : OwnAggRow F) (cat : CategoryAgg F)
      → find ℕ_discrete u (cat_step cat row).by_user
        ≡ accumulate float (find ℕ_discrete u cat.by_user) (own_share float u row)
  unfolding cat_step own_share
  cat_step-by_user u row cat = elim (Option-cases row.created_by) [
    | inl nobody ↦ ground (arith, accumulate-nil float (find ℕ_discrete u cat.by_user))
    | inr (v, e) ↦ ground (
      arith,
      accumulate-nil float (find ℕ_discrete u cat.by_user),
      find-bump float u v row.amount cat.by_user,
    )
  ]

  cat_loop-by_user :
      (u : ℕ) (rows : List (OwnAggRow F)) (cat : CategoryAgg F)
      → find ℕ_discrete u (cat_loop rows cat).by_user
        ≡ accumulate float (find ℕ_discrete u cat.by_user) (own_shares float u rows)
  unfolding cat_loop own_shares
  cat_loop-by_user u [] cat = sym (accumulate-nil float (find ℕ_discrete u cat.by_user))
  cat_loop-by_user u (row ∷ rows) cat =
      cat_loop-by_user u rows (cat_step cat row)
      ∙ ap (λ o. accumulate float o (own_shares float u rows)) (cat_step-by_user u row cat)
      ∙ sym (
          accumulate-append float (find ℕ_discrete u cat.by_user) (own_share float u row)
            (own_shares float u rows))

  -- A category's bucket holds the sum of the own amounts of that category and the number of their
  -- expenses, and for each user the sum of that user's amounts there; linked rows add nothing.
  pub aggregate-category :
      (own : List (OwnAggRow F)) (linked : List (LinkedAggRow F)) (cid u : ℕ)
      → ((category_of float cid
            (aggregate_summary_spending float own linked).categories).total_spent
          ≡ sum_from float float.zero (own_amounts float (in_category float cid own)))
        × ((category_of float cid (aggregate_summary_spending float own linked).categories).count
            ≡ counts float (in_category float cid own))
        × (find ℕ_discrete u
              (category_of float cid
                (aggregate_summary_spending float own linked).categories).by_user
            ≡ accumulate float none (own_shares float u (in_category float cid own)))
  unfolding aggregate_summary_spending find
  aggregate-category own linked cid u =
      let same =
        ap (category_of float cid)
          (linked_loop-categories float linked (own_loop float own (empty_summary float)))
        ∙ own_loop-category cid own (empty_summary float) in
      let (t, n) = cat_loop-total (in_category float cid own) (empty_agg float) in
      (
        ap (λ c. c.total_spent) same ∙ t,
        ap (λ c. c.count) same ∙ n ∙ omega arith,
        ap (λ c. find ℕ_discrete u c.by_user) same
            ∙ cat_loop-by_user u (in_category float cid own) (empty_agg float),
      )

  own_loop-ids :
      (u : ℕ) (rows : List (OwnAggRow F)) (agg : SummaryAggregation F)
      → member ℕ_discrete u (own_loop float rows agg).all_user_ids
        ≡ (own_creator float u rows || member ℕ_discrete u agg.all_user_ids)
  unfolding own_loop own_step
  own_loop-ids u [] agg = refl
  own_loop-ids u (row ∷ rows) agg =
      own_loop-ids u rows (own_step float agg row) ∙ elim (Option-cases row.created_by) [
        | inl nobody ↦ ground arith
        | inr (v, e) ↦ ground (arith, member-add ℕ_discrete v u agg.all_user_ids)
      ]

  linked_loop-ids :
      (u : ℕ) (ls : List (LinkedAggRow F)) (agg : SummaryAggregation F)
      → member ℕ_discrete u (linked_loop float ls agg).all_user_ids
        ≡ (linked_creator float u ls || member ℕ_discrete u agg.all_user_ids)
  unfolding linked_loop linked_step
  linked_loop-ids u [] agg = refl
  linked_loop-ids u (l ∷ ls) agg =
      linked_loop-ids u ls (linked_step float agg l) ∙ elim (Option-cases l.created_by) [
        | inl nobody ↦ ground arith
        | inr (v, e) ↦ ground (arith, member-add ℕ_discrete v u agg.all_user_ids)
      ]

  -- The ids that the aggregation collects, from which the profiles to be fetched are chosen, are
  -- exactly those that a row names, own or linked, in either mode.
  pub aggregate-all_user_ids :
      (own : List (OwnAggRow F)) (linked : List (LinkedAggRow F)) (u : ℕ)
      → member ℕ_discrete u (aggregate_summary_spending float own linked).all_user_ids
        ≡ (linked_creator float u linked || own_creator float u own)
  unfolding aggregate_summary_spending member
  aggregate-all_user_ids own linked u =
      linked_loop-ids u linked (own_loop float own (empty_summary float))
      ∙ ap (λ b. linked_creator float u linked || b)
          (own_loop-ids u own (empty_summary float) ∙ ground arith)
