-- ===== src/Summary.antt =====
-- The summary of a budget in internal/handlers/summary.go: how rows of spending become totals by
-- category and by user. Amounts are Go's float64, a parameter: nothing is assumed of the sum, so
-- the totals are stated as the very sums that the code makes, in its order. A UUID is its number.
pub mod Totals
pub mod Categories
pub mod Linked
mod Tests
use financentury_backend.Prelude.{
  ℕ, ◌+◌, Option, none, some, List, [], ◌∷◌, Bytes, bytes_discrete, ℕ_discrete, ite, bytes,
}
use financentury_backend.Prelude.Maps.{find, assign, add}

-- The operations of float64 that the code uses.
pub record FloatOps (F : Type 0) : Type 0 where
  pub zero : F
  pub plus : F → F → F

pub record OwnAggRow (F : Type 0) : Type 0 where
  pub category_id : ℕ
  pub created_by : Option ℕ
  pub amount : F
  pub count : ℕ

-- The fields of `linkedAggRow` that the totals read.
pub record LinkedAggRow (F : Type 0) : Type 0 where
  pub link_id : ℕ
  pub filter_mode : Bytes
  pub created_by : Option ℕ
  pub amount : F
  pub count : ℕ

pub record CategoryAgg (F : Type 0) : Type 0 where
  pub total_spent : F
  pub count : ℕ
  pub by_user : List (ℕ × F)

pub record SummaryAggregation (F : Type 0) : Type 0 where
  pub total_spent : F
  pub categories : List (ℕ × CategoryAgg F)
  pub budget_by_user : List (ℕ × F)
  pub all_user_ids : List ℕ

module _ {F : Type 0} (float : FloatOps F) where
  -- `m[uid] += x`; a missing entry is 0.
  abbrev pub bumped : Option F → F → F
  bumped none x = float.plus float.zero x
  bumped (some y) x = float.plus y x

  pub bump : ℕ → F → List (ℕ × F) → List (ℕ × F)
  bump uid x m = assign ℕ_discrete uid (bumped (find ℕ_discrete uid m) x) m

  abbrev pub empty_agg : CategoryAgg F
  empty_agg = record { total_spent = float.zero; count = 0; by_user = [] }

  -- The category's bucket, made if it is missing.
  abbrev pub category_of : ℕ → List (ℕ × CategoryAgg F) → CategoryAgg F
  category_of cid m = elim (find ℕ_discrete cid m) [ none ↦ empty_agg | some cat ↦ cat ]

  -- One round of the loop over the budget's own rows.
  pub own_step : SummaryAggregation F → OwnAggRow F → SummaryAggregation F
  own_step agg row =
      let cat = category_of row.category_id agg.categories in
      let total = float.plus agg.total_spent row.amount in
      let spent = float.plus cat.total_spent row.amount in
      elim row.created_by [
        | none ↦ record agg {
          total_spent = total;
          categories =
              assign ℕ_discrete row.category_id
                (record cat { total_spent = spent; count = cat.count + row.count }) agg.categories;
        }
        | some uid ↦ record {
          total_spent = total;
          categories =
              assign ℕ_discrete row.category_id
                (record {
                  total_spent = spent;
                  count = cat.count + row.count;
                  by_user = bump uid row.amount cat.by_user;
                })
                agg.categories;
          budget_by_user = bump uid row.amount agg.budget_by_user;
          all_user_ids = add ℕ_discrete uid agg.all_user_ids;
        }
      ]

  -- One round of the loop over the linked rows.
  pub linked_step : SummaryAggregation F → LinkedAggRow F → SummaryAggregation F
  linked_step agg l =
      let total = float.plus agg.total_spent l.amount in
      elim l.created_by [
        | none ↦ record agg { total_spent = total }
        | some uid ↦ record agg {
          total_spent = total;
          all_user_ids = add ℕ_discrete uid agg.all_user_ids;
          budget_by_user =
              ite (bytes_discrete l.filter_mode (bytes "mine"))
                (bump uid l.amount agg.budget_by_user) agg.budget_by_user;
        }
      ]

  pub own_loop : List (OwnAggRow F) → SummaryAggregation F → SummaryAggregation F
  own_loop [] agg = agg
  own_loop (row ∷ rows) agg = own_loop rows (own_step agg row)

  pub linked_loop : List (LinkedAggRow F) → SummaryAggregation F → SummaryAggregation F
  linked_loop [] agg = agg
  linked_loop (l ∷ ls) agg = linked_loop ls (linked_step agg l)

  abbrev pub empty_summary : SummaryAggregation F
  empty_summary = record {
    total_spent = float.zero;
    categories = [];
    budget_by_user = [];
    all_user_ids = [];
  }

  -- `aggregateSummarySpending`
  pub aggregate_summary_spending : List (OwnAggRow F) → List (LinkedAggRow F) → SummaryAggregation F
  aggregate_summary_spending own linked = linked_loop linked (own_loop own empty_summary)
