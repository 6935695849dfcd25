-- ===== src/Summary/Tests.antt =====
-- The summary of internal/handlers/summary.go at concrete rows.
use financentury_backend.Prelude.{
  ℕ, ◌*◌, ◌/◌, ◌==◌, ◌+◌, ◌≡◌, refl, ◌||◌, none, some, List, [], ◌∷◌, ◌++◌, ℕ_discrete, bytes,
  bytes_discrete,
}
use financentury_backend.Prelude.Maps.{find, member}
use financentury_backend.Summary.{
  FloatOps, OwnAggRow, LinkedAggRow, category_of, aggregate_summary_spending,
}
use financentury_backend.Summary.Totals.{
  sum_from, accumulate, own_amounts, linked_amounts, counts, own_share, mine_share, own_shares,
  mine_shares, in_category, own_creator, linked_creator, aggregate-total_spent,
  aggregate-budget_by_user,
}
use financentury_backend.Summary.Linked.{
  RoundOps, LinkRow, assemble_linked_summaries, show_each, order_of, assemble-show_each,
}
use financentury_backend.Summary.Categories.{aggregate-category, aggregate-all_user_ids}

-- Whole amounts stand for the floats.
abbrev whole : FloatOps ℕ
whole = record { zero = 0; plus = λ x y. x + y }

abbrev own_rows : List (OwnAggRow ℕ)
own_rows =
    record { category_id = 1; created_by = some 7; amount = 10; count = 2 }
    ∷ record { category_id = 1; created_by = none; amount = 5; count = 1 }
    ∷ record { category_id = 2; created_by = some 8; amount = 3; count = 1 }
    ∷ []

abbrev linked_rows : List (LinkedAggRow ℕ)
linked_rows =
    record { link_id = 1; filter_mode = bytes "mine"; created_by = some 7; amount = 4; count = 1 }
    ∷ record { link_id = 2; filter_mode = bytes "all"; created_by = some 9; amount = 6; count = 1 }
    ∷ []

total_spent_example :
    (aggregate_summary_spending whole own_rows linked_rows).total_spent
    ≡ sum_from whole
        (sum_from whole 0 (own_amounts whole own_rows))
        (linked_amounts whole linked_rows)
total_spent_example = aggregate-total_spent whole own_rows linked_rows

budget_by_user_example :
    find ℕ_discrete 7 (aggregate_summary_spending whole own_rows linked_rows).budget_by_user
    ≡ accumulate whole none (own_shares whole 7 own_rows ++ mine_shares whole 7 linked_rows)
budget_by_user_example = aggregate-budget_by_user whole own_rows linked_rows 7

category_example :
    ((category_of whole 1
        (aggregate_summary_spending whole own_rows linked_rows).categories).total_spent
      ≡ sum_from whole 0 (own_amounts whole (in_category whole 1 own_rows)))
    × ((category_of whole 1
          (aggregate_summary_spending whole own_rows linked_rows).categories).count
        ≡ counts whole (in_category whole 1 own_rows))
    × (find ℕ_discrete 7
          (category_of whole 1
            (aggregate_summary_spending whole own_rows linked_rows).categories).by_user
        ≡ accumulate whole none (own_shares whole 7 (in_category whole 1 own_rows)))
category_example = aggregate-category whole own_rows linked_rows 1 7

all_user_ids_example :
    member ℕ_discrete 9 (aggregate_summary_spending whole own_rows linked_rows).all_user_ids
    ≡ (linked_creator whole 9 linked_rows || own_creator whole 9 own_rows)
all_user_ids_example = aggregate-all_user_ids whole own_rows linked_rows 9

totals_tests :
    (sum_from whole 0 (1 ∷ 2 ∷ []) ≡ 3)
    × (accumulate whole none [] ≡ none)
    × (own_shares whole 7 own_rows ++ mine_shares whole 7 linked_rows ≡ 10 ∷ 4 ∷ [])
    × (own_shares whole 9 own_rows ++ mine_shares whole 9 linked_rows ≡ [])
unfolding sum_from accumulate own_shares mine_shares own_share mine_share ℕ_discrete bytes_discrete
totals_tests = (refl, refl, refl, refl)

abbrev rounding : RoundOps ℕ
rounding = record {
  sums = whole;
  is_zero = λ x. x == 0;
  hundred = 100;
  times = λ x y. x * y;
  over = λ x y. x / y;
  round = λ x. x;
}

abbrev link_rows : List (LinkRow ℕ ℕ)
link_rows =
    record {
      link_id = 5;
      columns = 50;
      allocation_value = 9;
      created_by = some 7;
      amount = 4;
      count = 1;
    }
    ∷ record {
      link_id = 6;
      columns = 60;
      allocation_value = 8;
      created_by = none;
      amount = 0;
      count = 0;
    }
    ∷ record {
      link_id = 5;
      columns = 50;
      allocation_value = 9;
      created_by = some 8;
      amount = 3;
      count = 2;
    }
    ∷ []

assemble-show_each_example :
    assemble_linked_summaries rounding (λ by_user. by_user) link_rows
    ≡ show_each rounding (λ by_user. by_user) (order_of rounding [] link_rows) link_rows
assemble-show_each_example = assemble-show_each rounding (λ by_user. by_user) link_rows
