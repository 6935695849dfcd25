-- ===== src/Handlers/Categories.antt =====
-- internal/handlers/categories.go: the requests on the categories of a budget.
use financentury_backend.Prelude.{
  ℕ, suc, ◌+◌, Bool, ◌&&◌, not, Option, none, some, List, [], ◌∷◌, Bytes, ◌==◌, ltb, leb, length,
  if◌then◌else◌,
}
use financentury_backend.Prelude.Int.{ℤ, pos, ◌+ℤ◌, pos_part, neg_part}
use financentury_backend.Prelude.Text.{trim_space}
use financentury_backend.Handlers.Amounts.{Amount, exceeds, plus, nothing}
use financentury_backend.Handlers.Store.{
  Store, Budget, Category, exists, count, first, update, delete_first, discard, owns, owned,
  allocations,
}
use financentury_backend.Handlers.Replies.{
  Env, Answer, Checked, pass, ◌>>=◌, ◌>>◌, ensure, given, require_user, bad_request, not_found,
  internal, the_category, empty, category_created, category_updated, category_deleted,
}
use financentury_backend.Handlers.Links.{category_in}
use financentury_backend.Handlers.Expenses.{told, is_empty, check_some, trim_some, get_or}

abbrev pub max_categories_per_budget : ℕ
max_categories_per_budget = 50

abbrev pub max_name_length : ℕ
max_name_length = 200

abbrev pub max_icon_length : ℕ
max_icon_length = 50

pub record CreateCategoryRequest : Type 0 where
  pub name : Bytes
  pub allocation_value : Amount
  pub icon : Bytes
  pub sort_order : ℤ

pub record UpdateCategoryRequest : Type 0 where
  pub name : Option Bytes
  pub allocation_value : Option Amount
  pub icon : Option Bytes
  pub sort_order : Option ℤ

abbrev pub is_in : ℕ → Category → Bool
is_in b row = row.budget_id == b

-- `SELECT monthly_income ... WHERE id = $1 AND user_id = $2 FOR UPDATE`
unfoldable pub income_of : ℕ → ℕ → Store → Option Budget
unfolding first
income_of b u s = first (owned b u) s.budgets

-- `COALESCE(MAX(sort_order), 0)` of a budget's categories.
unfoldable pub later : ℤ → ℤ → ℤ
later a b = if ltb (pos_part b + neg_part a) (pos_part a + neg_part b) then a else b

unfoldable pub max_sort : ℕ → List Category → Option ℤ
unfolding later
max_sort b [] = none
max_sort b (c ∷ cs) =
    let rest = max_sort b cs in
    if is_in b c
    then elim rest [ none ↦ some c.sort_order | some m ↦ some (later c.sort_order m) ]
    else rest

-- A sort order that is omitted, or not positive, is the one behind the last.
unfoldable pub place : ℤ → Option ℤ → ℤ
unfolding ◌+ℤ◌
place (pos (suc n)) last = pos (suc n)
place wanted none = pos 1
place wanted (some m) = m +ℤ pos 1

unfoldable pub check_name : Bytes → Checked (Unit {0})
unfolding ensure
check_name name =
    ensure (leb (length name) max_name_length) (bad_request "name too long (max 200 characters)")

unfoldable pub check_icon : Bytes → Checked (Unit {0})
unfolding ensure
check_icon icon =
    ensure (leb (length icon) max_icon_length) (bad_request "icon too long (max 50 characters)")

unfoldable pub check_allocation : Amount → Checked (Unit {0})
unfolding ensure
check_allocation value =
    ensure (not (exceeds nothing value)) (bad_request "allocation_value must be positive")

unfoldable pub new_category : Env → ℕ → CreateCategoryRequest → Store → Category
unfolding place max_sort trim_space
new_category e b req s = record {
  id = e.fresh;
  budget_id = b;
  name = trim_space req.name;
  allocation_value = req.allocation_value;
  icon = trim_space req.icon;
  sort_order = place req.sort_order (max_sort b s.categories);
}

-- The row as the table keeps it.
unfoldable pub kept_category : Env → Category → Category
kept_category e row = record row { allocation_value = e.stored row.allocation_value }

-- `CreateCategory`. The statements are the transaction's begin, the lock, the totals, the insertion
-- and the commit; an early return rolls back.
unfoldable pub create_category :
    Env → Option ℕ → Option CreateCategoryRequest → Store → Checked Answer
unfolding require_user given ensure check_name check_icon check_allocation income_of allocations
    count new_category trim_space
create_category e budget body s = do
  u ← require_user e
  b ← given budget (bad_request "invalid budget ID")
  req ← given body (bad_request "invalid request body")
  let name = trim_space req.name
  let icon = trim_space req.icon
  ensure (not (is_empty name)) (bad_request "name is required")
  check_name name
  check_icon icon
  check_allocation req.allocation_value
  ensure (e.answers 0) (internal "failed to start transaction")
  ensure (e.answers 1) (internal "failed to fetch budget")
  owner ← given (income_of b u s) (not_found "budget not found")
  ensure (not (exceeds req.allocation_value owner.monthly_income))
      (bad_request "allocation_value exceeds budget income")
  ensure (e.answers 2) (internal "failed to check existing categories")
  ensure (ltb (count (is_in b) s.categories) max_categories_per_budget)
      (bad_request "maximum number of categories reached (50)")
  ensure
      (not (
        exceeds (plus (e.sum (allocations b s.categories)) req.allocation_value)
          owner.monthly_income))
      (bad_request "total allocation would exceed budget income")
  ensure (e.answers 3) (internal "failed to create category")
  ensure (e.answers 4) (internal "failed to commit category creation")
  let row = new_category e b req s
  pass (
      told e b category_created 201 (the_category row)
        (record s { categories = kept_category e row ∷ s.categories }))

abbrev kept_value : Env → Option Amount → Option Amount
kept_value e none = none
kept_value e (some value) = some (e.stored value)

-- `SET name = COALESCE($1, name), ...`
unfoldable pub patched : Env → UpdateCategoryRequest → Category → Category
unfolding get_or trim_some
patched e req old = record old {
  name = get_or (trim_some req.name) old.name;
  allocation_value = get_or (kept_value e req.allocation_value) old.allocation_value;
  icon = get_or (trim_some req.icon) old.icon;
  sort_order = get_or req.sort_order old.sort_order;
}

unfoldable pub check_filled : Bytes → Checked (Unit {0})
unfolding ensure
check_filled name = ensure (not (is_empty name)) (bad_request "name cannot be empty")

-- The row changed by the statement, and the announcement of the change.
unfoldable pub store_patch : Env → ℕ → ℕ → UpdateCategoryRequest → Store → Checked Answer
unfolding given first update patched
store_patch e b k req s = do
  old ← given (first (category_in k b) s.categories) (not_found "category not found")
  pass (
      told e b category_updated 200 (the_category (patched e req old))
        (record s { categories = update (category_in k b) (patched e req) s.categories }))

-- `UpdateCategory` without and with a new allocation.
unfoldable pub update_fast : Env → ℕ → ℕ → ℕ → UpdateCategoryRequest → Store → Checked Answer
unfolding ensure owns store_patch
update_fast e u b k req s = do
  ensure (e.answers 0) (internal "failed to update category")
  ensure (owns b u s) (not_found "category not found")
  store_patch e b k req s

-- The sum over the budget's categories other than the one with the id.
unfoldable pub other_total : Env → ℕ → ℕ → List Category → Amount
unfolding allocations delete_first
other_total e b k rows = e.sum (allocations b (delete_first (category_in k b) rows))

unfoldable pub update_slow :
    Env → ℕ → ℕ → ℕ → Amount → UpdateCategoryRequest → Store → Checked Answer
unfolding ensure given income_of other_total store_patch
update_slow e u b k value req s = do
  ensure (e.answers 0) (internal "failed to start transaction")
  ensure (e.answers 1) (internal "failed to fetch budget")
  owner ← given (income_of b u s) (not_found "budget not found")
  ensure (not (exceeds (plus (other_total e b k s.categories) value) owner.monthly_income))
      (bad_request "total allocation would exceed budget income")
  ensure (e.answers 2) (internal "failed to update category")
  answer ← store_patch e b k req s
  ensure (e.answers 3) (internal "failed to commit category update")
  pass answer

unfoldable pub update_by :
    Env → ℕ → ℕ → ℕ → Option Amount → UpdateCategoryRequest → Store → Checked Answer
unfolding update_fast update_slow
update_by e u b k none req s = update_fast e u b k req s
update_by e u b k (some value) req s = update_slow e u b k value req s

-- `UpdateCategory`
unfoldable pub update_category :
    Env → Option ℕ → Option ℕ → Option UpdateCategoryRequest → Store → Checked Answer
unfolding require_user given ensure check_filled check_name check_icon check_allocation update_by
    trim_some
update_category e budget category body s = do
  u ← require_user e
  b ← given budget (bad_request "invalid budget ID")
  k ← given category (bad_request "invalid category ID")
  req ← given body (bad_request "invalid request body")
  check_some check_filled (trim_some req.name)
  check_some check_name (trim_some req.name)
  check_some check_icon (trim_some req.icon)
  check_some check_allocation req.allocation_value
  update_by e u b k req.allocation_value req s

-- `ON DELETE CASCADE`: a category's expenses and links go with it.
unfoldable pub drop_category : ℕ → ℕ → Store → Store
unfolding delete_first discard
drop_category k b s = record s {
  categories = delete_first (category_in k b) s.categories;
  expenses = discard (λ x. x.category_id == k) s.expenses;
  links = discard (λ l. l.source_category_id == k) s.links;
}

-- `DeleteCategory`
unfoldable pub delete_category : Env → Option ℕ → Option ℕ → Store → Checked Answer
unfolding require_user given ensure owns exists drop_category
delete_category e budget category s = do
  u ← require_user e
  b ← given budget (bad_request "invalid budget ID")
  k ← given category (bad_request "invalid category ID")
  ensure (e.answers 0) (internal "failed to delete category")
  ensure (owns b u s && exists (category_in k b) s.categories) (not_found "category not found")
  pass (told e b category_deleted 204 empty (drop_category k b s))
