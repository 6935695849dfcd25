-- ===== src/Handlers/Expenses.antt =====
-- internal/handlers/expenses.go: the requests on the expenses of a budget. Parsing and printing of
-- dates, the calendar's year and strconv.Atoi are parameters.

use financentury_backend.Prelude.{
  ℕ, ◌+◌, Bool, true, false, ◌&&◌, not, Option, none, some, [], ◌∷◌, Bytes, ◌==◌, ltb, leb, length,
  if◌then◌else◌,
}
use financentury_backend.Prelude.Text.{trim_space}
use financentury_backend.Handlers.Amounts.{Amount, exceeds, nothing, max_amount_value}
use financentury_backend.Handlers.Store.{
  Store, Expense, exists, count, first, update, delete_first, has_access,
}
use financentury_backend.Handlers.Replies.{
  Env, Answer, Checked, pass, ◌>>=◌, ◌>>◌, ensure, given, require_user, bad_request, not_found,
  internal, json, Event, the_expense, empty, expense_created, expense_updated, expense_deleted,
  Body,
}
use financentury_backend.Handlers.Targets.{announce}
use financentury_backend.Handlers.Links.{category_in}

-- `time.Parse` and `Format` with the layout `2006-01-02`, and the days before which
-- `AddDate(-1, 0, 0)` and SQL's `INTERVAL '24 months'` reach from a day.
pub record Calendar : Type 0 where
  pub parse : Bytes → Option ℕ
  pub format : ℕ → Bytes
  pub a_year_before : ℕ → ℕ
  pub two_years_before : ℕ → ℕ

abbrev pub max_expenses_per_budget : ℕ
max_expenses_per_budget = 3000

abbrev pub max_description_length : ℕ
max_description_length = 500

abbrev pub max_future_date_days : ℕ
max_future_date_days = 365

pub record CreateExpenseRequest : Type 0 where
  pub category_id : ℕ
  pub amount : Amount
  pub description : Bytes
  pub expense_date : Bytes

pub record UpdateExpenseRequest : Type 0 where
  pub category_id : Option ℕ
  pub amount : Option Amount
  pub description : Option Bytes
  pub expense_date : Option Bytes

abbrev pub is_empty : Bytes → Bool
is_empty [] = true
is_empty (c ∷ s) = false

-- `isDateTooFarInFuture` of a date that parses.
abbrev pub is_too_far : Env → ℕ → Bool
is_too_far e day = ltb (e.today + max_future_date_days) day

unfoldable pub check_date : Calendar → Env → Bytes → Checked ℕ
unfolding given ensure
check_date cal e text = do
  day ← given (cal.parse text) (bad_request "invalid date format, use YYYY-MM-DD")
  ensure (not (is_too_far e day))
      (bad_request "expense_date cannot be more than 1 year in the future")
  pass day

unfoldable pub check_amount : Amount → Checked (Unit {0})
unfolding ensure
check_amount amount = do
  ensure (exceeds amount nothing) (bad_request "amount must be positive")
  ensure (not (exceeds amount max_amount_value))
      (bad_request "amount exceeds maximum allowed value")

unfoldable pub check_description : Bytes → Checked (Unit {0})
unfolding ensure
check_description text =
    ensure (leb (length text) max_description_length)
      (bad_request "description too long (max 500 characters)")

-- An optional field is checked if it is there.
abbrev pub check_some : {A : Type 0} → (A → Checked (Unit {0})) → Option A → Checked (Unit {0})
check_some check none = pass tt
check_some check (some a) = check a

unfoldable pub get_or : {A : Type 0} → Option A → A → A
get_or none old = old
get_or (some a) old = a

abbrev pub counted : ℕ → Expense → Bool
counted b row = row.budget_id == b

abbrev pub the_row : ℕ → ℕ → Expense → Bool
the_row x b row = row.id == x && row.budget_id == b

-- The answer to a write, after its announcement.
unfoldable pub told : Env → ℕ → Event → ℕ → Body → Store → Answer
unfolding announce
told e b event status body s =
    let (s', effects) = announce e b event s in
    record { store = s'; effects = effects; reply = json status body }

-- The row as the table keeps it.
abbrev pub kept_expense : Env → Expense → Expense
kept_expense e row = record row { amount = e.stored row.amount }

-- `CreateExpense`
unfoldable pub create_expense :
    Calendar → Env → Option ℕ → Option CreateExpenseRequest → Store → Checked Answer
unfolding require_user given ensure check_date check_amount check_description has_access exists
    count trim_space
create_expense cal e budget body s = do
  u ← require_user e
  b ← given budget (bad_request "invalid budget ID")
  req ← given body (bad_request "invalid request body")
  let description = trim_space req.description
  let date = trim_space req.expense_date
  ensure (not (req.category_id == 0)) (bad_request "category_id is required")
  check_amount req.amount
  check_description description
  day ← check_date cal e (if is_empty date then cal.format e.today else date)
  ensure (e.answers 0) (internal "failed to verify budget")
  ensure (has_access b u s) (not_found "budget not found")
  ensure (ltb (count (counted b) s.expenses) max_expenses_per_budget)
      (bad_request "expense limit reached for this budget")
  ensure (exists (category_in req.category_id b) s.categories)
      (bad_request "category does not belong to this budget")
  ensure (e.answers 1) (internal "failed to create expense")
  let row : Expense = record {
    id = e.fresh;
    budget_id = b;
    category_id = req.category_id;
    amount = req.amount;
    description = description;
    expense_date = day;
    created_by = u;
  }
  pass (
      told e b expense_created 201 (the_expense row)
        (record s { expenses = kept_expense e row ∷ s.expenses }))

-- A date that is given is checked and read.
unfoldable pub check_new_date : Calendar → Env → Option Bytes → Checked (Option ℕ)
unfolding check_date ensure
check_new_date cal e none = pass none
check_new_date cal e (some text) = do
  ensure (not (is_empty text)) (bad_request "expense_date cannot be empty")
  day ← check_date cal e text
  pass (some day)

unfoldable pub trim_some : Option Bytes → Option Bytes
unfolding trim_space
trim_some none = none
trim_some (some text) = some (trim_space text)

-- `req.CategoryID != nil && !categoryBelongs`
abbrev pub belongs : Option ℕ → ℕ → Store → Bool
belongs none b s = true
belongs (some c) b s = exists (category_in c b) s.categories

-- `UpdateExpense`
unfoldable pub update_expense :
    Calendar → Env → Option ℕ → Option ℕ → Option UpdateExpenseRequest → Store → Checked Answer
unfolding require_user given ensure check_new_date check_amount check_description has_access exists
    first update trim_some get_or
update_expense cal e budget expense body s = do
  u ← require_user e
  b ← given budget (bad_request "invalid budget ID")
  x ← given expense (bad_request "invalid expense ID")
  req ← given body (bad_request "invalid request body")
  let description = trim_some req.description
  check_some check_amount req.amount
  check_some check_description description
  day ← check_new_date cal e (trim_some req.expense_date)
  ensure (e.answers 0) (internal "failed to fetch expense")
  ensure (has_access b u s) (not_found "expense not found")
  old ← given (first (the_row x b) s.expenses) (not_found "expense not found")
  ensure (belongs req.category_id b s) (bad_request "category does not belong to this budget")
  ensure (e.answers 1) (internal "failed to update expense")
  let row = record old {
    category_id = get_or req.category_id old.category_id;
    amount = get_or req.amount old.amount;
    description = get_or description old.description;
    expense_date = get_or day old.expense_date;
  }
  pass (
      told e b expense_updated 200 (the_expense row)
        (record s { expenses = update (the_row x b) (λ _. kept_expense e row) s.expenses }))

-- `DeleteExpense`
unfoldable pub delete_expense : Env → Option ℕ → Option ℕ → Store → Checked Answer
unfolding require_user given ensure has_access exists first delete_first
delete_expense e budget expense s = do
  u ← require_user e
  b ← given budget (bad_request "invalid budget ID")
  x ← given expense (bad_request "invalid expense ID")
  ensure (e.answers 0) (internal "failed to delete expense")
  ensure (has_access b u s && exists (the_row x b) s.expenses) (not_found "expense not found")
  pass (
      told e b expense_deleted 204 empty
        (record s { expenses = delete_first (the_row x b) s.expenses }))
