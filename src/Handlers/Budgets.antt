-- ===== src/Handlers/Budgets.antt =====
-- internal/handlers/budgets.go: the requests on budgets. Go's runes and the tables of the package
-- unicode are parameters.
use financentury_backend.Prelude.{
  ℕ, suc, ◌+◌, Bool, true, false, ◌&&◌, ◌||◌, not, Option, List, [], ◌∷◌, ◌++◌, Bytes, bytes, ◌==◌,
  ltb, leb, length, if◌then◌else◌,
}
use financentury_backend.Prelude.Int.{ℤ, pos, negsuc}
use financentury_backend.Prelude.Text.{same, trim_space}
use financentury_backend.Handlers.Amounts.{Amount, exceeds, at_most, nothing, max_amount_value}
use financentury_backend.Handlers.Store.{Store, Budget, Collaborator, count, first, has_access}
use financentury_backend.Handlers.Replies.{
  Env, Answer, Checked, pass, ◌>>=◌, ◌>>◌, ensure, given, require_user, bad_request, not_found,
  internal, json, the_budget, invalidate, send, drop_list, drop_linkable_of_user, budget_created,
}
use financentury_backend.Handlers.Expenses.{is_empty}
use financentury_backend.Handlers.Categories.{check_name}
use financentury_backend.Handlers.Templates.{guided_rows}

-- What the code uses of Go's strings and of unicode.
pub record Unicode : Type 0 where
  pub runes : Bytes → List ℕ
  pub is_upper : ℕ → Bool
  pub is_letter : ℕ → Bool

abbrev pub max_budgets_per_user : ℕ
max_budgets_per_user = 7

abbrev pub max_currency_length : ℕ
max_currency_length = 3

unfoldable pub one_of : Bytes → List Bytes → Bool
one_of s [] = false
one_of s (t ∷ ts) = same s t || one_of s ts

-- `guidedModes` and `validBudgetModes`.
unfoldable pub guided_modes : List Bytes
guided_modes =
    bytes "balanced" ∷ bytes "debt-free" ∷ bytes "debt-payoff" ∷ bytes "travel" ∷ bytes "event" ∷ []

unfoldable pub valid_budget_modes : List Bytes
unfolding guided_modes
valid_budget_modes = bytes "manual" ∷ guided_modes

unfoldable pub is_valid_billing_period : ℤ → Bool
is_valid_billing_period (pos m) = m == 0 || m == 1 || m == 3 || m == 6 || m == 12
is_valid_billing_period (negsuc m) = false

unfoldable pub all_upper : Unicode → List ℕ → Bool
all_upper uni [] = true
all_upper uni (r ∷ rs) = uni.is_upper r && uni.is_letter r && all_upper uni rs

unfoldable pub is_valid_currency_code : Unicode → Bytes → Bool
unfolding all_upper
is_valid_currency_code uni s = length s == max_currency_length && all_upper uni (uni.runes s)

abbrev pub is_cutoff_day : ℤ → Bool
is_cutoff_day (pos d) = leb 1 d && leb d 31
is_cutoff_day (negsuc d) = false

abbrev pub is_positive : ℤ → Bool
is_positive (pos (suc n)) = true
is_positive _ = false

-- The budgets that a user owns or has joined.
abbrev pub owned_by : ℕ → Budget → Bool
owned_by u row = row.user_id == u

abbrev pub joined_by : ℕ → Collaborator → Bool
joined_by u row = row.user_id == u

unfoldable pub budget_total : ℕ → Store → ℕ
unfolding count
budget_total u s = count (owned_by u) s.budgets + count (joined_by u) s.collaborators

-- `enforceUserBudgetLimit`
unfoldable pub enforce_user_budget_limit : Env → ℕ → Store → Checked (Unit {0})
unfolding ensure budget_total
enforce_user_budget_limit e u s = do
  ensure (e.answers 0) (internal "failed to check budget count")
  ensure (ltb (budget_total u s) max_budgets_per_user) (bad_request "budget limit reached (max 7)")

pub record CreateBudgetRequest : Type 0 where
  pub name : Bytes
  pub icon : Bytes
  pub monthly_income : Amount
  pub currency : Bytes
  pub billing_period_months : ℤ
  pub billing_cutoff_day : ℤ
  pub mode : Bytes

unfoldable pub or_default : Bytes → Bytes → Bytes
or_default [] fallback = fallback
or_default (c ∷ s) fallback = c ∷ s

unfoldable pub check_income : Amount → Checked (Unit {0})
unfolding ensure
check_income income = do
  ensure (not (at_most income nothing)) (bad_request "monthly_income must be positive")
  ensure (not (exceeds income max_amount_value))
      (bad_request "monthly_income exceeds maximum allowed value")

-- The body of CreateBudget trimmed, with its defaults.
unfoldable pub with_defaults : CreateBudgetRequest → CreateBudgetRequest
unfolding or_default trim_space
with_defaults req = record req {
  name = trim_space req.name;
  icon = or_default (trim_space req.icon) (bytes "wallet");
  currency = or_default (trim_space req.currency) (bytes "COP");
  mode = or_default (trim_space req.mode) (bytes "manual");
  billing_cutoff_day =
      if is_positive req.billing_period_months && not (is_positive req.billing_cutoff_day)
      then pos 1
      else req.billing_cutoff_day;
}

unfoldable pub check_period : ℤ → Checked (Unit {0})
unfolding ensure is_valid_billing_period
check_period months =
    ensure (is_valid_billing_period months)
      (bad_request "billing_period_months must be one of: 0, 1, 3, 6, 12")

unfoldable pub check_mode : Bytes → Checked (Unit {0})
unfolding ensure one_of
check_mode mode = ensure (one_of mode valid_budget_modes) (bad_request "invalid mode")

unfoldable pub check_currency : Unicode → Bytes → Checked (Unit {0})
unfolding ensure is_valid_currency_code
check_currency uni code =
    ensure (is_valid_currency_code uni code)
      (bad_request "invalid currency code (must be 3 uppercase letters)")

unfoldable pub check_budget : Unicode → CreateBudgetRequest → Checked (Unit {0})
unfolding ensure check_name check_income check_period check_mode check_currency
check_budget uni req = do
  ensure (not (is_empty req.name)) (bad_request "name is required")
  check_name req.name
  check_income req.monthly_income
  check_period req.billing_period_months
  check_mode req.mode
  check_currency uni req.currency
  ensure (not (is_positive req.billing_period_months) || is_cutoff_day req.billing_cutoff_day)
      (bad_request "billing_cutoff_day must be between 1 and 31")

abbrev pub new_budget : Env → ℕ → CreateBudgetRequest → Budget
new_budget e u req = record {
  id = e.fresh;
  user_id = u;
  name = req.name;
  icon = req.icon;
  monthly_income = req.monthly_income;
  currency = req.currency;
  billing_period_months = req.billing_period_months;
  billing_cutoff_day = req.billing_cutoff_day;
  mode = req.mode;
}

-- The row as the table keeps it.
unfoldable pub kept_budget : Env → Budget → Budget
kept_budget e row = record row { monthly_income = e.stored row.monthly_income }

-- After the budget's row is there: `seedGuidedCategories`, whose failure leaves the row.
unfoldable pub seeded : Env → ℕ → Budget → Store → Answer
unfolding one_of
seeded e u row s =
    let guided = one_of row.mode guided_modes in
    let added = if guided then guided_rows e row.id row.mode row.monthly_income else [] in
    if guided && not (e.answers 2)
    then record { store = s; effects = []; reply = internal "failed to create guided categories" }
    else record {
      store = record s { categories = added ++ s.categories };
      effects =
          invalidate row.id
          ∷ drop_list u
          ∷ drop_linkable_of_user u
          ∷ send row.id budget_created
          ∷ [];
      reply = json 201 (the_budget row);
    }

-- `CreateBudget`
unfoldable pub create_budget : Unicode → Env → Option CreateBudgetRequest → Store → Checked Answer
unfolding require_user given ensure enforce_user_budget_limit with_defaults check_budget seeded
create_budget uni e body s = do
  u ← require_user e
  enforce_user_budget_limit e u s
  req ← given body (bad_request "invalid request body")
  check_budget uni (with_defaults req)
  ensure (e.answers 1) (internal "failed to create budget")
  let row = new_budget e u (with_defaults req)
  pass (seeded e u row (record s { budgets = kept_budget e row ∷ s.budgets }))

-- `GetBudget`
unfoldable pub get_budget : Env → Option ℕ → Store → Checked Answer
unfolding require_user given ensure has_access first
get_budget e budget s = do
  u ← require_user e
  b ← given budget (bad_request "invalid budget ID")
  ensure (e.answers 0) (internal "failed to fetch budget")
  ensure (has_access b u s) (not_found "budget not found")
  row ← given (first (λ r. r.id == b) s.budgets) (not_found "budget not found")
  pass (record { store = s; effects = []; reply = json 200 (the_budget row) })
