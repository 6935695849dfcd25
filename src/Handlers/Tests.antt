-- ===== src/Handlers/Tests.antt =====
-- The theorems on the requests at a small household's tables.
use financentury_backend.Prelude.{
  ℕ, bytes_discrete, ◌+◌, ◌*◌, ◌/◌, ltb, ◌-◌, ◌≤◌, ◌≢◌, ◌≡◌, refl, arith, true, Option, none, some,
  List, [], ◌∷◌, ◌⊎◌, Bytes, bytes, inl,
}
use financentury_backend.Prelude.Int.{pos}
use financentury_backend.Handlers.Amounts.{
  Amount, finite, nothing, one, max_amount_value, exceeds, plus, minus, times, percent_of, floor,
  round, hundred, of_tenths, of_cents,
}
use financentury_backend.Handlers.Store.{Store, Budget, Category, Expense, exists, has_access, owns}
use financentury_backend.Handlers.Replies.{Env, pass, json, the_expenses, http_status}
use financentury_backend.Handlers.Expenses.{CreateExpenseRequest}
use financentury_backend.Handlers.Pages.{list_expenses}
use financentury_backend.Handlers.Pages.Bounds.{list_expenses_lem, IsPage}
use financentury_backend.Handlers.Categories.{
  CreateCategoryRequest, create_category, new_category, kept_category,
}
use financentury_backend.Handlers.Templates.{shares, share, last_share, get_balanced_categories}
use financentury_backend.Handlers.Requests.{Outside, post_category, post_expense, handle, budget_of}
use financentury_backend.Handlers.Requests.Closed.{is_failure}
use financentury_backend.Handlers.Requests.Outsiders.{handle-closed}
use financentury_backend.Handlers.Requests.Failures.{
  handle-failure, is_atomic, is_error, is_unencoded,
}
use financentury_backend.Prelude.Maps.{find}
use financentury_backend.Handlers.Store.{count, Invite}
use financentury_backend.Handlers.Replies.{
  Answer, Checked, refuse, invalidate, send, category_deleted,
}
use financentury_backend.Handlers.Requests.{take_invite}
use financentury_backend.Handlers.Budgets.{budget_total}
use financentury_backend.Handlers.Members.{accept_invite, count_budget_collaborators}
use financentury_backend.Handlers.Limits.{IsOrderly}
use financentury_backend.Handlers.Limits.Kept.{handle-IsOrderly}
use financentury_backend.Handlers.Limits.Once.{accept_invite-once, has_id}
use financentury_backend.Handlers.Categories.{delete_category}
use financentury_backend.Handlers.BudgetChanges.{UpdateBudgetRequest, update_budget}
use financentury_backend.Handlers.Categories.{UpdateCategoryRequest, update_category}
use financentury_backend.Handlers.Dependents.{
  delete_category-alone, create_category-admits_nan, as_nan,
}
use financentury_backend.Handlers.Targets.{fetch_target_budget_ids, targets_of}
use financentury_backend.Handlers.Coherence.{IsCoherent, FetchedRight, fetch_right}
use financentury_backend.Handlers.Coherence.Requests.{handle-IsCoherent, keeps_categories}

-- Dates are numbers of one digit; the calendar's year has ten days.
abbrev digit : Bytes → Option ℕ
digit (c ∷ []) = some c
digit _ = none

abbrev ten_days_before : ℕ → ℕ
ten_days_before n = n - 10

abbrev outside : Outside
outside = record {
  calendar = record {
    parse = digit;
    format = λ n. n ∷ [];
    a_year_before = ten_days_before;
    two_years_before = λ n. n - 20;
  };
  unicode = record { runes = λ s. s; is_upper = λ c. true; is_letter = λ c. true };
  atoi = λ s. some (pos 7);
}

-- User 1 owns budget 10, which user 2 has joined; user 3 is a stranger.
abbrev household : Budget
household = record {
  id = 10;
  user_id = 1;
  name = bytes "home";
  icon = bytes "wallet";
  monthly_income = of_cents 1000;
  currency = bytes "EUR";
  billing_period_months = pos 1;
  billing_cutoff_day = pos 1;
  mode = bytes "manual";
}

abbrev food : Category
food = record {
  id = 20;
  budget_id = 10;
  name = bytes "food";
  allocation_value = of_cents 600;
  icon = [];
  sort_order = pos 1;
}

abbrev lunch : Expense
lunch = record {
  id = 30;
  budget_id = 10;
  category_id = 20;
  amount = of_cents 50;
  description = [];
  expense_date = 95;
  created_by = 2;
}

abbrev tables : Store
tables = record {
  budgets = household ∷ [];
  categories = food ∷ [];
  expenses = lunch ∷ [];
  collaborators = record { budget_id = 10; user_id = 2 } ∷ [];
  links = [];
  invites = [];
  link_targets = [];
}

abbrev total : List Amount → Amount
total [] = nothing
total (v ∷ vs) = plus v (total vs)

abbrev by : ℕ → Env
by u = record {
  user = u;
  now = 1000;
  today = 100;
  fresh = 50;
  answers = λ n. true;
  arrives = λ n i. true;
  stored = λ v. v;
  sum = total;
}

abbrev supper : CreateExpenseRequest
supper = record { category_id = 20; amount = of_cents 80; description = []; expense_date = 99 ∷ [] }

abbrev rent : CreateCategoryRequest
rent = record {
  name = bytes "rent";
  allocation_value = of_cents 500;
  icon = [];
  sort_order = pos 0;
}

handle-closed_example :
    ((handle outside (by 3) (post_expense (some 10) (some supper)) tables).store ≡ tables)
    × ((handle outside (by 3) (post_expense (some 10) (some supper)) tables).effects ≡ [])
    × (is_failure (handle outside (by 3) (post_expense (some 10) (some supper)) tables).reply
        ≡ true)
unfolding budget_of has_access owns exists
handle-closed_example =
    handle-closed outside (by 3) (post_expense (some 10) (some supper)) 10 tables refl (inl refl)

-- The sum would be 1100 of 1000.
rent_refused :
    is_error (handle outside (by 1) (post_category (some 10) (some rent)) tables).reply ≡ true
unfolding handle create_category is_error exceeds plus of_cents nothing one
rent_refused = refl

handle-failure_example :
    ((handle outside (by 1) (post_category (some 10) (some rent)) tables).store ≡ tables)
      × ((handle outside (by 1) (post_category (some 10) (some rent)) tables).effects ≡ [])
    ⊎ (is_unencoded (handle outside (by 1) (post_category (some 10) (some rent)) tables).reply
        ≡ true)
unfolding is_atomic
handle-failure_example =
    handle-failure outside (by 1) (post_category (some 10) (some rent)) tables refl rent_refused

list_expenses_example :
    (xs : List Expense) × (list_expenses outside.atoi outside.calendar
        (by 2)
        (some 10)
        (bytes "7")
        []
        tables
      ≡ pass (record { store = tables; effects = []; reply = json 200 (the_expenses xs) }))
    × IsPage outside.calendar (by 2) 10 xs
unfolding has_access owns exists
list_expenses_example =
    list_expenses_lem outside.atoi outside.calendar (by 2) 10 (bytes "7") [] tables (omega arith)
      refl refl refl

-- A category that fits.
abbrev fuel : CreateCategoryRequest
fuel = record rent { allocation_value = of_cents 400 }

-- An invite of the household, which user 3 accepts.
abbrev card : Invite
card = record {
  id = 40;
  budget_id = 10;
  invite_token = bytes "card";
  created_by = 1;
  used_by = none;
  expires_at = 2000;
}

abbrev invited : Store
invited = record tables { invites = card ∷ [] }

abbrev outcome : Checked Answer → Answer
outcome (pass a) = a
outcome (refuse r) = record { store = tables; effects = []; reply = r }

unfoldable accepted : Answer
unfolding accept_invite
accepted = outcome (accept_invite (by 3) (bytes "card") invited)

card_accepted : accept_invite (by 3) (bytes "card") invited ≡ pass accepted
unfolding accepted accept_invite bytes_discrete
card_accepted = refl

card-keyed : (k : ℕ) → count (has_id k) invited.invites ≤ 1
unfolding count
card-keyed k = ground arith

accept_invite-once_example : accept_invite (by 4) (bytes "card") accepted.store ≢ pass accepted
accept_invite-once_example =
    accept_invite-once (by 3) (by 4) invited (bytes "card") card-keyed card_accepted

invited-IsOrderly : IsOrderly invited
unfolding count count_budget_collaborators budget_total
invited-IsOrderly = record { tidy = tt; shared = λ b. ground arith; limited = λ u. ground arith }

handle-IsOrderly_example :
    IsOrderly (handle outside (by 3) (take_invite (bytes "card")) invited).store
handle-IsOrderly_example =
    handle-IsOrderly outside (by 3) (take_invite (bytes "card")) invited invited-IsOrderly

-- Budget 11 shows the category 20.
abbrev shown : Store
shown = record tables {
  links =
      record {
        id = 60;
        source_budget_id = 10;
        target_budget_id = 11;
        source_category_id = 20;
        filter_mode = bytes "all";
        created_by = 1;
      }
      ∷ [];
}

unfoldable deleted : Answer
unfolding delete_category
deleted = outcome (delete_category (by 1) (some 10) (some 20) shown)

category_deleted_test : delete_category (by 1) (some 10) (some 20) shown ≡ pass deleted
unfolding deleted delete_category
category_deleted_test = refl

delete_category-alone_example : deleted.effects ≡ invalidate 10 ∷ send 10 category_deleted ∷ []
unfolding find
delete_category-alone_example =
    delete_category-alone (by 1) 10 20 shown category_deleted_test refl (λ p. refl, tt)

unfoldable fueled : Answer
unfolding create_category
fueled = outcome (create_category (by 1) (some 10) (some fuel) tables)

fuel_created : create_category (by 1) (some 10) (some fuel) tables ≡ pass fueled
unfolding fueled create_category exceeds plus of_cents nothing one
fuel_created = refl

create_category-admits_nan_example :
    (a : Answer) × (create_category (by 1) (some 10) (some (as_nan fuel)) tables ≡ pass a)
    × (a.store.categories
        ≡ kept_category (by 1) (new_category (by 1) 10 (as_nan fuel) tables) ∷ tables.categories)
    × (http_status a.reply ≡ 500)
create_category-admits_nan_example = create_category-admits_nan (by 1) 10 fuel tables fuel_created

-- The same with the targets of budget 10 cached.
abbrev cached : Store
cached = record shown { link_targets = (10, record { ids = 11 ∷ []; expires_at = 1010 }) ∷ [] }

cached-IsCoherent : IsCoherent cached
unfolding IsCoherent targets_of
cached-IsCoherent = (refl, tt)

handle-IsCoherent_example :
    IsCoherent (handle outside (by 1) (post_expense (some 10) (some supper)) cached).store
unfolding keeps_categories
handle-IsCoherent_example =
    handle-IsCoherent outside (by 1) (post_expense (some 10) (some supper)) cached refl
      (λ n i. refl) cached-IsCoherent

fetch_right_example : FetchedRight true 10 cached (fetch_target_budget_ids (by 1) 8 10 cached)
fetch_right_example = fetch_right (by 1) 8 10 cached (λ i. refl) cached-IsCoherent

-- 0.1 + 0.2 is above 0.3; beside 1e15, 0.05 is lost.
rounding_tests :
    (exceeds (plus (of_cents 10) (of_cents 20)) (of_cents 30) ≡ true)
    × (plus max_amount_value (of_cents 5) ≡ max_amount_value)
unfolding exceeds plus of_cents max_amount_value one
rounding_tests = (refl, refl)

-- The cents that a NUMERIC(18,2) column keeps of a share, and the sum of the columns.
unfoldable cents_of : Amount → ℕ
unfolding one
cents_of (finite (pos n)) = (200 * n + one) / (2 * one)
cents_of _ = 0

unfoldable total_cents : List Amount → ℕ
unfolding cents_of
total_cents [] = 0
total_cents (v ∷ vs) = cents_of v + total_cents vs

-- The income of a balanced budget that is exceeded by the shares, and one that is met.
seeds_tests :
    (ltb 8_115_607_762_587_762
        (total_cents (shares (of_cents 8_115_607_762_587_762) nothing get_balanced_categories))
      ≡ true)
    × (total_cents (shares (of_cents 123_457) nothing get_balanced_categories) ≡ 123_457)
unfolding total_cents shares share last_share get_balanced_categories exceeds plus minus times
    percent_of floor round hundred of_tenths of_cents nothing one
seeds_tests = (refl, refl)

abbrev more_food : UpdateCategoryRequest
more_food = record {
  name = none;
  allocation_value = some (of_cents 900);
  icon = none;
  sort_order = none;
}

unfoldable fed : Answer
unfolding update_category
fed = outcome (update_category (by 1) (some 10) (some 20) (some more_food) tables)

abbrev less_income : UpdateBudgetRequest
less_income = record {
  name = none;
  icon = none;
  monthly_income = some (of_cents 800);
  currency = none;
  billing_period_months = none;
  billing_cutoff_day = none;
  mode = none;
}

unfoldable lowered : Answer
unfolding update_budget
lowered = outcome (update_budget outside.unicode (by 1) (some 10) (some less_income) tables)
