-- ===== src/Handlers/Requests/Closed.antt =====
-- internal/handlers: the requests of those who may not make them, one by one.
use financentury_backend.Prelude.{
  ℕ, ◌≡◌, refl, arith, Bool, true, false, Option, none, some, List, [], ◌∷◌, Bytes,
}
use financentury_backend.Handlers.Store.{Store, Budget, exists, first, owns, owned, has_access}
use financentury_backend.Handlers.Replies.{
  Env, Answer, Reply, failure, json, Checked, pass, refuse, ◌>>◌, ensure, given, require_user,
}
use financentury_backend.Handlers.Expenses.{
  trim_some, create_expense, update_expense, delete_expense, CreateExpenseRequest,
  UpdateExpenseRequest, check_amount, check_description, check_date, check_new_date, check_some,
}
use financentury_backend.Handlers.Pages.{list_expenses}
use financentury_backend.Handlers.Categories.{
  create_category, update_category, delete_category, income_of, update_by, update_fast, update_slow,
  CreateCategoryRequest, UpdateCategoryRequest, check_name, check_icon, check_filled,
  check_allocation,
}
use financentury_backend.Handlers.Links.{
  CreateRequest, create_link, update_link, delete_link, list_links,
}
use financentury_backend.Handlers.Budgets.{
  get_budget, check_income, check_mode, check_currency, check_period, Unicode,
}
use financentury_backend.Handlers.Amounts.{Amount}
use financentury_backend.Handlers.BudgetChanges.{
  UpdateBudgetRequest, update_budget, delete_budget, check_changes, check_cutoff,
}
use financentury_backend.Handlers.Members.{create_invite, remove_collaborator, no_collaborator}
use financentury_backend.Handlers.Requests.{Outside}

unfoldable pub is_failure : Reply → Bool
is_failure (failure status message) = true
is_failure (json status body) = false

-- An early return.
unfoldable pub is_refused : Checked Answer → Bool
unfolding is_failure
is_refused (pass a) = false
is_refused (refuse r) = is_failure r

first-owned :
    (b u : ℕ) (rows : List Budget) → exists (owned b u) rows ≡ false → first (owned b u) rows ≡ none
unfolding exists first
first-owned b u [] h = refl
first-owned b u (r ∷ rows) h = ground (arith, first-owned b u rows)

pub income_of-stranger : (b u : ℕ) (s : Store) → owns b u s ≡ false → income_of b u s ≡ none
unfolding income_of owns
income_of-stranger b u s h = first-owned b u s.budgets h

pub owns-stranger : (b u : ℕ) (s : Store) → has_access b u s ≡ false → owns b u s ≡ false
unfolding has_access
owns-stranger b u s h = ground arith

-- Requests that a member of the budget may make.
module _ (e : Env) (b : ℕ) (s : Store) (h : has_access b e.user s ≡ false) where
  pub get_budget_closed : is_refused (get_budget e (some b) s) ≡ true
  unfolding get_budget is_refused is_failure require_user given ensure
  get_budget_closed = ground arith

  pub list_expenses_closed :
      (o : Outside) (limit offset : Bytes)
      → is_refused (list_expenses o.atoi o.calendar e (some b) limit offset s) ≡ true
  unfolding list_expenses is_refused is_failure require_user given ensure
  list_expenses_closed o limit offset = ground arith

  pub create_expense_closed :
      (o : Outside) (body : Option CreateExpenseRequest)
      → is_refused (create_expense o.calendar e (some b) body s) ≡ true
  unfolding create_expense check_amount check_description check_date is_refused is_failure
      require_user given ensure
  create_expense_closed o body = ground arith

  pub update_expense_closed :
      (o : Outside) (x : Option ℕ) (body : Option UpdateExpenseRequest)
      → is_refused (update_expense o.calendar e (some b) x body s) ≡ true
  unfolding update_expense check_amount check_description check_new_date check_date is_refused
      is_failure require_user given ensure
  update_expense_closed o x body = ground arith

  pub delete_expense_closed : (x : Option ℕ) → is_refused (delete_expense e (some b) x s) ≡ true
  unfolding delete_expense is_refused is_failure require_user given ensure
  delete_expense_closed x = ground arith

  pub list_links_closed : is_refused (list_links e (some b) s) ≡ true
  unfolding list_links is_refused is_failure require_user given ensure
  list_links_closed = ground arith

  pub create_link_closed :
      (body : Option CreateRequest) → is_refused (create_link e (some b) body s) ≡ true
  unfolding create_link is_refused is_failure require_user given ensure
  create_link_closed body = ground arith

  pub update_link_closed :
      (l : Option ℕ) (body : Option Bytes) → is_refused (update_link e (some b) l body s) ≡ true
  unfolding update_link is_refused is_failure require_user given ensure
  update_link_closed l body = ground arith

  pub delete_link_closed : (l : Option ℕ) → is_refused (delete_link e (some b) l s) ≡ true
  unfolding delete_link is_refused is_failure require_user given ensure
  delete_link_closed l = ground arith

-- An early return of a check is an error's.
is_sound : Checked (Unit {0}) → Bool
unfolding is_failure
is_sound (pass a) = true
is_sound (refuse r) = is_failure r

then_sound :
    (m k : Checked (Unit {0})) → is_sound m ≡ true → is_sound k ≡ true → is_sound (m >> k) ≡ true
unfolding is_sound
then_sound (pass a) k hm hk = hk
then_sound (refuse r) k hm hk = hm

check_some_sound :
    {A : Type 0} (check : A → Checked (Unit {0})) (o : Option A)
    → ((a : A) → is_sound (check a) ≡ true)
    → is_sound (check_some check o) ≡ true
unfolding is_sound
check_some_sound check none h = refl
check_some_sound check (some a) h = h a

check_changes_sound :
    (uni : Unicode) (req : UpdateBudgetRequest) → is_sound (check_changes uni req) ≡ true
unfolding check_changes check_filled check_name check_income check_mode check_currency check_period
    check_cutoff ensure is_sound is_failure
check_changes_sound uni req =
    then_sound (check_some check_filled (trim_some req.name)) _
      (check_some_sound check_filled (trim_some req.name) λ a. ground arith)
      (then_sound (check_some check_name (trim_some req.name)) _
        (check_some_sound check_name (trim_some req.name) λ a. ground arith)
        (then_sound (check_some check_income req.monthly_income) _
          (check_some_sound check_income req.monthly_income λ a. ground arith)
          (then_sound (check_some check_mode (trim_some req.mode)) _
            (check_some_sound check_mode (trim_some req.mode) λ a. ground arith)
            (then_sound (check_some (check_currency uni) (trim_some req.currency)) _
              (check_some_sound (check_currency uni) (trim_some req.currency) λ a. ground arith)
              (then_sound (check_some check_period req.billing_period_months) _
                (check_some_sound check_period req.billing_period_months λ a. ground arith)
                (check_some_sound check_cutoff req.billing_cutoff_day λ a. ground arith))))))

-- Requests that only the owner may make.
module _ (e : Env) (b : ℕ) (s : Store) (h : owns b e.user s ≡ false) where
  pub update_budget_closed :
      (o : Outside) (body : Option UpdateBudgetRequest)
      → is_refused (update_budget o.unicode e (some b) body s) ≡ true
  unfolding update_budget is_refused is_failure is_sound require_user given ensure
  update_budget_closed o none = ground arith
  update_budget_closed o (some req) =
      ground (arith, income_of-stranger b e.user s h, check_changes_sound o.unicode req)

  pub delete_budget_closed : is_refused (delete_budget e (some b) s) ≡ true
  unfolding delete_budget is_refused is_failure require_user given ensure
  delete_budget_closed = ground arith

  pub create_category_closed :
      (body : Option CreateCategoryRequest) → is_refused (create_category e (some b) body s) ≡ true
  unfolding create_category check_name check_icon check_allocation is_refused is_failure
      require_user given ensure
  create_category_closed body = ground (arith, income_of-stranger b e.user s h)

  pub update_by_closed :
      (k : ℕ) (value : Option Amount) (req : UpdateCategoryRequest)
      → is_refused (update_by e e.user b k value req s) ≡ true
  unfolding update_by update_fast update_slow is_refused is_failure given ensure
  update_by_closed k none req = ground arith
  update_by_closed k (some value) req = ground (arith, income_of-stranger b e.user s h)

  pub update_category_closed :
      (k : Option ℕ) (body : Option UpdateCategoryRequest)
      → is_refused (update_category e (some b) k body s) ≡ true
  unfolding update_category check_name check_icon check_filled check_allocation is_refused
      is_failure require_user given ensure
  update_category_closed none body = ground arith
  update_category_closed (some k) none = ground arith
  update_category_closed (some k) (some req) =
      ground (arith, update_by_closed k req.allocation_value req)

  pub delete_category_closed : (k : Option ℕ) → is_refused (delete_category e (some b) k s) ≡ true
  unfolding delete_category is_refused is_failure require_user given ensure
  delete_category_closed k = ground arith

  pub create_invite_closed :
      (random : Option Bytes) → is_refused (create_invite e (some b) random s) ≡ true
  unfolding create_invite is_refused is_failure require_user given ensure
  create_invite_closed random = ground arith

  pub remove_collaborator_closed :
      (t : Option ℕ) → is_refused (remove_collaborator e (some b) t s) ≡ true
  unfolding remove_collaborator no_collaborator is_refused is_failure require_user given ensure
  remove_collaborator_closed t = ground arith
