-- ===== src/Handlers/BudgetChanges.antt =====
-- internal/handlers/budgets.go: UpdateBudget and DeleteBudget.
use financentury_backend.Prelude.{
  ℕ, Bool, ◌&&◌, ◌||◌, not, Option, none, some, List, [], ◌∷◌, ◌++◌, map, Bytes, ◌==◌,
  if◌then◌else◌, ℕ_discrete,
}
use financentury_backend.Prelude.Int.{ℤ}
use financentury_backend.Prelude.Maps.{member}
use financentury_backend.Handlers.Amounts.{Amount, exceeds}
use financentury_backend.Handlers.Store.{
  Store, Budget, Category, Expense, Link, Collaborator, exists, update, delete_first, discard,
  owned, owns, allocations,
}
use financentury_backend.Handlers.Replies.{
  Env, Answer, Effect, Checked, pass, ◌>>=◌, ◌>>◌, ensure, given, require_user, bad_request,
  not_found, internal, json, the_budget, empty, invalidate, send, drop_list, drop_linkable_of_user,
  budget_updated, budget_deleted,
}
use financentury_backend.Handlers.Expenses.{check_some, trim_some, get_or}
use financentury_backend.Handlers.Categories.{check_name, check_filled, income_of}
use financentury_backend.Handlers.Targets.{invalidate_link_targets_cache_all}
use financentury_backend.Handlers.Budgets.{
  Unicode, kept_budget, check_income, check_mode, check_currency, check_period, is_cutoff_day,
}

pub record UpdateBudgetRequest : Type 0 where
  pub name : Option Bytes
  pub icon : Option Bytes
  pub monthly_income : Option Amount
  pub currency : Option Bytes
  pub billing_period_months : Option ℤ
  pub billing_cutoff_day : Option ℤ
  pub mode : Option Bytes

unfoldable pub check_cutoff : ℤ → Checked (Unit {0})
unfolding ensure
check_cutoff day =
    ensure (is_cutoff_day day) (bad_request "billing_cutoff_day must be between 1 and 31")

-- The optional fields, in the order of the checks.
unfoldable pub check_changes : Unicode → UpdateBudgetRequest → Checked (Unit {0})
unfolding check_filled check_name check_income check_mode check_currency check_period check_cutoff
    trim_some
check_changes uni req = do
  check_some check_filled (trim_some req.name)
  check_some check_name (trim_some req.name)
  check_some check_income req.monthly_income
  check_some check_mode (trim_some req.mode)
  check_some (check_currency uni) (trim_some req.currency)
  check_some check_period req.billing_period_months
  check_some check_cutoff req.billing_cutoff_day

-- A lower income must still cover the allocations.
unfoldable pub check_covers : Env → ℕ → Option Amount → Budget → Store → Checked (Unit {0})
unfolding ensure allocations
check_covers e b none old s = pass tt
check_covers e b (some income) old s =
    if exceeds old.monthly_income income
    then (do
      ensure (e.answers 2) (internal "failed to verify existing allocations")
      ensure (not (exceeds (e.sum (allocations b s.categories)) income)) (
          bad_request
            "monthly_income is less than total category allocations; reduce category allocations first"))
    else pass tt

unfoldable pub changed : UpdateBudgetRequest → Budget → Budget
unfolding get_or trim_some
changed req old = record old {
  name = get_or (trim_some req.name) old.name;
  icon = get_or (trim_some req.icon) old.icon;
  monthly_income = get_or req.monthly_income old.monthly_income;
  currency = get_or (trim_some req.currency) old.currency;
  billing_period_months = get_or req.billing_period_months old.billing_period_months;
  billing_cutoff_day = get_or req.billing_cutoff_day old.billing_cutoff_day;
  mode = get_or (trim_some req.mode) old.mode;
}

-- The users that see a budget, its owner first, each once.
unfoldable pub collaborators_of : ℕ → List ℕ → List Collaborator → List ℕ
unfolding member ℕ_discrete
collaborators_of b known [] = []
collaborators_of b known (c ∷ cs) =
    if c.budget_id == b && not (member ℕ_discrete c.user_id known)
    then c.user_id ∷ collaborators_of b (c.user_id ∷ known) cs
    else collaborators_of b known cs

unfoldable pub owner_of : ℕ → List Budget → List ℕ
owner_of b [] = []
owner_of b (row ∷ rows) = if row.id == b then row.user_id ∷ [] else owner_of b rows

unfoldable pub viewers : ℕ → Store → List ℕ
unfolding owner_of collaborators_of
viewers b s = let owner = owner_of b s.budgets in owner ++ collaborators_of b owner s.collaborators

-- `invalidateBudgetsListCachesForCollaborators`: the patterns one by one, then the exact keys.
unfoldable pub drop_views : Bool → ℕ → Store → List Effect
unfolding viewers
drop_views answered b s =
    if answered then map drop_linkable_of_user (viewers b s) ++ map drop_list (viewers b s) else []

-- `UpdateBudget`: begin, lock, sum, write, commit, and the query of the viewers.
unfoldable pub update_budget :
    Unicode → Env → Option ℕ → Option UpdateBudgetRequest → Store → Checked Answer
unfolding require_user given ensure income_of update changed
update_budget uni e budget body s = do
  u ← require_user e
  b ← given budget (bad_request "invalid budget ID")
  req ← given body (bad_request "invalid request body")
  check_changes uni req
  ensure (e.answers 0) (internal "failed to start transaction")
  ensure (e.answers 1) (internal "failed to fetch budget")
  old ← given (income_of b u s) (not_found "budget not found")
  check_covers e b req.monthly_income old s
  ensure (e.answers 3) (internal "failed to update budget")
  ensure (e.answers 4) (internal "failed to commit budget update")
  let s' = record s {
    budgets = update (owned b u) (λ row. kept_budget e (changed req row)) s.budgets;
  }
  pass (record {
    store = s';
    effects = invalidate b ∷ (drop_views (e.answers 5) b s' ++ (send b budget_updated ∷ []));
    reply = json 200 (the_budget (changed req old));
  })

-- `ON DELETE CASCADE`, the rows that name the budget or one of its categories.
abbrev pub of_category_in : ℕ → ℕ → Category → Bool
of_category_in b k c = c.id == k && c.budget_id == b

abbrev pub expense_goes : ℕ → Store → Expense → Bool
expense_goes b s x = x.budget_id == b || exists (of_category_in b x.category_id) s.categories

abbrev pub link_goes : ℕ → Store → Link → Bool
link_goes b s l =
    l.source_budget_id == b
    || l.target_budget_id == b
    || exists (of_category_in b l.source_category_id) s.categories

unfoldable pub drop_budget : ℕ → ℕ → Store → Store
unfolding delete_first discard exists
drop_budget b u s = record s {
  budgets = delete_first (owned b u) s.budgets;
  categories = discard (λ c. c.budget_id == b) s.categories;
  expenses = discard (expense_goes b s) s.expenses;
  collaborators = discard (λ c. c.budget_id == b) s.collaborators;
  links = discard (link_goes b s) s.links;
  invites = discard (λ i. i.budget_id == b) s.invites;
}

-- The second statement of DeleteBudget, which RemoveCollaborator has too.
abbrev pub made_by : ℕ → ℕ → Link → Bool
made_by u b l = l.created_by == u && (l.source_budget_id == b || l.target_budget_id == b)

unfoldable pub drop_links_of : ℕ → ℕ → Store → Store
unfolding discard
drop_links_of u b s = record s { links = discard (made_by u b) s.links }

-- `DeleteBudget`: begin, delete, clean up, commit.
unfoldable pub delete_budget : Env → Option ℕ → Store → Checked Answer
unfolding require_user given ensure owns drop_budget drop_links_of invalidate_link_targets_cache_all
delete_budget e budget s = do
  u ← require_user e
  b ← given budget (bad_request "invalid budget ID")
  ensure (e.answers 0) (internal "failed to start transaction")
  ensure (e.answers 1) (internal "failed to delete budget")
  ensure (owns b u s) (not_found "budget not found")
  ensure (e.answers 2) (internal "failed to clean up budget links")
  ensure (e.answers 3) (internal "failed to commit deletion")
  pass (record {
    store = invalidate_link_targets_cache_all (drop_links_of u b (drop_budget b u s));
    effects = invalidate b ∷ drop_list u ∷ drop_linkable_of_user u ∷ send b budget_deleted ∷ [];
    reply = json 204 empty;
  })
