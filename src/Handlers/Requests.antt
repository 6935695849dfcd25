-- ===== src/Handlers/Requests.antt =====
-- The requests of internal/handlers that work on budgets, as one function of the store.
pub mod Closed
pub mod Failures
pub mod Outsiders
use financentury_backend.Prelude.{ℕ, Bool, true, false, Option, none, some, Bytes}
use financentury_backend.Prelude.Int.{ℤ}
use financentury_backend.Handlers.Store.{Store}
use financentury_backend.Handlers.Replies.{Env, Answer, Checked, finish}
use financentury_backend.Handlers.Expenses.{
  Calendar, CreateExpenseRequest, UpdateExpenseRequest, create_expense, update_expense,
  delete_expense,
}
use financentury_backend.Handlers.Pages.{list_expenses}
use financentury_backend.Handlers.Categories.{
  CreateCategoryRequest, UpdateCategoryRequest, create_category, update_category, delete_category,
}
use financentury_backend.Handlers.Links.{
  CreateRequest, create_link, update_link, delete_link, list_links,
}
use financentury_backend.Handlers.Budgets.{Unicode, CreateBudgetRequest, create_budget, get_budget}
use financentury_backend.Handlers.BudgetChanges.{UpdateBudgetRequest, update_budget, delete_budget}
use financentury_backend.Handlers.Members.{create_invite, accept_invite, remove_collaborator}

-- A request with its path parameters, its query and its body, `none` where they do not parse.
pub data Request : Type 0 where
  post_budget : Option CreateBudgetRequest → Request
  view_budget : Option ℕ → Request
  put_budget : Option ℕ → Option UpdateBudgetRequest → Request
  remove_budget : Option ℕ → Request
  post_category : Option ℕ → Option CreateCategoryRequest → Request
  put_category : Option ℕ → Option ℕ → Option UpdateCategoryRequest → Request
  remove_category : Option ℕ → Option ℕ → Request
  page_expenses : Option ℕ → Bytes → Bytes → Request
  post_expense : Option ℕ → Option CreateExpenseRequest → Request
  put_expense : Option ℕ → Option ℕ → Option UpdateExpenseRequest → Request
  remove_expense : Option ℕ → Option ℕ → Request
  view_links : Option ℕ → Request
  post_link : Option ℕ → Option CreateRequest → Request
  put_link : Option ℕ → Option ℕ → Option Bytes → Request
  remove_link : Option ℕ → Option ℕ → Request
  post_invite : Option ℕ → Option Bytes → Request
  take_invite : Bytes → Request
  remove_member : Option ℕ → Option ℕ → Request

-- What stands outside the repository: the calendar, the package unicode, strconv.Atoi.
pub record Outside : Type 0 where
  pub calendar : Calendar
  pub unicode : Unicode
  pub atoi : Bytes → Option ℤ

unfoldable pub dispatch : Outside → Env → Request → Store → Checked Answer
dispatch o e (post_budget body) s = create_budget o.unicode e body s
dispatch o e (view_budget b) s = get_budget e b s
dispatch o e (put_budget b body) s = update_budget o.unicode e b body s
dispatch o e (remove_budget b) s = delete_budget e b s
dispatch o e (post_category b body) s = create_category e b body s
dispatch o e (put_category b k body) s = update_category e b k body s
dispatch o e (remove_category b k) s = delete_category e b k s
dispatch o e (page_expenses b limit offset) s = list_expenses o.atoi o.calendar e b limit offset s
dispatch o e (post_expense b body) s = create_expense o.calendar e b body s
dispatch o e (put_expense b x body) s = update_expense o.calendar e b x body s
dispatch o e (remove_expense b x) s = delete_expense e b x s
dispatch o e (view_links b) s = list_links e b s
dispatch o e (post_link b body) s = create_link e b body s
dispatch o e (put_link b l body) s = update_link e b l body s
dispatch o e (remove_link b l) s = delete_link e b l s
dispatch o e (post_invite b random) s = create_invite e b random s
dispatch o e (take_invite token) s = accept_invite e token s
dispatch o e (remove_member b u) s = remove_collaborator e b u s

unfoldable pub handle : Outside → Env → Request → Store → Answer
unfolding finish dispatch
handle o e r s = finish s (dispatch o e r s)

-- The budget that a request's path names.
unfoldable pub budget_of : Request → Option ℕ
budget_of (post_budget body) = none
budget_of (view_budget b) = b
budget_of (put_budget b body) = b
budget_of (remove_budget b) = b
budget_of (post_category b body) = b
budget_of (put_category b k body) = b
budget_of (remove_category b k) = b
budget_of (page_expenses b limit offset) = b
budget_of (post_expense b body) = b
budget_of (put_expense b x body) = b
budget_of (remove_expense b x) = b
budget_of (view_links b) = b
budget_of (post_link b body) = b
budget_of (put_link b l body) = b
budget_of (remove_link b l) = b
budget_of (post_invite b random) = b
budget_of (take_invite token) = none
budget_of (remove_member b u) = b

-- The requests that only the owner of the budget may make.
unfoldable pub needs_owner : Request → Bool
needs_owner (put_budget b body) = true
needs_owner (remove_budget b) = true
needs_owner (post_category b body) = true
needs_owner (put_category b k body) = true
needs_owner (remove_category b k) = true
needs_owner (post_invite b random) = true
needs_owner (remove_member b u) = true
needs_owner _ = false
