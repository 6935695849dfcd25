-- ===== src/Handlers/Untouched.antt =====
-- The requests that leave the budgets, the collaborators and the links as they are.
use financentury_backend.Prelude.{ℕ, ◌≡◌, arith, Option, none, some, Bytes}
use financentury_backend.Handlers.Amounts.{Amount}
use financentury_backend.Handlers.Store.{Store}
use financentury_backend.Handlers.Replies.{Env, Answer, pass, ensure, given, require_user}
use financentury_backend.Handlers.Kept.{told-budgets, told-collaborators, told-links}
use financentury_backend.Handlers.Expenses.{
  Calendar, CreateExpenseRequest, UpdateExpenseRequest, create_expense, update_expense,
  delete_expense,
}
use financentury_backend.Handlers.Pages.{list_expenses}
use financentury_backend.Handlers.Categories.{
  CreateCategoryRequest, UpdateCategoryRequest, create_category, update_category, update_by,
  update_fast, update_slow, store_patch,
}
use financentury_backend.Handlers.Links.{list_links}
use financentury_backend.Handlers.Budgets.{get_budget}
use financentury_backend.Handlers.Members.{create_invite}
use financentury_backend.Handlers.Requests.{Outside}

abbrev pub Untouched : Store → Answer → Type 0
Untouched s a =
    (a.store.budgets ≡ s.budgets)
    × (a.store.collaborators ≡ s.collaborators)
    × (a.store.links ≡ s.links)

module _ (e : Env) (s : Store) {a : Answer} where
  pub create_expense-Untouched :
      (cal : Calendar) (b : Option ℕ) (body : Option CreateExpenseRequest)
      → create_expense cal e b body s ≡ pass a
      → Untouched s a
  unfolding create_expense require_user ensure given
  create_expense-Untouched cal b body h =
      grind (arith, told-budgets, told-collaborators, told-links)

  pub update_expense-Untouched :
      (cal : Calendar) (b x : Option ℕ) (body : Option UpdateExpenseRequest)
      → update_expense cal e b x body s ≡ pass a
      → Untouched s a
  unfolding update_expense require_user ensure given
  update_expense-Untouched cal b x body h =
      grind (arith, told-budgets, told-collaborators, told-links)

  pub delete_expense-Untouched : (b x : Option ℕ) → delete_expense e b x s ≡ pass a → Untouched s a
  unfolding delete_expense require_user ensure given
  delete_expense-Untouched b x h = grind (arith, told-budgets, told-collaborators, told-links)

  pub list_expenses-Untouched :
      (o : Outside) (b : Option ℕ) (limit offset : Bytes)
      → list_expenses o.atoi o.calendar e b limit offset s ≡ pass a
      → Untouched s a
  unfolding list_expenses require_user ensure given
  list_expenses-Untouched o b limit offset h = ground arith

  pub get_budget-Untouched : (b : Option ℕ) → get_budget e b s ≡ pass a → Untouched s a
  unfolding get_budget require_user ensure given
  get_budget-Untouched b h = ground arith

  pub list_links-Untouched : (b : Option ℕ) → list_links e b s ≡ pass a → Untouched s a
  unfolding list_links require_user ensure given
  list_links-Untouched b h = ground arith

  pub create_invite-Untouched :
      (b : Option ℕ) (random : Option Bytes) → create_invite e b random s ≡ pass a → Untouched s a
  unfolding create_invite require_user ensure given
  create_invite-Untouched b random h = ground arith

  pub create_category-Untouched :
      (b : Option ℕ) (body : Option CreateCategoryRequest)
      → create_category e b body s ≡ pass a
      → Untouched s a
  unfolding create_category require_user ensure given
  create_category-Untouched b body h = grind (arith, told-budgets, told-collaborators, told-links)

  store_patch-Untouched :
      (b k : ℕ) (req : UpdateCategoryRequest) → store_patch e b k req s ≡ pass a → Untouched s a
  unfolding store_patch given
  store_patch-Untouched b k req h = grind (arith, told-budgets, told-collaborators, told-links)

  pub update_by-eq-pass :
      (u b k : ℕ) (value : Option Amount) (req : UpdateCategoryRequest)
      → update_by e u b k value req s ≡ pass a
      → store_patch e b k req s ≡ pass a
  unfolding update_by update_fast update_slow ensure given
  update_by-eq-pass u b k none req h = ground arith
  update_by-eq-pass u b k (some v) req h = ground arith

  pub update_category-passes :
      (b k : ℕ) (req : UpdateCategoryRequest)
      → update_category e (some b) (some k) (some req) s ≡ pass a
      → update_by e e.user b k req.allocation_value req s ≡ pass a
  unfolding update_category require_user ensure given
  update_category-passes b k req h = ground arith

  pub update_category-Untouched :
      (b k : Option ℕ) (body : Option UpdateCategoryRequest)
      → update_category e b k body s ≡ pass a
      → Untouched s a
  unfolding update_category require_user ensure given
  update_category-Untouched none k body h = ground arith
  update_category-Untouched (some b) none body h = ground arith
  update_category-Untouched (some b) (some k) none h = ground arith
  update_category-Untouched (some b) (some k) (some req) h =
      store_patch-Untouched b k req
        (update_by-eq-pass e.user b k req.allocation_value req (update_category-passes b k req h))
