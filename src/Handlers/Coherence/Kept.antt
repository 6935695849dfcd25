-- ===== src/Handlers/Coherence/Kept.antt =====
-- The requests that keep the cache of link targets right: all but the deletion of a category.
use financentury_backend.Prelude.{
  ℕ, ◌≡◌, ◌≢◌, sym, ◌∙◌, All-map, arith, Bool, Option, none, some, List, [], ℕ_discrete, Bytes,
}
use financentury_backend.Prelude.Maps.{delete}
use financentury_backend.Handlers.Store.{Store, Link, Expense, Category}
use financentury_backend.Handlers.Replies.{
  Env, Answer, Event, Body, pass, ensure, given, require_user,
}
use financentury_backend.Handlers.Targets.{announce, fetch_target_budget_ids, targets_of}
use financentury_backend.Handlers.Targets.{invalidate_link_targets_cache_all}
use financentury_backend.Handlers.Categories.{
  CreateCategoryRequest, UpdateCategoryRequest, create_category, update_category, store_patch,
}
use financentury_backend.Handlers.Untouched.{update_by-eq-pass, update_category-passes}
use financentury_backend.Handlers.Requests.{Outside}
use financentury_backend.Handlers.Pages.{list_expenses}
use financentury_backend.Handlers.Budgets.{
  Unicode, CreateBudgetRequest, create_budget, get_budget, seeded,
}
use financentury_backend.Handlers.BudgetChanges.{UpdateBudgetRequest, update_budget, delete_budget}
use financentury_backend.Handlers.Links.{list_links}
use financentury_backend.Handlers.Members.{
  create_invite, accept_invite, remove_collaborator, check_token, may_join, join, welcome,
}
use financentury_backend.Handlers.Expenses.{
  Calendar, CreateExpenseRequest, UpdateExpenseRequest, create_expense, update_expense,
  delete_expense, told,
}
use financentury_backend.Handlers.Coherence.{
  IsCoherent, FetchedRight, Arrives, fetch_right, Current, delete-others,
}

right-IsCoherent :
    (ok : Bool) (b : ℕ) (s : Store) (r : Store × Option (List ℕ))
    → FetchedRight ok b s r
    → IsCoherent (r.0)
unfolding FetchedRight
right-IsCoherent ok b s (s', none) (q, h) = h
right-IsCoherent ok b s (s', some ids) (q, h) = h

module _ (e : Env) (reads : (n : ℕ) → Arrives e n) where
  announce-IsCoherent :
      (b : ℕ) (event : Event) (s : Store) → IsCoherent s → IsCoherent (announce e b event s).0
  unfolding announce
  announce-IsCoherent b event s h =
      let first =
        right-IsCoherent (e.answers 8) b s (fetch_target_budget_ids e 8 b s)
          (fetch_right e 8 b s (reads 8) h) in
      let s' = (fetch_target_budget_ids e 8 b s).0 in
      right-IsCoherent (e.answers 9) b s' (fetch_target_budget_ids e 9 b s')
        (fetch_right e 9 b s' (reads 9) first)

  told-IsCoherent :
      (b : ℕ) (event : Event) (n : ℕ) (body : Body) (s : Store)
      → IsCoherent s
      → IsCoherent (told e b event n body s).store
  unfolding told
  told-IsCoherent b event n body s h = announce-IsCoherent b event s h

expenses-IsCoherent :
    (xs : List Expense) (s : Store) → IsCoherent s → IsCoherent (record s { expenses = xs })
unfolding IsCoherent
expenses-IsCoherent xs s h = h

categories-IsCoherent :
    (xs : List Category) (s : Store) → IsCoherent s → IsCoherent (record s { categories = xs })
unfolding IsCoherent
categories-IsCoherent xs s h = h

-- The links and the entries are as they were.
still-IsCoherent :
    (s s' : Store)
    → s'.links ≡ s.links
    → s'.link_targets ≡ s.link_targets
    → IsCoherent s
    → IsCoherent s'
unfolding IsCoherent
still-IsCoherent s s' l t h = rw t (rw l h)

-- The links of one source changed and its entry is dropped.
pub dropped-IsCoherent :
    (s s' : Store) (k : ℕ) (ls : List Link)
    → s'.links ≡ ls
    → s'.link_targets ≡ delete ℕ_discrete k s.link_targets
    → ((j : ℕ) → j ≢ k → targets_of j ls ≡ targets_of j s.links)
    → IsCoherent s
    → IsCoherent s'
unfolding IsCoherent
dropped-IsCoherent s s' k ls l t f h = rw t (rw l (delete-others s.links ls k f s.link_targets h))

-- The links changed, and each source has the targets that it had.
pub relinked-IsCoherent :
    (s s' : Store) (ls : List Link)
    → s'.links ≡ ls
    → s'.link_targets ≡ s.link_targets
    → ((j : ℕ) → targets_of j ls ≡ targets_of j s.links)
    → IsCoherent s
    → IsCoherent s'
unfolding IsCoherent
relinked-IsCoherent s s' ls l t f h =
    rw t (rw l (All-map (Current s.links) (Current ls) (λ x p. p ∙ sym (f x.0)) s.link_targets h))

empty-IsCoherent : (s : Store) → s.link_targets ≡ [] → IsCoherent s
unfolding IsCoherent
empty-IsCoherent s t = rw t tt

module _ (e : Env) (reads : (n : ℕ) → Arrives e n) (s : Store) {a : Answer} where
  pub create_expense-IsCoherent :
      (cal : Calendar) (b : Option ℕ) (body : Option CreateExpenseRequest)
      → create_expense cal e b body s ≡ pass a
      → IsCoherent s
      → IsCoherent a.store
  unfolding create_expense require_user ensure given
  create_expense-IsCoherent cal b body h i =
      grind (arith, told-IsCoherent e reads, expenses-IsCoherent)

  pub update_expense-IsCoherent :
      (cal : Calendar) (b x : Option ℕ) (body : Option UpdateExpenseRequest)
      → update_expense cal e b x body s ≡ pass a
      → IsCoherent s
      → IsCoherent a.store
  unfolding update_expense require_user ensure given
  update_expense-IsCoherent cal b x body h i =
      grind (arith, told-IsCoherent e reads, expenses-IsCoherent)

  pub delete_expense-IsCoherent :
      (b x : Option ℕ) → delete_expense e b x s ≡ pass a → IsCoherent s → IsCoherent a.store
  unfolding delete_expense require_user ensure given
  delete_expense-IsCoherent b x h i = grind (arith, told-IsCoherent e reads, expenses-IsCoherent)

  pub create_category-IsCoherent :
      (b : Option ℕ) (body : Option CreateCategoryRequest)
      → create_category e b body s ≡ pass a
      → IsCoherent s
      → IsCoherent a.store
  unfolding create_category require_user ensure given
  create_category-IsCoherent b body h i =
      grind (arith, told-IsCoherent e reads, categories-IsCoherent)

  pub store_patch-IsCoherent :
      (b k : ℕ) (req : UpdateCategoryRequest)
      → store_patch e b k req s ≡ pass a
      → IsCoherent s
      → IsCoherent a.store
  unfolding store_patch given
  store_patch-IsCoherent b k req h i = grind (arith, told-IsCoherent e reads, categories-IsCoherent)

  pub update_category-IsCoherent :
      (b k : Option ℕ) (body : Option UpdateCategoryRequest)
      → update_category e b k body s ≡ pass a
      → IsCoherent s
      → IsCoherent a.store
  unfolding update_category require_user ensure given
  update_category-IsCoherent none k body h i = absurd (ground arith)
  update_category-IsCoherent (some b) none body h i = absurd (ground arith)
  update_category-IsCoherent (some b) (some k) none h i = absurd (ground arith)
  update_category-IsCoherent (some b) (some k) (some req) h i =
      store_patch-IsCoherent b k req
        (update_by-eq-pass e s e.user b k req.allocation_value req
          (update_category-passes e s b k req h))
        i

module _ (e : Env) (s : Store) {a : Answer} where
  -- Requests that leave links and entries alone.
  pub list_expenses-IsCoherent :
      (o : Outside) (b : Option ℕ) (limit offset : Bytes)
      → list_expenses o.atoi o.calendar e b limit offset s ≡ pass a
      → IsCoherent s
      → IsCoherent a.store
  unfolding list_expenses require_user ensure given
  list_expenses-IsCoherent o b limit offset h i =
      still-IsCoherent s a.store (ground arith) (ground arith) i

  pub get_budget-IsCoherent :
      (b : Option ℕ) → get_budget e b s ≡ pass a → IsCoherent s → IsCoherent a.store
  unfolding get_budget require_user ensure given
  get_budget-IsCoherent b h i = still-IsCoherent s a.store (ground arith) (ground arith) i

  pub list_links-IsCoherent :
      (b : Option ℕ) → list_links e b s ≡ pass a → IsCoherent s → IsCoherent a.store
  unfolding list_links require_user ensure given
  list_links-IsCoherent b h i = still-IsCoherent s a.store (ground arith) (ground arith) i

  pub create_invite-IsCoherent :
      (b : Option ℕ) (random : Option Bytes)
      → create_invite e b random s ≡ pass a
      → IsCoherent s
      → IsCoherent a.store
  unfolding create_invite require_user ensure given
  create_invite-IsCoherent b random h i = still-IsCoherent s a.store (ground arith) (ground arith) i

  pub create_budget-IsCoherent :
      (uni : Unicode) (body : Option CreateBudgetRequest)
      → create_budget uni e body s ≡ pass a
      → IsCoherent s
      → IsCoherent a.store
  unfolding create_budget seeded require_user ensure given
  create_budget-IsCoherent uni body h i = still-IsCoherent s a.store (ground arith) (ground arith) i

  pub update_budget-IsCoherent :
      (uni : Unicode) (b : Option ℕ) (body : Option UpdateBudgetRequest)
      → update_budget uni e b body s ≡ pass a
      → IsCoherent s
      → IsCoherent a.store
  unfolding update_budget require_user ensure given
  update_budget-IsCoherent uni b body h i =
      still-IsCoherent s a.store (ground arith) (ground arith) i

  pub accept_invite-IsCoherent :
      (text : Bytes) → accept_invite e text s ≡ pass a → IsCoherent s → IsCoherent a.store
  unfolding accept_invite check_token may_join join welcome require_user ensure given
  accept_invite-IsCoherent text h i = still-IsCoherent s a.store (ground arith) (ground arith) i

  pub delete_budget-IsCoherent : (b : Option ℕ) → delete_budget e b s ≡ pass a → IsCoherent a.store
  unfolding delete_budget invalidate_link_targets_cache_all require_user ensure given
  delete_budget-IsCoherent b h = empty-IsCoherent a.store (ground arith)

  pub remove_collaborator-IsCoherent :
      (b t : Option ℕ) → remove_collaborator e b t s ≡ pass a → IsCoherent a.store
  unfolding remove_collaborator invalidate_link_targets_cache_all require_user ensure given
  remove_collaborator-IsCoherent b t h = empty-IsCoherent a.store (ground arith)
