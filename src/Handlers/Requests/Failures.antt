-- ===== src/Handlers/Requests/Failures.antt =====
-- internal/handlers: what a request that fails leaves behind.
use financentury_backend.Prelude.{
  ℕ, ◌≡◌, refl, arith, Bool, true, false, not, Option, none, some, [], Bytes, ◌⊎◌, inl, inr,
}
use financentury_backend.Handlers.Amounts.{Amount}
use financentury_backend.Handlers.Store.{Store}
use financentury_backend.Handlers.Replies.{
  Env, Answer, Reply, failure, json, encodes, Checked, pass, refuse, ensure, given, require_user,
  finish,
}
use financentury_backend.Handlers.Expenses.{
  create_expense, update_expense, delete_expense, CreateExpenseRequest, UpdateExpenseRequest, told,
}
use financentury_backend.Handlers.Pages.{list_expenses}
use financentury_backend.Handlers.Categories.{
  create_category, update_category, delete_category, update_by, update_fast, update_slow,
  store_patch, CreateCategoryRequest, UpdateCategoryRequest,
}
use financentury_backend.Handlers.Links.{
  CreateRequest, create_link, update_link, delete_link, list_links, created,
}
use financentury_backend.Handlers.Budgets.{get_budget}
use financentury_backend.Handlers.BudgetChanges.{UpdateBudgetRequest, update_budget, delete_budget}
use financentury_backend.Handlers.Members.{create_invite, remove_collaborator}
use financentury_backend.Handlers.Requests.{
  Outside, Request, post_budget, view_budget, put_budget, remove_budget, post_category,
  put_category, remove_category, page_expenses, post_expense, put_expense, remove_expense,
  view_links, post_link, put_link, remove_link, post_invite, take_invite, remove_member, dispatch,
  handle,
}
use financentury_backend.Handlers.Requests.Closed.{is_failure}

-- The code passes its last check only to answer by `c.JSON`.
abbrev ends_well : Checked Answer → Bool
ends_well (pass a) = not (is_failure a.reply)
ends_well (refuse r) = true

module _ (e : Env) (s : Store) where
  get_budget_ends : (b : Option ℕ) → ends_well (get_budget e b s) ≡ true
  unfolding get_budget is_failure require_user given ensure
  get_budget_ends b = ground arith

  list_expenses_ends :
      (o : Outside) (b : Option ℕ) (limit offset : Bytes)
      → ends_well (list_expenses o.atoi o.calendar e b limit offset s) ≡ true
  unfolding list_expenses is_failure require_user given ensure
  list_expenses_ends o b limit offset = ground arith

  create_expense_ends :
      (o : Outside) (b : Option ℕ) (body : Option CreateExpenseRequest)
      → ends_well (create_expense o.calendar e b body s) ≡ true
  unfolding create_expense told is_failure require_user given ensure
  create_expense_ends o b body = ground arith

  update_expense_ends :
      (o : Outside) (b x : Option ℕ) (body : Option UpdateExpenseRequest)
      → ends_well (update_expense o.calendar e b x body s) ≡ true
  unfolding update_expense told is_failure require_user given ensure
  update_expense_ends o b x body = ground arith

  delete_expense_ends : (b x : Option ℕ) → ends_well (delete_expense e b x s) ≡ true
  unfolding delete_expense told is_failure require_user given ensure
  delete_expense_ends b x = ground arith

  list_links_ends : (b : Option ℕ) → ends_well (list_links e b s) ≡ true
  unfolding list_links is_failure require_user given ensure
  list_links_ends b = ground arith

  create_link_ends :
      (b : Option ℕ) (body : Option CreateRequest) → ends_well (create_link e b body s) ≡ true
  unfolding create_link created is_failure require_user given ensure
  create_link_ends b body = ground arith

  update_link_ends :
      (b l : Option ℕ) (body : Option Bytes) → ends_well (update_link e b l body s) ≡ true
  unfolding update_link is_failure require_user given ensure
  update_link_ends b l body = ground arith

  delete_link_ends : (b l : Option ℕ) → ends_well (delete_link e b l s) ≡ true
  unfolding delete_link is_failure require_user given ensure
  delete_link_ends b l = ground arith

  update_budget_ends :
      (o : Outside) (b : Option ℕ) (body : Option UpdateBudgetRequest)
      → ends_well (update_budget o.unicode e b body s) ≡ true
  unfolding update_budget is_failure require_user given ensure
  update_budget_ends o b body = ground arith

  delete_budget_ends : (b : Option ℕ) → ends_well (delete_budget e b s) ≡ true
  unfolding delete_budget is_failure require_user given ensure
  delete_budget_ends b = ground arith

  create_category_ends :
      (b : Option ℕ) (body : Option CreateCategoryRequest)
      → ends_well (create_category e b body s) ≡ true
  unfolding create_category told is_failure require_user given ensure
  create_category_ends b body = ground arith

  update_by_ends :
      (b k : ℕ) (value : Option Amount) (req : UpdateCategoryRequest)
      → ends_well (update_by e e.user b k value req s) ≡ true
  unfolding update_by update_fast update_slow store_patch told is_failure given ensure
  update_by_ends b k none req = ground arith
  update_by_ends b k (some value) req = ground arith

  update_category_ends :
      (b k : Option ℕ) (body : Option UpdateCategoryRequest)
      → ends_well (update_category e b k body s) ≡ true
  unfolding update_category is_failure require_user given ensure
  update_category_ends none k body = ground arith
  update_category_ends (some b) none body = ground arith
  update_category_ends (some b) (some k) none = ground arith
  update_category_ends (some b) (some k) (some req) =
      ground (arith, update_by_ends b k req.allocation_value req)

  delete_category_ends : (b k : Option ℕ) → ends_well (delete_category e b k s) ≡ true
  unfolding delete_category told is_failure require_user given ensure
  delete_category_ends b k = ground arith

  create_invite_ends :
      (b : Option ℕ) (random : Option Bytes) → ends_well (create_invite e b random s) ≡ true
  unfolding create_invite is_failure require_user given ensure
  create_invite_ends b random = ground arith

  remove_collaborator_ends : (b t : Option ℕ) → ends_well (remove_collaborator e b t s) ≡ true
  unfolding remove_collaborator is_failure require_user given ensure
  remove_collaborator_ends b t = ground arith

-- The requests whose writes are one statement or one transaction, which ends them.
unfoldable pub is_atomic : Request → Bool
is_atomic (post_budget body) = false
is_atomic (take_invite token) = false
is_atomic _ = true

dispatch_ends :
    (o : Outside) (e : Env) (r : Request) (s : Store)
    → is_atomic r ≡ true
    → ends_well (dispatch o e r s) ≡ true
unfolding dispatch is_atomic
dispatch_ends o e (post_budget body) s h = cc
dispatch_ends o e (take_invite token) s h = cc
dispatch_ends o e (view_budget b) s h = get_budget_ends e s b
dispatch_ends o e (page_expenses b limit offset) s h = list_expenses_ends e s o b limit offset
dispatch_ends o e (post_expense b body) s h = create_expense_ends e s o b body
dispatch_ends o e (put_expense b x body) s h = update_expense_ends e s o b x body
dispatch_ends o e (remove_expense b x) s h = delete_expense_ends e s b x
dispatch_ends o e (view_links b) s h = list_links_ends e s b
dispatch_ends o e (post_link b body) s h = create_link_ends e s b body
dispatch_ends o e (put_link b l body) s h = update_link_ends e s b l body
dispatch_ends o e (remove_link b l) s h = delete_link_ends e s b l
dispatch_ends o e (put_budget b body) s h = update_budget_ends e s o b body
dispatch_ends o e (remove_budget b) s h = delete_budget_ends e s b
dispatch_ends o e (post_category b body) s h = create_category_ends e s b body
dispatch_ends o e (put_category b k body) s h = update_category_ends e s b k body
dispatch_ends o e (remove_category b k) s h = delete_category_ends e s b k
dispatch_ends o e (post_invite b random) s h = create_invite_ends e s b random
dispatch_ends o e (remove_member b t) s h = remove_collaborator_ends e s b t

finish-failure :
    (s : Store) (m : Checked Answer)
    → ends_well m ≡ true
    → is_failure (finish s m).reply ≡ true
    → ((finish s m).store ≡ s) × ((finish s m).effects ≡ [])
unfolding finish
finish-failure s (pass a) h f = ground arith
finish-failure s (refuse r) h f = (refl, refl)

-- The client gets an error: an error reply, or the 500 of a body that cannot be encoded.
unfoldable pub is_error : Reply → Bool
is_error (failure status message) = true
is_error (json status body) = not (encodes body)

-- What was to be answered cannot be encoded.
unfoldable pub is_unencoded : Reply → Bool
is_unencoded (failure status message) = false
is_unencoded (json status body) = not (encodes body)

error-cases : (r : Reply) → is_error r ≡ true → (is_failure r ≡ true) ⊎ (is_unencoded r ≡ true)
unfolding is_error is_unencoded is_failure
error-cases (failure status message) h = inl refl
error-cases (json status body) h = inr h

-- A request other than the creation of a budget and the acceptance of an invite that answers with an
-- error, wherever the database failed, changes nothing and tells nobody, unless the error is that of
-- `c.JSON`: the row to be answered has an amount that is NaN or infinite.
pub handle-failure :
    (o : Outside) (e : Env) (r : Request) (s : Store)
    → is_atomic r ≡ true
    → is_error (handle o e r s).reply ≡ true
    → ((handle o e r s).store ≡ s) × ((handle o e r s).effects ≡ [])
      ⊎ (is_unencoded (handle o e r s).reply ≡ true)
unfolding handle
handle-failure o e r s h f = elim (error-cases (handle o e r s).reply f) [
  | inl early ↦ inl (finish-failure s (dispatch o e r s) (dispatch_ends o e r s h) early)
  | inr unencoded ↦ inr unencoded
]
