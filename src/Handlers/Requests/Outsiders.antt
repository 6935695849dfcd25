-- ===== src/Handlers/Requests/Outsiders.antt =====
-- internal/handlers: who is turned away.
use financentury_backend.Prelude.{ℕ, ◌≡◌, refl, true, false, some, [], ◌⊎◌, inl, inr}
use financentury_backend.Handlers.Store.{Store, owns, has_access}
use financentury_backend.Handlers.Replies.{Env, Answer, Checked, pass, refuse, finish}
use financentury_backend.Handlers.Requests.{
  Outside, Request, post_budget, view_budget, put_budget, remove_budget, post_category,
  put_category, remove_category, page_expenses, post_expense, put_expense, remove_expense,
  view_links, post_link, put_link, remove_link, post_invite, take_invite, remove_member, dispatch,
  handle, budget_of, needs_owner,
}
use financentury_backend.Handlers.Requests.Closed.{
  get_budget_closed, list_expenses_closed, create_expense_closed, update_expense_closed,
  delete_expense_closed, list_links_closed, create_link_closed, update_link_closed,
  delete_link_closed, update_budget_closed, delete_budget_closed, create_category_closed,
  update_category_closed, delete_category_closed, create_invite_closed, remove_collaborator_closed,
  is_refused, is_failure, owns-stranger,
}

module _ (o : Outside) (e : Env) (b : ℕ) (s : Store) where
  owner_only :
      (r : Request)
      → needs_owner r ≡ true
      → budget_of r ≡ some b
      → owns b e.user s ≡ false
      → is_refused (dispatch o e r s) ≡ true
  unfolding dispatch budget_of needs_owner
  owner_only (put_budget c body) n q h = rw q (update_budget_closed e b s h o body)
  owner_only (remove_budget c) n q h = rw q (delete_budget_closed e b s h)
  owner_only (post_category c body) n q h = rw q (create_category_closed e b s h body)
  owner_only (put_category c k body) n q h = rw q (update_category_closed e b s h k body)
  owner_only (remove_category c k) n q h = rw q (delete_category_closed e b s h k)
  owner_only (post_invite c random) n q h = rw q (create_invite_closed e b s h random)
  owner_only (remove_member c t) n q h = rw q (remove_collaborator_closed e b s h t)
  owner_only _ n q h = cc

  members_only :
      (r : Request)
      → budget_of r ≡ some b
      → has_access b e.user s ≡ false
      → is_refused (dispatch o e r s) ≡ true
  unfolding dispatch budget_of
  members_only (post_budget body) q h = cc
  members_only (take_invite token) q h = cc
  members_only (view_budget c) q h = rw q (get_budget_closed e b s h)
  members_only (page_expenses c limit offset) q h =
      rw q (list_expenses_closed e b s h o limit offset)
  members_only (post_expense c body) q h = rw q (create_expense_closed e b s h o body)
  members_only (put_expense c x body) q h = rw q (update_expense_closed e b s h o x body)
  members_only (remove_expense c x) q h = rw q (delete_expense_closed e b s h x)
  members_only (view_links c) q h = rw q (list_links_closed e b s h)
  members_only (post_link c body) q h = rw q (create_link_closed e b s h body)
  members_only (put_link c l body) q h = rw q (update_link_closed e b s h l body)
  members_only (remove_link c l) q h = rw q (delete_link_closed e b s h l)
  members_only (put_budget c body) q h =
      rw q (update_budget_closed e b s (owns-stranger b e.user s h) o body)
  members_only (remove_budget c) q h =
      rw q (delete_budget_closed e b s (owns-stranger b e.user s h))
  members_only (post_category c body) q h =
      rw q (create_category_closed e b s (owns-stranger b e.user s h) body)
  members_only (put_category c k body) q h =
      rw q (update_category_closed e b s (owns-stranger b e.user s h) k body)
  members_only (remove_category c k) q h =
      rw q (delete_category_closed e b s (owns-stranger b e.user s h) k)
  members_only (post_invite c random) q h =
      rw q (create_invite_closed e b s (owns-stranger b e.user s h) random)
  members_only (remove_member c t) q h =
      rw q (remove_collaborator_closed e b s (owns-stranger b e.user s h) t)

-- What a refused request leaves.
finish-refused :
    (s : Store) (m : Checked Answer)
    → is_refused m ≡ true
    → ((finish s m).store ≡ s)
      × ((finish s m).effects ≡ [])
      × (is_failure (finish s m).reply ≡ true)
unfolding finish is_refused
finish-refused s (pass a) h = cc
finish-refused s (refuse r) h = (refl, refl, h)

module _ (o : Outside) (e : Env) (r : Request) (b : ℕ) (s : Store)
    (named : budget_of r ≡ some b) where
  -- A request on a budget by a caller who neither owns nor has joined it, or by one who does not
  -- own it where the request is the owner's (changing or deleting the budget, its categories,
  -- invites and collaborators), is answered with an error, changes nothing and tells nobody.
  pub handle-closed :
      (has_access b e.user s ≡ false) ⊎ ((needs_owner r ≡ true) × (owns b e.user s ≡ false))
      → ((handle o e r s).store ≡ s)
        × ((handle o e r s).effects ≡ [])
        × (is_failure (handle o e r s).reply ≡ true)
  unfolding handle
  handle-closed (inl h) = finish-refused s (dispatch o e r s) (members_only o e b s r named h)
  handle-closed (inr (n, h)) = finish-refused s (dispatch o e r s) (owner_only o e b s r n named h)
