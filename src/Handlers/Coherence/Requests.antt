-- ===== src/Handlers/Coherence/Requests.antt =====
-- Requests and the cache of link targets.
use financentury_backend.Prelude.{ℕ, ◌≡◌, refl, Bool, true, false}
use financentury_backend.Handlers.Store.{Store}
use financentury_backend.Handlers.Replies.{Env, Answer, Checked, pass, refuse, finish}
use financentury_backend.Handlers.Requests.{
  Outside, Request, post_budget, view_budget, put_budget, remove_budget, post_category,
  put_category, remove_category, page_expenses, post_expense, put_expense, remove_expense,
  view_links, post_link, put_link, remove_link, post_invite, take_invite, remove_member, dispatch,
  handle,
}
use financentury_backend.Handlers.Coherence.{IsCoherent, Arrives}
use financentury_backend.Handlers.Coherence.Kept.{
  create_expense-IsCoherent, update_expense-IsCoherent, delete_expense-IsCoherent,
  create_category-IsCoherent, update_category-IsCoherent, list_expenses-IsCoherent,
  get_budget-IsCoherent, list_links-IsCoherent, create_invite-IsCoherent, create_budget-IsCoherent,
  update_budget-IsCoherent, accept_invite-IsCoherent, delete_budget-IsCoherent,
  remove_collaborator-IsCoherent,
}
use financentury_backend.Handlers.Coherence.Links.{
  create_link-IsCoherent, update_link-IsCoherent, delete_link-IsCoherent,
}

-- A request that deletes no category.
unfoldable pub keeps_categories : Request → Bool
keeps_categories (remove_category b k) = false
keeps_categories _ = true

module _ (o : Outside) (e : Env) (reads : (n : ℕ) → Arrives e n) (s : Store) (a : Answer)
    (i : IsCoherent s) where
  dispatch-IsCoherent :
      (r : Request) → keeps_categories r ≡ true → dispatch o e r s ≡ pass a → IsCoherent a.store
  unfolding dispatch keeps_categories
  dispatch-IsCoherent (remove_category b k) q h = cc
  dispatch-IsCoherent (post_budget body) q h = create_budget-IsCoherent e s o.unicode body h i
  dispatch-IsCoherent (view_budget b) q h = get_budget-IsCoherent e s b h i
  dispatch-IsCoherent (put_budget b body) q h = update_budget-IsCoherent e s o.unicode b body h i
  dispatch-IsCoherent (remove_budget b) q h = delete_budget-IsCoherent e s b h
  dispatch-IsCoherent (post_category b body) q h = create_category-IsCoherent e reads s b body h i
  dispatch-IsCoherent (put_category b k body) q h =
      update_category-IsCoherent e reads s b k body h i
  dispatch-IsCoherent (page_expenses b limit offset) q h =
      list_expenses-IsCoherent e s o b limit offset h i
  dispatch-IsCoherent (post_expense b body) q h =
      create_expense-IsCoherent e reads s o.calendar b body h i
  dispatch-IsCoherent (put_expense b x body) q h =
      update_expense-IsCoherent e reads s o.calendar b x body h i
  dispatch-IsCoherent (remove_expense b x) q h = delete_expense-IsCoherent e reads s b x h i
  dispatch-IsCoherent (view_links b) q h = list_links-IsCoherent e s b h i
  dispatch-IsCoherent (post_link b body) q h = create_link-IsCoherent e s b body h i
  dispatch-IsCoherent (put_link b l body) q h = update_link-IsCoherent e s b l body h i
  dispatch-IsCoherent (remove_link b l) q h = delete_link-IsCoherent e s b l h i
  dispatch-IsCoherent (post_invite b random) q h = create_invite-IsCoherent e s b random h i
  dispatch-IsCoherent (take_invite token) q h = accept_invite-IsCoherent e s token h i
  dispatch-IsCoherent (remove_member b t) q h = remove_collaborator-IsCoherent e s b t h

finish-IsCoherent :
    (s : Store) (m : Checked Answer)
    → ((a : Answer) → m ≡ pass a → IsCoherent a.store)
    → IsCoherent s
    → IsCoherent (finish s m).store
unfolding finish
finish-IsCoherent s (pass a) f i = f a refl
finish-IsCoherent s (refuse r) f i = i

-- None of these requests but the deletion of a category makes the cache of link targets wrong, where
-- the rows that its queries of targets give are all read without an error: if each of the entries
-- has the budgets that the table of links gives, so it is after the request.
pub handle-IsCoherent :
    (o : Outside) (e : Env) (r : Request) (s : Store)
    → keeps_categories r ≡ true
    → ((n : ℕ) → Arrives e n)
    → IsCoherent s
    → IsCoherent (handle o e r s).store
unfolding handle
handle-IsCoherent o e r s q reads i =
    finish-IsCoherent s (dispatch o e r s) (λ a h. dispatch-IsCoherent o e reads s a i r q h) i
