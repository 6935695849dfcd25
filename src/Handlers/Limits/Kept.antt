-- ===== src/Handlers/Limits/Kept.antt =====
-- No request breaks a limit.
use financentury_backend.Prelude.{◌≡◌, refl}
use financentury_backend.Handlers.Store.{Store}
use financentury_backend.Handlers.Replies.{Env, Answer, Checked, pass, refuse, finish}
use financentury_backend.Handlers.Untouched.{
  create_expense-Untouched, update_expense-Untouched, delete_expense-Untouched,
  list_expenses-Untouched, get_budget-Untouched, list_links-Untouched, create_invite-Untouched,
  create_category-Untouched, update_category-Untouched,
}
use financentury_backend.Handlers.Requests.{
  Outside, Request, post_budget, view_budget, put_budget, remove_budget, post_category,
  put_category, remove_category, page_expenses, post_expense, put_expense, remove_expense,
  view_links, post_link, put_link, remove_link, post_invite, take_invite, remove_member, dispatch,
  handle,
}
use financentury_backend.Handlers.Limits.{IsOrderly}
use financentury_backend.Handlers.Limits.Linked.{
  Untouched-IsOrderly, create_link-IsOrderly, update_link-IsOrderly, delete_link-IsOrderly,
  delete_category-IsOrderly,
}
use financentury_backend.Handlers.Limits.Members.{
  create_budget-IsOrderly, update_budget-IsOrderly, delete_budget-IsOrderly,
}
use financentury_backend.Handlers.Limits.Leaving.{remove_collaborator-IsOrderly}
use financentury_backend.Handlers.Limits.Accepting.{accept_invite-IsOrderly}

module _ (o : Outside) (e : Env) (s : Store) (a : Answer) (i : IsOrderly s) where
  dispatch-IsOrderly : (r : Request) → dispatch o e r s ≡ pass a → IsOrderly a.store
  unfolding dispatch
  dispatch-IsOrderly (post_budget body) h = create_budget-IsOrderly e s o.unicode body h i
  dispatch-IsOrderly (put_budget b body) h = update_budget-IsOrderly e s o.unicode b body h i
  dispatch-IsOrderly (remove_budget b) h = delete_budget-IsOrderly e s b h i
  dispatch-IsOrderly (remove_category b k) h = delete_category-IsOrderly e s b k h i
  dispatch-IsOrderly (post_link b body) h = create_link-IsOrderly e s b body h i
  dispatch-IsOrderly (put_link b l body) h = update_link-IsOrderly e s b l body h i
  dispatch-IsOrderly (remove_link b l) h = delete_link-IsOrderly e s b l h i
  dispatch-IsOrderly (take_invite token) h = accept_invite-IsOrderly e s token h i
  dispatch-IsOrderly (remove_member b t) h = remove_collaborator-IsOrderly e s b t h i
  dispatch-IsOrderly (view_budget b) h = Untouched-IsOrderly s a (get_budget-Untouched e s b h) i
  dispatch-IsOrderly (post_category b body) h =
      Untouched-IsOrderly s a (create_category-Untouched e s b body h) i
  dispatch-IsOrderly (put_category b k body) h =
      Untouched-IsOrderly s a (update_category-Untouched e s b k body h) i
  dispatch-IsOrderly (page_expenses b limit offset) h =
      Untouched-IsOrderly s a (list_expenses-Untouched e s o b limit offset h) i
  dispatch-IsOrderly (post_expense b body) h =
      Untouched-IsOrderly s a (create_expense-Untouched e s o.calendar b body h) i
  dispatch-IsOrderly (put_expense b x body) h =
      Untouched-IsOrderly s a (update_expense-Untouched e s o.calendar b x body h) i
  dispatch-IsOrderly (remove_expense b x) h =
      Untouched-IsOrderly s a (delete_expense-Untouched e s b x h) i
  dispatch-IsOrderly (view_links b) h = Untouched-IsOrderly s a (list_links-Untouched e s b h) i
  dispatch-IsOrderly (post_invite b random) h =
      Untouched-IsOrderly s a (create_invite-Untouched e s b random h) i

finish-IsOrderly :
    (s : Store) (m : Checked Answer)
    → ((a : Answer) → m ≡ pass a → IsOrderly a.store)
    → IsOrderly s
    → IsOrderly (finish s m).store
unfolding finish
finish-IsOrderly s (pass a) f i = f a refl
finish-IsOrderly s (refuse r) f i = i

-- Whatever the request, whoever makes it and wherever the database fails, these hold after it if
-- they hold before: no link is of a budget to itself, no two links are the reverse of each other, no
-- budget takes more than ten links or a category twice, no budget has more than five collaborators,
-- and no user more than seven budgets, owned and joined.
pub handle-IsOrderly :
    (o : Outside) (e : Env) (r : Request) (s : Store)
    → IsOrderly s
    → IsOrderly (handle o e r s).store
unfolding handle
handle-IsOrderly o e r s i =
    finish-IsOrderly s (dispatch o e r s) (λ a h. dispatch-IsOrderly o e s a i r h) i
