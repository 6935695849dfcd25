-- ===== src/Handlers/Members.antt =====
-- internal/handlers/invites.go and internal/handlers/collaborators.go: invites, their acceptance, and
-- the removal of a collaborator. A random token is what `crypto/rand` gives, or `none`.
use financentury_backend.Prelude.{
  ℕ, ◌+◌, Bool, true, false, ◌&&◌, not, Option, none, some, [], ◌∷◌, ◌++◌, Bytes, ◌==◌, ltb, leb,
  length, if◌then◌else◌,
}
use financentury_backend.Prelude.Text.{same, trim_space}
use financentury_backend.Handlers.Store.{
  Store, Collaborator, Invite, exists, count, first, update, delete_first, joined, owns,
}
use financentury_backend.Handlers.Replies.{
  Env, Answer, Checked, pass, ◌>>=◌, ◌>>◌, ensure, given, require_user, bad_request, not_found,
  forbidden, internal, json, Reply, the_budget, the_token, empty, invalidate, send, drop_list,
  drop_linkable_of_user, drop_linkable_of_budget, drop_invite_info, collab_added, collab_removed,
}
use financentury_backend.Handlers.Expenses.{is_empty}
use financentury_backend.Handlers.Targets.{invalidate_link_targets_cache_all}
use financentury_backend.Handlers.Budgets.{budget_total, max_budgets_per_user}
use financentury_backend.Handlers.BudgetChanges.{drop_links_of}

abbrev pub max_invite_token_length : ℕ
max_invite_token_length = 128

-- `inviteExpiry`, in seconds.
abbrev pub invite_expiry : ℕ
invite_expiry = 604800

abbrev pub max_collaborators_per_budget : ℕ
max_collaborators_per_budget = 5

abbrev pub in_budget : ℕ → Collaborator → Bool
in_budget b row = row.budget_id == b

-- `countBudgetCollaborators`, the query.
unfoldable pub count_budget_collaborators : ℕ → Store → ℕ
unfolding count
count_budget_collaborators b s = count (in_budget b) s.collaborators

-- `CreateInvite`
unfoldable pub create_invite : Env → Option ℕ → Option Bytes → Store → Checked Answer
unfolding require_user given ensure owns count_budget_collaborators
create_invite e budget random s = do
  u ← require_user e
  b ← given budget (bad_request "invalid budget ID")
  ensure (e.answers 0 && owns b u s) (not_found "budget not found")
  ensure (e.answers 1) (internal "failed to check collaborator count")
  ensure (ltb (count_budget_collaborators b s) max_collaborators_per_budget)
      (bad_request "collaborator limit reached (max 5)")
  token ← given random (internal "failed to generate invite token")
  ensure (e.answers 2) (internal "failed to create invite")
  let row : Invite = record {
    id = e.fresh;
    budget_id = b;
    invite_token = token;
    created_by = u;
    used_by = none;
    expires_at = e.now + invite_expiry;
  }
  pass (record {
    store = record s { invites = row ∷ s.invites };
    effects = [];
    reply = json 201 (the_token token);
  })

-- The path's token, trimmed.
unfoldable pub check_token : Bytes → Checked Bytes
unfolding trim_space ensure
check_token text = do
  let token = trim_space text
  ensure (not (is_empty token)) (bad_request "invite token is required")
  ensure (leb (length token) max_invite_token_length) (bad_request "invalid invite token")
  pass token

abbrev pub with_token : Bytes → Invite → Bool
with_token token row = same row.invite_token token

-- `WHERE id = $2 AND used_by IS NULL`
abbrev pub is_unused : Invite → Bool
is_unused row = elim row.used_by [ none ↦ true | some u ↦ false ]

abbrev pub open_invite : ℕ → Invite → Bool
open_invite k row = row.id == k && is_unused row

-- The checks of AcceptInvite before its transaction.
unfoldable pub may_join : Env → ℕ → Invite → Store → Checked (Unit {0})
unfolding ensure owns exists budget_total
may_join e u invite s = do
  ensure (leb e.now invite.expires_at) (bad_request "invite has expired")
  ensure (e.answers 1) (internal "failed to validate invite")
  ensure (not (owns invite.budget_id u s)) (bad_request "you are already the owner of this budget")
  ensure (not (exists (joined invite.budget_id u) s.collaborators))
      (bad_request "you are already a collaborator on this budget")
  ensure (ltb (budget_total u s) max_budgets_per_user) (bad_request "budget limit reached (max 7)")

-- The transaction: the invite is used up and the collaborator added, or neither.
unfoldable pub join : Env → ℕ → Invite → Store → Checked Store
unfolding ensure exists update count_budget_collaborators
join e u invite s = do
  ensure (e.answers 2) (internal "failed to start transaction")
  ensure (e.answers 3 && exists (open_invite invite.id) s.invites)
      (bad_request "invite has already been used")
  ensure (e.answers 4) (internal "failed to add collaborator")
  ensure (ltb (count_budget_collaborators invite.budget_id s) max_collaborators_per_budget)
      (bad_request "collaborator limit reached (max 5)")
  ensure (e.answers 5) (internal "failed to commit invite acceptance")
  let row : Collaborator = record { budget_id = invite.budget_id; user_id = u }
  pass (record s {
    invites = update (open_invite invite.id) (λ i. record i { used_by = some u }) s.invites;
    collaborators = row ∷ s.collaborators;
  })

-- What follows the commit. The budget is read once more for the answer; without it nobody is told.
unfoldable pub welcome : Env → ℕ → Bytes → ℕ → Store → Answer
unfolding first
welcome e u token b s =
    let purged =
      invalidate b
      ∷ drop_invite_info token
      ∷ drop_list u
      ∷ drop_linkable_of_user u
      ∷ drop_linkable_of_budget b
      ∷ [] in
    elim (if e.answers 6 then first (λ r. r.id == b) s.budgets else none) [
      | none ↦ record { store = s; effects = purged; reply = not_found "budget not found" }
      | some row ↦ record {
        store = s;
        effects = purged ++ (send b collab_added ∷ []);
        reply = json 200 (the_budget row);
      }
    ]

-- `AcceptInvite`
unfoldable pub accept_invite : Env → Bytes → Store → Checked Answer
unfolding require_user given ensure check_token first may_join join welcome
accept_invite e text s = do
  u ← require_user e
  token ← check_token text
  ensure (e.answers 0) (internal "failed to fetch invite")
  invite ← given (first (with_token token) s.invites) (not_found "invite not found")
  may_join e u invite s
  s' ← join e u invite s
  pass (welcome e u token invite.budget_id s')

-- The reply where the DELETE found no row: who owns the budget is asked again.
unfoldable pub no_collaborator : Env → ℕ → ℕ → Store → Reply
unfolding owns
no_collaborator e b u s =
    if e.answers 1 && owns b u s
    then not_found "collaborator not found"
    else forbidden "only the budget owner can remove collaborators"

-- `RemoveCollaborator`. A clean-up of links that fails is only logged.
unfoldable pub remove_collaborator : Env → Option ℕ → Option ℕ → Store → Checked Answer
unfolding require_user given ensure owns exists delete_first no_collaborator drop_links_of
    invalidate_link_targets_cache_all
remove_collaborator e budget target s = do
  u ← require_user e
  b ← given budget (bad_request "invalid budget ID")
  t ← given target (bad_request "invalid user ID")
  ensure (not (t == u)) (bad_request "cannot remove yourself as the budget owner")
  ensure (e.answers 0 && exists (joined b t) s.collaborators && owns b u s)
      (no_collaborator e b u s)
  let s' = record s { collaborators = delete_first (joined b t) s.collaborators }
  pass (record {
    store = invalidate_link_targets_cache_all (if e.answers 2 then drop_links_of t b s' else s');
    effects =
        invalidate b
        ∷ drop_list t
        ∷ drop_linkable_of_user t
        ∷ drop_linkable_of_budget b
        ∷ send b collab_removed
        ∷ [];
    reply = json 204 empty;
  })
