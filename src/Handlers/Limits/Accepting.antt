-- ===== src/Handlers/Limits/Accepting.antt =====
-- AcceptInvite keeps the limits.
use financentury_backend.Prelude.{ℕ, ◌<◌, ◌≡◌, ◌≢◌, refl, arith, Option, none, some, ◌∷◌, Bytes}
use financentury_backend.Handlers.Store.{Store, Invite, count, first}
use financentury_backend.Handlers.Replies.{
  Env, Answer, Reply, Checked, pass, refuse, ensure, given, require_user,
}
use financentury_backend.Handlers.Budgets.{budget_total}
use financentury_backend.Handlers.Members.{
  accept_invite, may_join, join, welcome, check_token, with_token, count_budget_collaborators,
}
use financentury_backend.Handlers.Limits.{IsOrderly}

-- One more collaborator where there is room.
joined-IsOrderly :
    (s s' : Store) (b u : ℕ)
    → s'.links ≡ s.links
    → s'.budgets ≡ s.budgets
    → s'.collaborators ≡ record { budget_id = b; user_id = u } ∷ s.collaborators
    → budget_total u s < 7
    → count_budget_collaborators b s < 5
    → IsOrderly s
    → IsOrderly s'
unfolding count_budget_collaborators budget_total count
joined-IsOrderly s s' b u l r c room few i = record {
  tidy = rw l i.tidy;
  shared = λ x. rw c (grind (arith, i.shared x));
  limited = λ x. rw r (rw c (grind (arith, i.limited x)));
}

module _ (e : Env) (s : Store) {a : Answer} where
  pub accept_invite-eq-pass :
      (text : Bytes) (token : Bytes) (invite : Invite)
      → check_token text ≡ pass token
      → first (with_token token) s.invites ≡ some invite
      → accept_invite e text s ≡ pass a
      → (budget_total e.user s < 7)
        × (count_budget_collaborators invite.budget_id s < 5)
        × (a.store.links ≡ s.links)
        × (a.store.budgets ≡ s.budgets)
        × (a.store.collaborators
            ≡ record { budget_id = invite.budget_id; user_id = e.user } ∷ s.collaborators)
  unfolding accept_invite may_join join welcome require_user ensure given
  accept_invite-eq-pass text token invite c f h = ground arith

module _ (e : Env) (s : Store) {a : Answer} (text : Bytes) where
  pub no_token : {r : Reply} → check_token text ≡ refuse r → accept_invite e text s ≢ pass a
  unfolding accept_invite require_user ensure given
  no_token q h = ground arith

  pub no_invite :
      (token : Bytes)
      → check_token text ≡ pass token
      → first (with_token token) s.invites ≡ none
      → accept_invite e text s ≢ pass a
  unfolding accept_invite require_user ensure given
  no_invite token q f h = ground arith

  of_invite :
      (token : Bytes)
      → check_token text ≡ pass token
      → (found : Option Invite) → first (with_token token) s.invites ≡ found
      → accept_invite e text s ≡ pass a
      → IsOrderly s
      → IsOrderly a.store
  of_invite token q none f h i = absurd (no_invite token q f h)
  of_invite token q (some invite) f h i =
      let (room, few, l, b, c) = accept_invite-eq-pass e s text token invite q f h in
      joined-IsOrderly s a.store invite.budget_id e.user l b c room few i

  of_token :
      (found : Checked Bytes)
      → check_token text ≡ found
      → accept_invite e text s ≡ pass a
      → IsOrderly s
      → IsOrderly a.store
  of_token (refuse r) q h i = absurd (no_token q h)
  of_token (pass token) q h i = of_invite token q (first (with_token token) s.invites) refl h i

  pub accept_invite-IsOrderly : accept_invite e text s ≡ pass a → IsOrderly s → IsOrderly a.store
  accept_invite-IsOrderly h i = of_token (check_token text) refl h i
