-- ===== src/Handlers/Limits/Once.antt =====
-- internal/handlers/invites.go: an invite is accepted once.
use financentury_backend.Prelude.{
  ℕ, ◌≤◌, ◌≡◌, ◌≢◌, refl, arith, Bool, true, false, Option, none, some, List, [], ◌∷◌, ◌==◌, Bytes,
}
use financentury_backend.Handlers.Store.{Store, Invite, exists, count, first, update}
use financentury_backend.Handlers.Replies.{
  Env, Answer, Checked, pass, refuse, ensure, given, require_user,
}
use financentury_backend.Handlers.Limits.Accepting.{no_token, no_invite}
use financentury_backend.Handlers.Members.{
  accept_invite, may_join, join, welcome, check_token, with_token, open_invite,
}

-- An invite's id is a primary key.
abbrev pub has_id : ℕ → Invite → Bool
has_id k row = row.id == k

module _ (k u : ℕ) where
  absent_open : (xs : List Invite) → count (has_id k) xs ≡ 0 → exists (open_invite k) xs ≡ false
  unfolding count exists
  absent_open [] h = refl
  absent_open (x ∷ xs) h = ground (arith, absent_open xs)

  closed_open :
      (xs : List Invite)
      → count (has_id k) xs ≤ 1
      → exists (open_invite k) xs ≡ true
      → exists (open_invite k) (update (open_invite k) (λ i. record i { used_by = some u }) xs)
        ≡ false
  unfolding count exists update
  closed_open [] h q = cc
  closed_open (x ∷ xs) h q = ground (arith, absent_open xs, closed_open xs)

  -- The row that a token finds keeps its id and its token.
  found_after :
      (p : Invite → Bool) (token : Bytes) (xs : List Invite) (i j : Invite)
      → first (with_token token) xs ≡ some i
      → first (with_token token) (update p (λ x. record x { used_by = some u }) xs) ≡ some j
      → i.id ≡ j.id
  unfolding first update
  found_after p token [] i j f g = cc
  found_after p token (x ∷ xs) i j f g = ground (arith, found_after p token xs i j)

module _ (e : Env) (s : Store) {a : Answer} where
  accept_invite-uses :
      (text : Bytes) (token : Bytes) (invite : Invite)
      → check_token text ≡ pass token
      → first (with_token token) s.invites ≡ some invite
      → accept_invite e text s ≡ pass a
      → (exists (open_invite invite.id) s.invites ≡ true)
        × (a.store.invites
            ≡ update (open_invite invite.id) (λ i. record i { used_by = some e.user }) s.invites)
  unfolding accept_invite may_join join welcome require_user ensure given
  accept_invite-uses text token invite c f h = ground arith

refused_closed :
    (e : Env) (s : Store) (text : Bytes) (token : Bytes) (invite : Invite) {b : Answer}
    → check_token text ≡ pass token
    → first (with_token token) s.invites ≡ some invite
    → exists (open_invite invite.id) s.invites ≡ false
    → accept_invite e text s ≢ pass b
unfolding accept_invite may_join join require_user ensure given
refused_closed e s text token invite c f x h = ground arith

module _ (e e' : Env) (s : Store) (text : Bytes) {a b : Answer}
    (keyed : (k : ℕ) → count (has_id k) s.invites ≤ 1) (h : accept_invite e text s ≡ pass a) where
  after_invite :
      (token : Bytes) (invite : Invite)
      → check_token text ≡ pass token
      → first (with_token token) s.invites ≡ some invite
      → (found : Option Invite) → first (with_token token) a.store.invites ≡ found
      → accept_invite e' text a.store ≢ pass b
  after_invite token invite c f none g = no_invite e' a.store text token c g
  after_invite token invite c f (some j) g =
      let (opened, q) = accept_invite-uses e s text token invite c f h in
      let same_id =
        found_after invite.id e.user (open_invite invite.id) token s.invites invite j f
          (rw q at g) in
      let shut = closed_open invite.id e.user s.invites (keyed invite.id) opened in
      refused_closed e' a.store text token j c g (rw (← same_id) (rw q shut))

  after_token :
      (token : Bytes)
      → check_token text ≡ pass token
      → (found : Option Invite) → first (with_token token) s.invites ≡ found
      → accept_invite e' text a.store ≢ pass b
  after_token token c none f = absurd (no_invite e s text token c f h)
  after_token token c (some invite) f =
      after_invite token invite c f (first (with_token token) a.store.invites) refl

  after_check :
      (found : Checked Bytes) → check_token text ≡ found → accept_invite e' text a.store ≢ pass b
  after_check (refuse r) c = absurd (no_token e s text c h)
  after_check (pass token) c = after_token token c (first (with_token token) s.invites) refl

  -- Where an id names one invite, an invite that was just accepted is not accepted again, by whoever and
  -- whenever.
  pub accept_invite-once : accept_invite e' text a.store ≢ pass b
  accept_invite-once = after_check (check_token text) refl
