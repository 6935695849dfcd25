-- ===== src/Auth/Table.antt =====
-- What the updates of user_sessions in internal/handlers/sessions.go change for a token.
use financentury_backend.Prelude.{
  ℕ, ◌≡◌, ◌≢◌, refl, sym, subst, ◌∙◌, inl, inr, Bool-cases, true, none, some, List, [], ◌∷◌, Bytes,
  bytes_discrete, arith,
}
use financentury_backend.Auth.Sessions.{
  SessionRow, find_row, revoke_hash, revoke_id, find_revocable, is_revocable, owner, is_revoked,
}

pub owner-revoke_hash :
    (now : ℕ) (k h : Bytes) (rows : List SessionRow)
    → owner h (revoke_hash now k rows) ≡ owner h rows
unfolding owner revoke_hash find_row
owner-revoke_hash now k h [] = refl
owner-revoke_hash now k h (r ∷ rows) = ground (arith, owner-revoke_hash now k h rows)

pub is_revoked-revoke_hash :
    (now : ℕ) (k h : Bytes) (rows : List SessionRow)
    → k ≢ h
    → is_revoked h (revoke_hash now k rows) ≡ is_revoked h rows
unfolding is_revoked revoke_hash find_row
is_revoked-revoke_hash now k h [] n = refl
is_revoked-revoke_hash now k h (r ∷ rows) n = ground (arith, is_revoked-revoke_hash now k h rows n)

pub is_revoked-revoke_hash_self :
    (now : ℕ) (h : Bytes) (rows : List SessionRow)
    → owner h rows ≢ none
    → is_revoked h (revoke_hash now h rows) ≡ true
unfolding is_revoked revoke_hash find_row owner
is_revoked-revoke_hash_self now h [] n = absurd (n refl)
is_revoked-revoke_hash_self now h (r ∷ rows) n =
    ground (arith, is_revoked-revoke_hash_self now h rows)

pub owner-revoke_id :
    (now : ℕ) (id user current h : Bytes) (rows : List SessionRow)
    → owner h (revoke_id now id user current rows) ≡ owner h rows
unfolding owner revoke_id find_row
owner-revoke_id now id user current h [] = refl
owner-revoke_id now id user current h (r ∷ rows) =
    elim (Bool-cases (is_revocable id user current r)) [
      | inl hit ↦ rw hit (ground arith)
      | inr miss ↦ rw miss (ground (arith, owner-revoke_id now id user current h rows))
    ]

pub is_revoked-revoke_id :
    (now : ℕ) (id user current h : Bytes) (rows : List SessionRow) {row : SessionRow}
    → find_revocable id user current rows ≡ some row
    → row.token_hash ≢ h
    → is_revoked h (revoke_id now id user current rows) ≡ is_revoked h rows
unfolding is_revoked revoke_id find_row find_revocable
is_revoked-revoke_id now id user current h [] e n = refl
is_revoked-revoke_id now id user current h (r ∷ rows) {row} e n =
    elim (Bool-cases (is_revocable id user current r)) [
      | inl hit ↦ rw hit (ground arith)
      | inr miss ↦ rw miss (
          ground
            (arith, is_revoked-revoke_id now id user current h rows {row = row} (ground arith) n))
    ]

-- A revoked session stays revoked.
pub revoke_id_mono :
    (now : ℕ) (id user current h : Bytes) (rows : List SessionRow)
    → is_revoked h rows ≡ true
    → is_revoked h (revoke_id now id user current rows) ≡ true
unfolding is_revoked revoke_id find_row
revoke_id_mono now id user current h [] e = cc
revoke_id_mono now id user current h (r ∷ rows) e =
    elim (Bool-cases (is_revocable id user current r)) [
      | inl hit ↦ rw hit (ground arith)
      | inr miss ↦ rw miss (ground (arith, revoke_id_mono now id user current h rows))
    ]

pub owner-revoked :
    (h : Bytes) (rows : List SessionRow) → is_revoked h rows ≡ true → owner h rows ≢ none
unfolding is_revoked owner
owner-revoked h rows e n = ground arith

pub revoke_hash_mono :
    (now : ℕ) (k h : Bytes) (rows : List SessionRow)
    → is_revoked h rows ≡ true
    → is_revoked h (revoke_hash now k rows) ≡ true
revoke_hash_mono now k h rows e = elim (bytes_discrete k h) [
  | yes p ↦
      subst (λ x. is_revoked h (revoke_hash now x rows) ≡ true) (sym p)
        (is_revoked-revoke_hash_self now h rows (owner-revoked h rows e))
  | no n ↦ is_revoked-revoke_hash now k h rows n ∙ e
]

-- A new session's hash is new.
pub sign_in-kept :
    (row : SessionRow) (h : Bytes) (rows : List SessionRow)
    → owner row.token_hash rows ≡ none
    → owner h rows ≢ none
    → (owner h (row ∷ rows) ≡ owner h rows) × (is_revoked h (row ∷ rows) ≡ is_revoked h rows)
unfolding owner is_revoked find_row
sign_in-kept row h rows e n = elim (bytes_discrete row.token_hash h) [
  | yes p ↦ absurd (n (subst (λ x. owner x rows ≡ none) p e))
  | no q ↦ (ground arith, ground arith)
]
