-- ===== src/Auth/Sessions.antt =====
-- The table user_sessions as the queries of internal/middleware/auth.go and
-- internal/handlers/sessions.go read and change it: a list of rows.
use financentury_backend.Prelude.{
  ℕ, Bool, true, false, not, ◌&&◌, ◌||◌, Option, none, some, List, [], ◌∷◌, Bytes, if◌then◌else◌,
}
use financentury_backend.Prelude.Text.{same}

pub record SessionRow : Type 0 where
  pub id : Bytes
  pub user_id : Bytes
  pub token_hash : Bytes
  pub revoked_at : Option ℕ

abbrev pub is_some : Option ℕ → Bool
is_some none = false
is_some (some t) = true

-- `WHERE token_hash = $1`, which finds one row at most: a token's hash is its own.
unfoldable pub find_row : Bytes → List SessionRow → Option SessionRow
find_row h [] = none
find_row h (r ∷ rows) = let rest = find_row h rows in if same r.token_hash h then some r else rest

-- `UPDATE user_sessions SET revoked_at = NOW() WHERE token_hash = $1`
unfoldable pub revoke_hash : ℕ → Bytes → List SessionRow → List SessionRow
revoke_hash now h [] = []
revoke_hash now h (r ∷ rows) =
    let rest = revoke_hash now h rows in
    (if same r.token_hash h then record r { revoked_at = some now } else r) ∷ rest

-- The WHERE clause of the update in `RevokeSession`.
abbrev pub is_revocable : Bytes → Bytes → Bytes → SessionRow → Bool
is_revocable id user current r =
    same r.id id
    && same r.user_id user
    && not (is_some r.revoked_at)
    && not (same r.token_hash current)

-- The update of `RevokeSession`; the id is the table's key, so it changes one row at most.
unfoldable pub revoke_id : ℕ → Bytes → Bytes → Bytes → List SessionRow → List SessionRow
revoke_id now id user current [] = []
revoke_id now id user current (r ∷ rows) =
    let rest = revoke_id now id user current rows in
    if is_revocable id user current r then record r { revoked_at = some now } ∷ rows else r ∷ rest

-- `RETURNING token_hash`: the row that the update changed.
unfoldable pub find_revocable : Bytes → Bytes → Bytes → List SessionRow → Option SessionRow
find_revocable id user current [] = none
find_revocable id user current (r ∷ rows) =
    let rest = find_revocable id user current rows in
    if is_revocable id user current r then some r else rest

-- The EXISTS query of `RevokeSession`.
unfoldable pub is_current : Bytes → Bytes → Bytes → List SessionRow → Bool
is_current id user current [] = false
is_current id user current (r ∷ rows) =
    same r.id id && same r.user_id user && same r.token_hash current
    || is_current id user current rows

-- The user of a token's session, and whether it is revoked.
unfoldable pub owner : Bytes → List SessionRow → Option Bytes
unfolding find_row
owner h rows = elim (find_row h rows) [ none ↦ none | some r ↦ some r.user_id ]

unfoldable pub is_revoked : Bytes → List SessionRow → Bool
unfolding find_row
is_revoked h rows = elim (find_row h rows) [ none ↦ false | some r ↦ is_some r.revoked_at ]
