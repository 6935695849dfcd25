-- ===== src/Auth.antt =====
-- internal/middleware/auth.go and the revocations of internal/handlers/sessions.go: the check of a
-- bearer token against a cache of sessions and the table user_sessions. Times are nanoseconds. The
-- check of a JWT, the parsing of a UUID and SHA-256 are parameters.
pub mod Sessions
pub mod Table
pub mod Revoked
pub mod Race
mod Tests
use financentury_backend.Prelude.{
  ℕ, ◌+◌, ◌-◌, ◌*◌, Bool, true, false, not, ◌&&◌, ◌||◌, Option, none, some, List, [], ◌∷◌, map,
  Bytes, bytes, bytes_discrete, ite, ltb, leb, take, if◌then◌else◌,
}
use financentury_backend.Prelude.Maps.{find, assign, delete}
use financentury_backend.Prelude.Text.{same, drop, index_byte}
use Sessions.{SessionRow, find_row, is_some}

-- `sessionCacheEntry`
pub record SessionCacheEntry : Type 0 where
  pub revoked_at : Option ℕ
  pub session_id : Bytes
  pub user_id : Bytes
  pub cached_at : ℕ

abbrev pub SessionCache : Type 0
SessionCache = List (Bytes × SessionCacheEntry)

-- Five minutes, and thirty.
abbrev pub session_cache_ttl : ℕ
session_cache_ttl = 300_000_000_000

abbrev pub session_cache_max_age : ℕ
session_cache_max_age = 1_800_000_000_000

-- `InvalidateSessionCache`
pub invalidate_session_cache : Bytes → SessionCache → SessionCache
invalidate_session_cache token_hash cache = delete bytes_discrete token_hash cache

-- `InvalidateUserSessionCache`
pub drop_user : Bytes → SessionCache → SessionCache
drop_user user [] = []
drop_user user ((h, e) ∷ cache) =
    let rest = drop_user user cache in if same e.user_id user then rest else (h, e) ∷ rest

pub invalidate_user_session_cache : Bytes → SessionCache → SessionCache
invalidate_user_session_cache user cache = ite (bytes_discrete user []) cache (drop_user user cache)

-- One round of `startSessionCacheEvictor`.
pub evict : ℕ → SessionCache → SessionCache
evict now [] = []
evict now ((h, e) ∷ cache) =
    let rest = evict now cache in
    if ltb session_cache_max_age (now - e.cached_at) then rest else (h, e) ∷ rest

-- The parts of the claims that are read, and what the middleware knows of the caller.
pub record Claims : Type 0 where
  pub user_id : Bytes
  pub email : Bytes

pub record Caller : Type 0 where
  pub user_id : Bytes
  pub email : Bytes
  pub token_hash : Bytes

-- The request goes on with the caller, or ends with 401 and a message.
pub data Verdict : Type 0 where
  allowed : Caller → Verdict
  unauthorized : Bytes → Verdict

abbrev lower : ℕ → ℕ
lower c = if leb b'A' c && leb c b'Z' then c + 32 else c

module _ (parse_token : Bytes → Option Claims) (parse_uuid : Bytes → Option Bytes)
    (sha256_hex : Bytes → Bytes) where
  pub check_token : Bytes → Verdict
  check_token token = elim (parse_token token) [
    | none ↦ unauthorized (bytes "invalid or expired token")
    | some claims ↦ elim (parse_uuid claims.user_id) [
      | none ↦ unauthorized (bytes "invalid user id in token")
      | some user ↦
          allowed (record { user_id = user; email = claims.email; token_hash = sha256_hex token })
    ]
  ]

  -- `Protected` up to the token's hash.
  pub identify : Bytes → Verdict
  identify auth_header =
      ite (bytes_discrete auth_header []) (unauthorized (bytes "missing authorization header"))
        (elim (index_byte auth_header b' ') [
          | none ↦ unauthorized (bytes "invalid authorization header format")
          | some n ↦
              if same (map lower (take n auth_header)) (bytes "bearer")
              then check_token (drop (n + 1) auth_header)
              else unauthorized (bytes "invalid authorization header format")
        ])

-- The look into the cache: `none` falls through to the database.
pub consult_entry : ℕ → Caller → SessionCacheEntry → Option Verdict
consult_entry now c e =
    if not (ltb (now - e.cached_at) session_cache_ttl)
    then none
    else if is_some e.revoked_at
    then some (unauthorized (bytes "session has been revoked"))
    else if not (same e.user_id []) && not (same e.user_id c.user_id)
    then some (unauthorized (bytes "session user mismatch"))
    else some (allowed c)

pub consult : ℕ → Caller → SessionCache → Option Verdict
consult now c cache = elim (find bytes_discrete c.token_hash cache) [
  | none ↦ none
  | some e ↦ consult_entry now c e
]

-- What follows the query, for a row and for none.
pub settle_row : ℕ → Caller → SessionRow → SessionCache → SessionCache × Verdict
settle_row now c row cache =
    if not (same row.user_id c.user_id)
    then (cache, unauthorized (bytes "session user mismatch"))
    else (let e : SessionCacheEntry = record {
      revoked_at = row.revoked_at;
      session_id = row.id;
      user_id = row.user_id;
      cached_at = now;
    } in
        (
          assign bytes_discrete c.token_hash e cache,
          if is_some row.revoked_at
              then unauthorized (bytes "session has been revoked")
              else allowed c,
        ))

pub settle : ℕ → Caller → Option SessionRow → SessionCache → SessionCache × Verdict
settle now c none cache = (cache, allowed c)
settle now c (some row) cache = settle_row now c row cache

-- The cache and the table.
pub record Server : Type 0 where
  pub cache : SessionCache
  pub rows : List SessionRow

-- What the query gives: no row also where it fails.
pub looked_up : Bool → Bytes → Server → Option SessionRow
looked_up false h s = none
looked_up true h s = find_row h s.rows

-- `Protected` for an identified caller, when nothing else runs in between. The flag says whether the
-- database answers the query; a caller is let through if it does not.
pub admit : Bool → ℕ → Caller → Server → Server × Verdict
admit answered now c s = elim (consult now c s.cache) [
  | some v ↦ (s, v)
  | none ↦
      let (cache, v) = settle now c (looked_up answered c.token_hash s) s.cache in
      (record s { cache = cache }, v)
]

-- `SignOut`: the update of the table, whose failure is only logged, then the cache.
pub sign_out_update : Bool → ℕ → Bytes → Server → Server
sign_out_update false now h s = s
sign_out_update true now h s = record s { rows = Sessions.revoke_hash now h s.rows }

pub sign_out : Bool → ℕ → Bytes → Server → Server
sign_out updated now h s = ite (bytes_discrete h []) s (
    let s' = sign_out_update updated now h s in
    record s' { cache = invalidate_session_cache h s'.cache })

-- `RevokeSession` for the caller's own other sessions. An update that fails is taken for one that
-- finds no row, and an EXISTS query that fails for one that says no.
pub data Revocation : Type 0 where
  no_content : Revocation
  cannot_revoke_current : Revocation
  not_found : Revocation

pub revoked_row : Bool → Bytes → Caller → Server → Option SessionRow
revoked_row false id c s = none
revoked_row true id c s = Sessions.find_revocable id c.user_id c.token_hash s.rows

pub revoke_session : Bool → Bool → ℕ → Bytes → Caller → Server → Server × Revocation
revoke_session updated answered now id c s = elim (revoked_row updated id c s) [
  | some row ↦ (
    record {
      rows = Sessions.revoke_id now id c.user_id c.token_hash s.rows;
      cache = invalidate_session_cache row.token_hash s.cache;
    },
    no_content,
  )
  | none ↦ (
    s,
    if answered && Sessions.is_current id c.user_id c.token_hash s.rows
        then cannot_revoke_current
        else not_found,
  )
]

-- `HashToken` is the SHA-256 of the token; `CreateSession` adds a row, and a failed insert is only
-- logged.
pub create_session : (Bytes → Bytes) → Bool → Bytes → Bytes → Bytes → Server → Server
create_session sha256_hex false id user token s = s
create_session sha256_hex true id user token s =
    let row : SessionRow = record {
      id = id;
      user_id = user;
      token_hash = sha256_hex token;
      revoked_at = none;
    } in
    record s { rows = row ∷ s.rows }
