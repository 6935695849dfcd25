-- ===== src/Auth/Race.antt =====
-- A request of internal/middleware/auth.go that overlaps a sign-out of internal/handlers/sessions.go.
use financentury_backend.Prelude.{
  ℕ, ◌-◌, ◌<◌, ◌≡◌, ◌≢◌, refl, ◌∙◌, ap, true, none, some, [], bytes_discrete, arith, ltb, if_pos,
  false, not, ◌&&◌,
}
use financentury_backend.Prelude.Maps.{find, assign, find-assign}
use financentury_backend.Prelude.Text.{same}
use financentury_backend.Auth.Sessions.{SessionRow, find_row, owner, is_revoked}
use financentury_backend.Auth.Table.{is_revoked-revoke_hash_self}
use financentury_backend.Auth.{
  Caller, Server, SessionCache, SessionCacheEntry, allowed, consult, consult_entry, settle,
  settle_row, sign_out, sign_out_update, admit, session_cache_ttl,
}

module _ (c : Caller) (s : Server) (row : SessionRow) (read_at signed_out : ℕ) where
  -- The request has read its row; the sign-out runs; then the request goes on with the row.
  pub overtaken : Server
  overtaken =
      let s' = sign_out true signed_out c.token_hash s in
      record s' { cache = (settle read_at c (some row) s'.cache).0 }

  abbrev entry : SessionCacheEntry
  entry = record {
    revoked_at = row.revoked_at;
    session_id = row.id;
    user_id = row.user_id;
    cached_at = read_at;
  }

  same_user : row.user_id ≡ c.user_id → same row.user_id c.user_id ≡ true
  same_user own = if_pos (bytes_discrete row.user_id c.user_id) own true false

  stored :
      (cache : SessionCache)
      → row.user_id ≡ c.user_id
      → (settle read_at c (some row) cache).0 ≡ assign bytes_discrete c.token_hash entry cache
  unfolding settle settle_row
  stored cache own = rw (same_user own)

  hit :
      (now : ℕ)
      → row.revoked_at ≡ none
      → row.user_id ≡ c.user_id
      → now - read_at < session_cache_ttl
      → consult_entry now c entry ≡ some (allowed c)
  unfolding consult_entry
  hit now live own young =
      let fresh : ltb (now - read_at) session_cache_ttl ≡ true = ground arith in
      let kept : (not (same row.user_id []) && false) ≡ false = ground arith in
      rw (fresh, live, same_user own, kept)

  overtaken-cache :
      row.user_id ≡ c.user_id → find bytes_discrete c.token_hash overtaken.cache ≡ some entry
  unfolding overtaken
  overtaken-cache own =
      let cache = (sign_out true signed_out c.token_hash s).cache in
      ap (find bytes_discrete c.token_hash) (stored cache own)
      ∙ find-assign {V = SessionCacheEntry} bytes_discrete c.token_hash c.token_hash entry cache
      ∙ if_pos (bytes_discrete c.token_hash c.token_hash) refl _ _

  -- The request puts the session back into the cache as valid after the sign-out took it out: the
  -- session is revoked in the table, and requests with its token are admitted until the entry is
  -- five minutes old.
  pub revocation_lost :
      (now : ℕ)
      → c.token_hash ≢ []
      → find_row c.token_hash s.rows ≡ some row
      → row.revoked_at ≡ none
      → row.user_id ≡ c.user_id
      → now - read_at < session_cache_ttl
      → (is_revoked c.token_hash overtaken.rows ≡ true)
        × ((admit true now c overtaken).1 ≡ allowed c)
  unfolding overtaken sign_out sign_out_update admit consult owner
  revocation_lost now n found live own young =
      let there : owner c.token_hash s.rows ≢ none = λ e. cc (found) in
      (
        ground (arith, is_revoked-revoke_hash_self signed_out c.token_hash s.rows there),
        rw (overtaken-cache own, admit, consult, hit now live own young),
      )
