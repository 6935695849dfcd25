-- ===== src/Auth/Revoked.antt =====
-- While no two requests overlap, the session cache of internal/middleware/auth.go never hides a
-- revocation.
use financentury_backend.Prelude.{
  ℕ, ◌-◌, ◌≡◌, ◌≢◌, sym, ◌∙◌, inl, inr, Bool, Bool-cases, true, false, not, Option-cases, none,
  some, List, [], ◌∷◌, Bytes, bytes_discrete, ite, ltb, All, All-map, arith,
}
use financentury_backend.Prelude.Maps.{assign, delete}
use financentury_backend.Prelude.Text.{same}
use financentury_backend.Auth.Sessions.{
  SessionRow, is_some, find_row, revoke_hash, revoke_id, find_revocable, owner, is_revoked,
}
use financentury_backend.Auth.Table.{
  owner-revoke_hash, is_revoked-revoke_hash, owner-revoke_id, is_revoked-revoke_id, sign_in-kept,
}
use financentury_backend.Auth
use financentury_backend.Auth.{
  SessionCacheEntry, SessionCache, Caller, Verdict, allowed, unauthorized, Server, consult, settle,
  settle_row, invalidate_session_cache, session_cache_max_age, sign_out_update, looked_up,
  revoked_row,
}

-- A cached session is a row of the table with the same user, and is marked revoked if the row is.
pub record IsFaithful (rows : List SessionRow) (p : Bytes × SessionCacheEntry) : Type 0 where
  pub known : owner p.0 rows ≡ some p.1.user_id
  pub marked : is_revoked p.0 rows ≡ true → is_some p.1.revoked_at ≡ true

abbrev pub IsSound : Server → Type 0
IsSound s = All (IsFaithful s.rows) s.cache

-- Requests that do not overlap, and the evictor between them.
pub data Calls (s : Server) : Server → Type 0 where
  here : Calls s s
  admit :
      {t : Server} (answered : Bool) (now : ℕ) (c : Caller)
      → Calls s t
      → Calls s (Auth.admit answered now c t).0
  sign_out :
      {t : Server} (updated : Bool) (now : ℕ) (h : Bytes)
      → Calls s t
      → Calls s (Auth.sign_out updated now h t)
  revoke_session :
      {t : Server} (updated answered : Bool) (now : ℕ) (id : Bytes) (c : Caller)
      → Calls s t
      → Calls s (Auth.revoke_session updated answered now id c t).0
  evict : {t : Server} (now : ℕ) → Calls s t → Calls s (record t { cache = Auth.evict now t.cache })
  create_session :
      {t : Server} (sha256_hex : Bytes → Bytes) (stored : Bool) (id user token : Bytes)
      → Calls s t
      → owner (sha256_hex token) t.rows ≡ none
      → Calls s (Auth.create_session sha256_hex stored id user token t)

module _ (P : Bytes × SessionCacheEntry → Type 0) where
  All-delete :
      (h : Bytes) (cache : SessionCache)
      → All P cache
      → All (λ p. P p × (h ≢ p.0)) (delete bytes_discrete h cache)
  unfolding delete
  All-delete h [] a = tt
  All-delete h ((k, e) ∷ cache) (q, a) =
      let rest = All-delete h cache a in
      elim (bytes_discrete k h)
        as (λ d.
          All (λ p. P p × (h ≢ p.0))
            (elim d [
              | yes _ ↦ delete bytes_discrete h cache
              | no _ ↦ (k, e) ∷ delete bytes_discrete h cache
            ])) [ yes p ↦ rest | no n ↦ ((q, λ p. n (sym p)), rest) ]

  All-evict : (now : ℕ) (cache : SessionCache) → All P cache → All P (Auth.evict now cache)
  unfolding Auth.evict
  All-evict now [] a = tt
  All-evict now ((h, e) ∷ cache) (q, a) =
      elim (Bool-cases (ltb session_cache_max_age (now - e.cached_at))) [
        | inl old ↦ rw old (All-evict now cache a)
        | inr young ↦ rw young (q, All-evict now cache a)
      ]

stored-IsSound :
    (now : ℕ) (c : Caller) (row : SessionRow) (s : Server)
    → IsSound s
    → find_row c.token_hash s.rows ≡ some row
    → IsSound (record s { cache = (settle_row now c row s.cache).0 })
unfolding settle_row owner is_revoked assign
stored-IsSound now c row s v found = elim (Bool-cases (not (same row.user_id c.user_id))) [
  | inl other ↦ rw other v
  | inr own ↦ rw own (
    record { known = ground arith; marked = λ r. ground arith },
    All-map _ (IsFaithful s.rows) (λ p q. q.0) _
        (All-delete (IsFaithful s.rows) c.token_hash s.cache v),
  )
]

admit-IsSound :
    (answered : Bool) (now : ℕ) (c : Caller) (s : Server)
    → IsSound s
    → IsSound (Auth.admit answered now c s).0
unfolding Auth.admit settle looked_up
admit-IsSound false now c s v = elim (Option-cases (consult now c s.cache)) [
  | inr (w, known) ↦ rw (known, Auth.admit) v
  | inl missing ↦ rw (missing, Auth.admit) v
]
admit-IsSound true now c s v = elim (Option-cases (consult now c s.cache)) [
  | inr (w, known) ↦ rw (known, Auth.admit) v
  | inl missing ↦ elim (Option-cases (find_row c.token_hash s.rows)) [
    | inl absent ↦ rw (missing, Auth.admit, absent) v
    | inr (row, found) ↦ rw (missing, Auth.admit, found) (stored-IsSound now c row s v found)
  ]
]

sign_out-IsSound :
    (updated : Bool) (now : ℕ) (h : Bytes) (s : Server)
    → IsSound s
    → IsSound (Auth.sign_out updated now h s)
unfolding Auth.sign_out sign_out_update invalidate_session_cache
sign_out-IsSound false now h s v =
    elim (bytes_discrete h [])
      as (λ d. IsSound (ite d s (record s { cache = delete bytes_discrete h s.cache }))) [
        | yes _ ↦ v
        | no _ ↦
            All-map _ (IsFaithful s.rows) (λ p q. q.0) _
              (All-delete (IsFaithful s.rows) h s.cache v)
      ]
sign_out-IsSound true now h s v =
    elim (bytes_discrete h [])
      as (λ d. IsSound (
        ite d s
          (record { cache = delete bytes_discrete h s.cache; rows = revoke_hash now h s.rows }))) [
            | yes _ ↦ v
            | no _ ↦
                All-map _ (IsFaithful (revoke_hash now h s.rows))
                  (λ p q. record {
                    known = owner-revoke_hash now h p.0 s.rows ∙ q.0.known;
                    marked =
                        λ r. q.0.marked (sym (is_revoked-revoke_hash now h p.0 s.rows q.1) ∙ r);
                  })
                  _ (All-delete (IsFaithful s.rows) h s.cache v)
          ]

revoke_session-IsSound :
    (updated answered : Bool) (now : ℕ) (id : Bytes) (c : Caller) (s : Server)
    → IsSound s
    → IsSound (Auth.revoke_session updated answered now id c s).0
unfolding Auth.revoke_session invalidate_session_cache revoked_row
revoke_session-IsSound false answered now id c s v = v
revoke_session-IsSound true answered now id c s v =
    elim (Option-cases (find_revocable id c.user_id c.token_hash s.rows)) [
      | inl missing ↦ rw (missing, Auth.revoke_session) v
      | inr (row, found) ↦
          rw (found, Auth.revoke_session)
            (All-map _ (IsFaithful (revoke_id now id c.user_id c.token_hash s.rows))
              (λ p q. record {
                known = owner-revoke_id now id c.user_id c.token_hash p.0 s.rows ∙ q.0.known;
                marked = λ r. q.0.marked (
                    sym (is_revoked-revoke_id now id c.user_id c.token_hash p.0 s.rows found q.1)
                    ∙ r);
              })
              _ (All-delete (IsFaithful s.rows) row.token_hash s.cache v))
    ]

sign_in-IsSound :
    (row : SessionRow) (s : Server)
    → IsSound s
    → owner row.token_hash s.rows ≡ none
    → IsSound (record s { rows = row ∷ s.rows })
sign_in-IsSound row s v new =
    All-map (IsFaithful s.rows) (IsFaithful (row ∷ s.rows))
      (λ p q.
        let there : owner p.0 s.rows ≢ none = λ n. cc (q.known) in
        let (o, r) = sign_in-kept row p.0 s.rows new there in
        record { known = o ∙ q.known; marked = λ e. q.marked (sym r ∙ e) })
      s.cache v

pub Calls-IsSound : {s t : Server} → IsSound s → Calls s t → IsSound t
unfolding Auth.create_session
Calls-IsSound v here = v
Calls-IsSound v (admit {t} ok now c r) = admit-IsSound ok now c t (Calls-IsSound v r)
Calls-IsSound v (sign_out {t} ok now h r) = sign_out-IsSound ok now h t (Calls-IsSound v r)
Calls-IsSound v (revoke_session {t} ok ok' now id c r) =
    revoke_session-IsSound ok ok' now id c t (Calls-IsSound v r)
Calls-IsSound v (evict {t} now r) = All-evict (IsFaithful t.rows) now t.cache (Calls-IsSound v r)
Calls-IsSound v (create_session hash false id user token r new) = Calls-IsSound v r
Calls-IsSound v (create_session {t} hash true id user token r new) =
    sign_in-IsSound _ t (Calls-IsSound v r) new

abbrev pub is_allowed : Verdict → Bool
is_allowed (allowed c) = true
is_allowed (unauthorized m) = false
