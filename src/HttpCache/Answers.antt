-- ===== src/HttpCache/Answers.antt =====
-- What the middleware of internal/middleware/cache.go makes of an answer.
use financentury_backend.Prelude.{
  ℕ, zero, suc, ◌≤◌, ◌<◌, ◌≡◌, ◌≢◌, ◌⊎◌, ◌/◌, refl, ap, subst, ◌∙◌, inl, inr, Bool, Bool-cases,
  Option-cases, true, false, ◌&&◌, not, Option, none, some, List, [], ◌∷◌, Bytes, bytes,
  bytes_discrete, ite, length, All, All-append, arith, if◌then◌else◌,
}
use financentury_backend.Prelude.Maps.{find, assign, delete, find-delete}
use financentury_backend.Prelude.Text.{same, has_prefix}
use financentury_backend.HttpCache.Directives.{
  CacheDirective, header, lookup_cache_directive, first_rule, cache_rules, is_invite_preview, Rule,
}
use financentury_backend.HttpCache.Tags.{compute_etag, hex_bytes, hex_digit, if_none_match_has}
use financentury_backend.HttpCache.Lists.{
  EntityTag, tag_text, HasNoQuote, join_tags, has_text, if_none_match_has-join_tags,
}
use financentury_backend.HttpCache.{
  Response, answered, max_etag_body, tag_response, not_modified, finish, cache_control_and_etag,
}

hex_digit-quote : (d : ℕ) → hex_digit d ≢ b'"'
unfolding hex_digit
hex_digit-quote d h = ground arith

hex_bytes-quote : (n sum : ℕ) → All (λ c. c ≢ b'"') (hex_bytes n sum)
unfolding hex_bytes
hex_bytes-quote zero sum = tt
hex_bytes-quote (suc n) sum =
    All-append (λ c. c ≢ b'"') (hex_bytes n (sum / 256)) _ (hex_bytes-quote n (sum / 256))
      (hex_digit-quote _, (hex_digit-quote _, tt))

tag_response-headers :
    (d : CacheDirective) (etag : Bytes) (r : Response)
    → (find bytes_discrete (bytes "ETag") (tag_response d etag r).headers ≡ some etag)
      × (find bytes_discrete (bytes "Vary") (tag_response d etag r).headers
          ≡ some (
              if d.public then bytes "Accept-Encoding" else bytes "Authorization, Accept-Encoding"))
      × (find bytes_discrete (bytes "Cache-Control") (tag_response d etag r).headers
          ≡ some (header d))
unfolding tag_response find bytes_discrete assign delete
tag_response-headers d etag r = (refl, refl, refl)

not_modified-headers :
    (r : Response)
    → find bytes_discrete (bytes "ETag") (not_modified r).headers
      ≡ find bytes_discrete (bytes "ETag") r.headers
unfolding not_modified bytes_discrete
not_modified-headers r =
    find-delete {V = Bytes} bytes_discrete (bytes "Content-Length") (bytes "ETag") r.headers

-- The ETag of a body is an entity tag.
abbrev pub etag_of : (Bytes → ℕ) → Bytes → EntityTag
etag_of hash body = record { weak = true; opaque = hex_bytes 8 (hash body) }

pub compute_etag-tag_text :
    (hash : Bytes → ℕ) (body : Bytes)
    → (compute_etag hash body ≡ tag_text (etag_of hash body)) × HasNoQuote (etag_of hash body)
unfolding compute_etag
compute_etag-tag_text hash body = (refl, hex_bytes-quote 8 (hash body))

finish-full :
    (hash : Bytes → ℕ) (d : CacheDirective) (inm : Bytes) (r : Response)
    → 200 ≤ r.status
    → r.status < 300
    → r.body ≢ []
    → length r.body ≤ max_etag_body
    → finish hash d inm r ≡ (
        if not (same inm []) && if_none_match_has inm (compute_etag hash r.body)
        then not_modified (tag_response d (compute_etag hash r.body) r)
        else tag_response d (compute_etag hash r.body) r)
unfolding finish
finish-full hash d inm r low high full small = ground arith

join_tags-same : (t : EntityTag) (ts : List EntityTag) → same (join_tags t ts) [] ≡ false
unfolding join_tags
join_tags-same t [] = ground arith
join_tags-same t (u ∷ ts) = ground arith

get_tagged :
    (hash : Bytes → ℕ) (path inm : Bytes) (r : Response) (d : CacheDirective)
    → lookup_cache_directive path ≡ some d
    → cache_control_and_etag hash (bytes "GET") path inm (answered r)
      ≡ answered (finish hash d inm r)
unfolding cache_control_and_etag bytes_discrete
get_tagged hash path inm r d found = rw found

-- A client that lists the ETags it holds gets 304 and no body exactly if one of them is the ETag of
-- the answer's body, and else the answer's own status and body; both carry the ETag. This is for
-- GET on a path with a directive, where the rest of the chain answers 2xx with a body that is not
-- empty and has at most 256 KiB.
pub cache_control_and_etag-join_tags :
    (hash : Bytes → ℕ) (path : Bytes) (t : EntityTag) (ts : List EntityTag) (r : Response)
    {d : CacheDirective}
    → lookup_cache_directive path ≡ some d
    → All HasNoQuote (t ∷ ts)
    → 200 ≤ r.status
    → r.status < 300
    → r.body ≢ []
    → length r.body ≤ max_etag_body
    → (r' : Response) × (cache_control_and_etag hash
          (bytes "GET")
          path
          (join_tags t ts)
          (answered r)
        ≡ answered r')
      × (r'.status ≡ (if has_text (compute_etag hash r.body) (t ∷ ts) then 304 else r.status))
      × (r'.body ≡ (if has_text (compute_etag hash r.body) (t ∷ ts) then [] else r.body))
      × (find bytes_discrete (bytes "ETag") r'.headers ≡ some (compute_etag hash r.body))
cache_control_and_etag-join_tags hash path t ts r {d} found (h, hs) low high full small =
    let etag = compute_etag hash r.body in
    let tagged = tag_response d etag r in
    let done = finish-full hash d (join_tags t ts) r low high full small in
    let listed = if_none_match_has-join_tags t ts etag h hs in
    let sent = join_tags-same t ts in
    let get = get_tagged hash path (join_tags t ts) r d found in
    let ours = (tag_response-headers d etag r).0 in
    elim (Bool-cases (has_text etag (t ∷ ts))) [
      | inl hit ↦ (
        not_modified tagged,
        get ∙ ap answered (done ∙ rw (sent, listed, hit)),
        rw hit (unfold not_modified in refl),
        rw hit (unfold not_modified in refl),
        not_modified-headers tagged ∙ ours,
      )
      | inr miss ↦ (
        tagged,
        get ∙ ap answered (done ∙ rw (sent, listed, miss)),
        rw miss (unfold tag_response in refl),
        rw miss (unfold tag_response in refl),
        ours,
      )
    ]

-- What every rule that matches promises, the first rule promises.
first_rule-All :
    (P : CacheDirective → Type 0) (rules : List Rule) (path : Bytes) (d : CacheDirective)
    → All (λ rule. rule.0 path ≡ true → P rule.1) rules
    → first_rule rules path ≡ some d
    → P d
unfolding first_rule
first_rule-All P [] path d h e = absurd (cc)
first_rule-All P ((matches, c) ∷ rules) path d (p, h) e = elim (Bool-cases (matches path)) [
  | inl hit ↦ subst P (cc) (p hit)
  | inr miss ↦ first_rule-All P rules path d h (cc)
]

abbrev IsPrivate : CacheDirective → Type 0
IsPrivate d = (d.public ≡ false) × (d.visibility ≡ bytes "private")

cache_rules-IsPrivate :
    (path : Bytes)
    → has_prefix path (bytes "/api/invites/") ≡ false
    → All (λ rule. rule.0 path ≡ true → IsPrivate rule.1) cache_rules
unfolding cache_rules is_invite_preview
cache_rules-IsPrivate path h =
    let own : Bool → Type 0 =
      λ hit. hit ≡ true → (false ≡ false) × (bytes "private" ≡ bytes "private") in
    let o : (hit : Bool) → own hit = λ hit e. (refl, refl) in
    (o _, (o _, (o _, (o _, (o _, (o _, (o _, ((λ p. absurd (ground arith)), (o _, tt)))))))))

unless-none :
    (a b : Bool) (o : Option CacheDirective) (d : CacheDirective)
    → (if a then none else if b then none else o) ≡ some d
    → o ≡ some d
unless-none true b o d h = cc
unless-none false true o d h = cc
unless-none false false o d h = h

lookup-IsPrivate :
    (path : Bytes) (d : CacheDirective)
    → has_prefix path (bytes "/api/invites/") ≡ false
    → lookup_cache_directive path ≡ some d
    → IsPrivate d
unfolding lookup_cache_directive
lookup-IsPrivate path d h found =
    first_rule-All IsPrivate cache_rules path d (cache_rules-IsPrivate path h)
      (unless-none _ _ (first_rule cache_rules path) d found)

header-private : (d : CacheDirective) → IsPrivate d → has_prefix (header d) (bytes "private") ≡ true
unfolding header has_prefix bytes_discrete
header-private d (p, q) = rw q

-- The headers of an answer for one user only.
abbrev pub IsOwn : List (Bytes × Bytes) → Type 0
IsOwn headers =
    (find bytes_discrete (bytes "Vary") headers ≡ some (bytes "Authorization, Accept-Encoding"))
    × ((value : Bytes) × (find bytes_discrete (bytes "Cache-Control") headers ≡ some value)
        × (has_prefix value (bytes "private") ≡ true))

tagged-IsOwn :
    (d : CacheDirective) (etag : Bytes) (r : Response)
    → IsPrivate d
    → IsOwn (tag_response d etag r).headers
tagged-IsOwn d etag r p =
    let (_, vary, control) = tag_response-headers d etag r in
    (vary ∙ rw p.0, (header d, control, header-private d p))

not_modified-IsOwn : (r : Response) → IsOwn r.headers → IsOwn (not_modified r).headers
unfolding not_modified bytes_discrete
not_modified-IsOwn r (vary, (value, control, own)) = (
  find-delete {V = Bytes} bytes_discrete (bytes "Content-Length") (bytes "Vary") r.headers ∙ vary,
  (
    value,
    find-delete {V = Bytes} bytes_discrete (bytes "Content-Length") (bytes "Cache-Control")
          r.headers
        ∙ control,
    own,
  ),
)

chosen :
    {X : Type 0} (P : Response → Type 0) (a : Bool) (x : Dec X) (b c : Bool) (r t n : Response)
    → P t
    → P n
    → ((if a then r else ite x r (if b then r else if c then n else t)) ≡ r)
      ⊎ P (if a then r else ite x r (if b then r else if c then n else t))
chosen P true x b c r t n p q = inl refl
chosen P false (yes e) b c r t n p q = inl refl
chosen P false (no e) true c r t n p q = inl refl
chosen P false (no e) false true r t n p q = inr q
chosen P false (no e) false false r t n p q = inr p

finish-IsOwn :
    (hash : Bytes → ℕ) (d : CacheDirective) (inm : Bytes) (r : Response)
    → IsPrivate d
    → (finish hash d inm r ≡ r) ⊎ IsOwn (finish hash d inm r).headers
unfolding finish
finish-IsOwn hash d inm r p =
    let tagged = tag_response d (compute_etag hash r.body) r in
    let own = tagged-IsOwn d (compute_etag hash r.body) r p in
    chosen (λ r'. IsOwn r'.headers) _ (bytes_discrete r.body []) _ _ r tagged (not_modified tagged)
      own (not_modified-IsOwn tagged own)

-- An answer on a path outside /api/invites/ goes out as it came, or is bound to its user: it varies
-- on Authorization, and its Cache-Control starts with "private".
pub cache_control_and_etag-private :
    (hash : Bytes → ℕ) (method path inm : Bytes) (r : Response)
    → has_prefix path (bytes "/api/invites/") ≡ false
    → (r' : Response) × (cache_control_and_etag hash method path inm (answered r) ≡ answered r')
      × ((r' ≡ r) ⊎ IsOwn r'.headers)
unfolding cache_control_and_etag
cache_control_and_etag-private hash method path inm r h =
    elim (Bool-cases (not (same method (bytes "GET")))) [
      | inl e ↦ (r, rw e, inl refl)
      | inr e ↦ elim (Option-cases (lookup_cache_directive path)) [
        | inl missing ↦ (r, rw (e, missing), inl refl)
        | inr (d, found) ↦ (
          finish hash d inm r,
          rw (e, found),
          finish-IsOwn hash d inm r (lookup-IsPrivate path d h found),
        )
      ]
    ]
