-- ===== src/Cache/Reads.antt =====
-- What a caller of internal/cache/cache.go reads after its writes.
use financentury_backend.Prelude.{
  ℕ, zero, suc, ◌+◌, ◌≤◌, ◌≡◌, refl, sym, ap, ◌∙◌, inl, inr, Bool, true, false, Bool-cases, Option,
  Option-cases, none, some, List, [], ◌∷◌, Bytes, arith, take, All, All-map, ◌≢◌, ◌⊎◌,
  if◌then◌else◌,
}
use financentury_backend.Prelude.Int.{pos}
use financentury_backend.Cache.Order.{EntryValue, Element}
use financentury_backend.Cache.Order.Laws.{find_key}
use financentury_backend.Cache.Index.{owned}
use financentury_backend.Cache.Invariant.{IsValid}
use financentury_backend.Cache.Reference.{
  view, values, find_value-values, find_value, drop_value, live_values, of_budget, DistinctKeys,
  ref_get, ref_set,
}
use financentury_backend.Cache.Calls.{get-ref_get}
use financentury_backend.Cache.Writes.{set-view, set-IsValid, is_due, pushed-DistinctKeys}
use financentury_backend.Cache.Invalidate.{find_key-invalidate_budget, invalidate_budget-IsValid}
use financentury_backend.Cache.{Cache, max_entries, expired, get, set, invalidate_budget}

-- What the reference returns for a key.
read : Bytes → ℕ → List EntryValue → Option Bytes
read key now l = elim (find_value key l) [
  | none ↦ none
  | some ev ↦ if expired now ev then none else some ev.data_bytes
]

ref_get-read :
    (key : Bytes) (now : ℕ) (l : List EntryValue) → (ref_get key now l).1 ≡ read key now l
unfolding ref_get read
ref_get-read key now l = ground arith

get-read :
    (c : Cache) (key : Bytes) (now : ℕ) → IsValid c → (get key now c).1 ≡ read key now (view c)
get-read c key now v = ap (λ p. p.1) (get-ref_get c key now v) ∙ ref_get-read key now (view c)

ref_set-read :
    (ev : EntryValue) (due : Bool) (sweep_now now : ℕ) (l : List EntryValue)
    → sweep_now ≤ ev.expires_at
    → now ≤ ev.expires_at
    → read ev.key now (ref_set ev due sweep_now l) ≡ some ev.data_bytes
unfolding read ref_set find_value
ref_set-read ev true sweep_now now l h k = ground arith
ref_set-read ev false sweep_now now l h k = ground arith

-- A stored value is returned until its time to live is over.
pub get-set :
    (c : Cache) (key bid bs : Bytes) (ttl now sweep_now later : ℕ)
    → IsValid c
    → sweep_now ≤ now + suc ttl
    → later ≤ now + suc ttl
    → (get key later (set key bid bs (pos (suc ttl)) now sweep_now c)).1 ≡ some bs
get-set c key bid bs ttl now sweep_now later v h k =
    let ev : EntryValue = record {
      key = key;
      data_bytes = bs;
      expires_at = now + suc ttl;
      budget_id = bid;
    } in
    let c' = set key bid bs (pos (suc ttl)) now sweep_now c in
    get-read c' key later (set-IsValid key bid bs (pos (suc ttl)) now sweep_now c v)
    ∙ ap (read key later) (set-view key bid bs ttl now sweep_now c v.consistent)
    ∙ ref_set-read ev _ sweep_now later (view c) h k

find_value-take :
    (k : Bytes) (n : ℕ) (l : List EntryValue)
    → (find_value k (take n l) ≡ none) ⊎ (find_value k (take n l) ≡ find_value k l)
unfolding find_value
find_value-take k zero l = inl refl
find_value-take k (suc n) [] = inl refl
find_value-take k (suc n) (x ∷ l) = ground (arith, find_value-take k n l)

find_value-absent :
    (k : Bytes) (l : List EntryValue) → All (λ x. x.key ≢ k) l → find_value k l ≡ none
unfolding find_value
find_value-absent k [] a = refl
find_value-absent k (x ∷ l) (p, a) = ground (arith, find_value-absent k l a)

All-live_values :
    (P : EntryValue → Type 0) (now : ℕ) (l : List EntryValue) → All P l → All P (live_values now l)
All-live_values P now [] a = tt
All-live_values P now (x ∷ l) (p, a) = elim (Bool-cases (expired now x)) [
  | inl old ↦ rw old (All-live_values P now l a)
  | inr fresh ↦ rw fresh (p, All-live_values P now l a)
]

find_value-live_values :
    (k : Bytes) (now : ℕ) (l : List EntryValue)
    → DistinctKeys l
    → (find_value k (live_values now l) ≡ none)
      ⊎ (find_value k (live_values now l) ≡ find_value k l)
unfolding find_value
find_value-live_values k now [] d = inl refl
find_value-live_values k now (x ∷ l) (a, d) = ground (
  arith,
  find_value-live_values k now l d,
  λ (q : x.key ≡ k). find_value-absent k (live_values now l) (
      All-live_values (λ y. y.key ≢ k) now l
        (All-map (λ y. y.key ≢ x.key) (λ y. y.key ≢ k) (λ y n. rw (← q) n) l a)),
)

find_value-drop_value :
    (k j : Bytes) (l : List EntryValue) → k ≢ j → find_value j (drop_value k l) ≡ find_value j l
unfolding find_value drop_value
find_value-drop_value k j [] h = refl
find_value-drop_value k j (x ∷ l) h = ground (arith, find_value-drop_value k j l h)

ref_set-other :
    (ev : EntryValue) (due : Bool) (sweep_now : ℕ) (l : List EntryValue) (j : Bytes)
    → DistinctKeys (ev ∷ drop_value ev.key l)
    → ev.key ≢ j
    → (find_value j (ref_set ev due sweep_now l) ≡ none)
      ⊎ (find_value j (ref_set ev due sweep_now l) ≡ find_value j l)
unfolding ref_set
ref_set-other ev due sweep_now l j d h =
    let all = ev ∷ drop_value ev.key l in
    let same : find_value j all ≡ find_value j l =
      unfold find_value in ground (arith, find_value-drop_value ev.key j l h) in
    elim due
      as (λ b.
        (find_value j (ref_set ev b sweep_now l) ≡ none)
        ⊎ (find_value j (ref_set ev b sweep_now l) ≡ find_value j l)) [
          | true ↦ ground (
            arith,
            find_value-take j max_entries (live_values sweep_now all),
            find_value-live_values j sweep_now all d,
          )
          | false ↦ ground (arith, find_value-take j max_entries all)
        ]

-- A stored value changes what another key reads at most to a miss: no value of one key is ever
-- returned for another.
pub get-set_ne :
    (c : Cache) (key bid bs other : Bytes) (ttl now sweep_now later : ℕ)
    → IsValid c
    → key ≢ other
    → ((get other later (set key bid bs (pos (suc ttl)) now sweep_now c)).1 ≡ none)
      ⊎ ((get other later (set key bid bs (pos (suc ttl)) now sweep_now c)).1
          ≡ (get other later c).1)
unfolding read
get-set_ne c key bid bs other ttl now sweep_now later v h =
    let ev : EntryValue = record {
      key = key;
      data_bytes = bs;
      expires_at = now + suc ttl;
      budget_id = bid;
    } in
    let c' = set key bid bs (pos (suc ttl)) now sweep_now c in
    ground (
      arith,
      get-read c' other later (set-IsValid key bid bs (pos (suc ttl)) now sweep_now c v),
      get-read c other later v,
      ap (find_value other) (set-view key bid bs ttl now sweep_now c v.consistent),
      ref_set-other ev (is_due c) sweep_now (view c) other
          (pushed-DistinctKeys key bid bs (suc ttl) now sweep_now c v.consistent) h,
    )

-- `Get` returns a value only from an entry with that key that has not expired.
pub get-eq-some :
    (c : Cache) (key : Bytes) (now : ℕ) {bs : Bytes}
    → IsValid c
    → (get key now c).1 ≡ some bs
    → (ev : EntryValue) × (find_value key (view c) ≡ some ev)
      × (ev.data_bytes ≡ bs)
      × (now ≤ ev.expires_at)
unfolding read
get-eq-some c key now {bs} v h =
    let found : read key now (view c) ≡ some bs = sym (get-read c key now v) ∙ h in
    elim (Option-cases (find_value key (view c))) [
      | inl missing ↦ cc
      | inr (ev, e) ↦ (ev, e, ground arith, ground arith)
    ]

read-values :
    (key : Bytes) (now : ℕ) (l : List Element)
    → read key now (values l) ≡ elim (find_key key l) [
      | none ↦ none
      | some e ↦ if expired now e.value then none else some e.value.data_bytes
    ]
unfolding read
read-values key now l = ground (arith, find_value-values key l)

-- After `InvalidateBudget` no key of the budget is found, and every other key reads as before.
pub get-invalidate_budget :
    (c : Cache) (b key : Bytes) (now : ℕ)
    → IsValid c
    → (get key now (invalidate_budget b c)).1 ≡ elim (find_value key (view c)) [
      | none ↦ none
      | some ev ↦ if of_budget b ev then none else (get key now c).1
    ]
unfolding owned
get-invalidate_budget c b key now v =
    let c' = invalidate_budget b c in
    get-read c' key now (invalidate_budget-IsValid b c v)
    ∙ ground (
      arith,
      read-values key now c'.order,
      read-values key now c.order,
      get-read c key now v,
      find_key-invalidate_budget b key c v.consistent,
      find_value-values key c.order,
    )
