-- ===== src/Cache/Sweep.antt =====
-- `sweepExpiredLocked` of internal/cache/cache.go: its walk from the back removes the expired
-- entries and keeps the order of the others.
use mathlib.Core.List.{reverse-cons}
use financentury_backend.Prelude.{
  ℕ, ◌≡◌, refl, sym, ap, ◌∙◌, inl, inr, Bool-cases, some, List, [], ◌∷◌, ◌++◌, reverse, arith, All,
  All-map, All-both, All-append, if◌then◌else◌,
}
use financentury_backend.Cache.Order.{Element}
use financentury_backend.Cache.Order.Laws.{find_key, drop_key, Differ, Distinct, find_key-drop_key}
use financentury_backend.Cache.Invariant.{
  IsConsistent, remove_element-order, remove_element-IsConsistent,
}
use financentury_backend.Cache.{Cache, expired, sweep_one, sweep_walk, sweep_expired}

-- The elements that have not expired.
unfoldable pub live : ℕ → List Element → List Element
live now [] = []
live now (e ∷ l) = if expired now e.value then live now l else e ∷ live now l

-- What the walk leaves of a list.
keep_one : ℕ → Element → List Element → List Element
keep_one now e l = if expired now e.value then drop_key e.value.key l else l

keep : ℕ → List Element → List Element → List Element
keep now [] l = l
keep now (e ∷ es) l = keep now es (keep_one now e l)

abbrev pub Present : List Element → List Element → Type 0
Present es l = All (λ e. find_key e.value.key l ≡ some e) es

Present-drop_key :
    (e : Element) (es l : List Element)
    → Distinct l
    → All (Differ e) es
    → Present es l
    → Present es (drop_key e.value.key l)
Present-drop_key e es l d a p =
    All-map (λ f. Differ e f × (find_key f.value.key l ≡ some f))
      (λ f. find_key f.value.key (drop_key e.value.key l) ≡ some f)
      (λ f h. ground (arith, find_key-drop_key e.value.key f.value.key l d)) es
      (All-both (Differ e) (λ f. find_key f.value.key l ≡ some f) es a p)

Present-keep_one :
    (now : ℕ) (e : Element) (es l : List Element)
    → Distinct l
    → All (Differ e) es
    → Present es l
    → Present es (keep_one now e l)
unfolding keep_one
Present-keep_one now e es l d a p = elim (Bool-cases (expired now e.value)) [
  | inl old ↦ rw old (Present-drop_key e es l d a p)
  | inr fresh ↦ rw fresh p
]

module _ (now : ℕ) (e : Element) (c : Cache) (v : IsConsistent c)
    (found : find_key e.value.key c.order ≡ some e) where
  sweep_one-IsConsistent : IsConsistent (sweep_one now e c)
  unfolding sweep_one
  sweep_one-IsConsistent = elim (Bool-cases (expired now e.value)) [
    | inl old ↦ rw old (remove_element-IsConsistent c e e.value.key v found)
    | inr fresh ↦ rw fresh v
  ]

  sweep_one-order : (sweep_one now e c).order ≡ keep_one now e c.order
  unfolding sweep_one keep_one
  sweep_one-order = elim (Bool-cases (expired now e.value)) [
    | inl old ↦ rw old (remove_element-order c e e.value.key v found)
    | inr fresh ↦ rw fresh
  ]

sweep_walk_lem :
    (now : ℕ) (es : List Element) (c : Cache)
    → IsConsistent c
    → Distinct es
    → Present es c.order
    → IsConsistent (sweep_walk now es c) × ((sweep_walk now es c).order ≡ keep now es c.order)
unfolding sweep_walk keep
sweep_walk_lem now [] c v d p = (v, refl)
sweep_walk_lem now (e ∷ es) c v (a, d) (q, p) =
    let same = sweep_one-order now e c v q in
    let (v', o) =
      sweep_walk_lem now es (sweep_one now e c) (sweep_one-IsConsistent now e c v q) d
        (rw same (Present-keep_one now e es c.order v.distinct a p)) in
    (v', o ∙ ap (keep now es) same)

keep-cons :
    (now : ℕ) (x : Element) (es l : List Element)
    → All (Differ x) es
    → keep now es (x ∷ l) ≡ x ∷ keep now es l
unfolding keep keep_one drop_key
keep-cons now x [] l a = refl
keep-cons now x (e ∷ es) l (h, a) =
    ground (arith, keep-cons now x es l a, keep-cons now x es (drop_key e.value.key l) a)

keep-append :
    (now : ℕ) (x : Element) (es l : List Element)
    → keep now (es ++ x ∷ []) l ≡ keep_one now x (keep now es l)
unfolding keep
keep-append now x [] l = refl
keep-append now x (e ∷ es) l = keep-append now x es (keep_one now e l)

All-reverse : (P : Element → Type 0) (l : List Element) → All P l → All P (reverse l)
All-reverse P [] a = tt
All-reverse P (x ∷ l) (p, a) =
    rw reverse-cons (All-append P (reverse l) (x ∷ []) (All-reverse P l a) (p, tt))

Distinct-append :
    (x : Element) (l : List Element) → Distinct l → All (Differ x) l → Distinct (l ++ x ∷ [])
Distinct-append x [] d a = (tt, tt)
Distinct-append x (e ∷ l) (b, d) (h, a) = (
  All-append (Differ e) l (x ∷ []) b (((λ q. h.0 (sym q)), (λ q. h.1 (sym q))), tt),
  Distinct-append x l d a,
)

Distinct-reverse : (l : List Element) → Distinct l → Distinct (reverse l)
Distinct-reverse [] d = tt
Distinct-reverse (x ∷ l) (a, d) =
    rw reverse-cons
      (Distinct-append x (reverse l) (Distinct-reverse l d) (All-reverse (Differ x) l a))

keep-reverse : (now : ℕ) (l : List Element) → Distinct l → keep now (reverse l) l ≡ live now l
unfolding keep keep_one live drop_key
keep-reverse now [] d = refl
keep-reverse now (x ∷ l) (a, d) = rw reverse-cons (
    keep-append now x (reverse l) (x ∷ l)
    ∙ (rw (keep-cons now x (reverse l) l (All-reverse (Differ x) l a), keep-reverse now l d)
        (ground arith)))

pub Present-self : (l : List Element) → Distinct l → Present l l
unfolding find_key
Present-self [] d = tt
Present-self (x ∷ l) (a, d) = (
  ground arith,
  All-map (λ f. Differ x f × (find_key f.value.key l ≡ some f))
      (λ f. find_key f.value.key (x ∷ l) ≡ some f) (λ f h. ground arith) l
      (All-both (Differ x) (λ f. find_key f.value.key l ≡ some f) l a (Present-self l d)),
)

module _ (now : ℕ) (c : Cache) (v : IsConsistent c) where
  sweep_expired_lem :
      IsConsistent (sweep_expired now c)
      × ((sweep_expired now c).order ≡ keep now (reverse c.order) c.order)
  unfolding sweep_expired
  sweep_expired_lem =
      sweep_walk_lem now (reverse c.order) c v (Distinct-reverse c.order v.distinct) (
        All-reverse (λ e. find_key e.value.key c.order ≡ some e) c.order
          (Present-self c.order v.distinct))

  pub sweep_expired-IsConsistent : IsConsistent (sweep_expired now c)
  sweep_expired-IsConsistent = sweep_expired_lem.0

  pub sweep_expired-order : (sweep_expired now c).order ≡ live now c.order
  sweep_expired-order = sweep_expired_lem.1 ∙ keep-reverse now c.order v.distinct
