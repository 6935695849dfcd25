-- ===== src/Cache/Reference.antt =====
-- What internal/cache/cache.go promises: one list of entries, the most recently used first, with
-- no pointers, no map and no index.
use financentury_backend.Prelude.{
  ℕ, zero, suc, ◌≡◌, refl, Bool, true, false, not, Option, none, some, List, [], ◌∷◌, map, Bytes,
  ite, bytes_discrete, arith, take, select, All, ◌≢◌, if◌then◌else◌,
}
use financentury_backend.Cache.Order.{EntryValue, Element}
use financentury_backend.Cache.Order.Laws.{find_key, drop_key, Differ, Distinct}
use financentury_backend.Cache.Sweep.{live}
use financentury_backend.Cache.{Cache, max_entries, expired}

abbrev pub view : Cache → List EntryValue
view c = map (λ e. e.value) c.order

unfoldable pub find_value : Bytes → List EntryValue → Option EntryValue
find_value k [] = none
find_value k (ev ∷ l) = ite (bytes_discrete ev.key k) (some ev) (find_value k l)

unfoldable pub drop_value : Bytes → List EntryValue → List EntryValue
drop_value k [] = []
drop_value k (ev ∷ l) = ite (bytes_discrete ev.key k) l (ev ∷ drop_value k l)

abbrev pub live_values : ℕ → List EntryValue → List EntryValue
live_values now = select (λ ev. not (expired now ev))

-- The entry belongs to the budget; the empty id is no budget.
abbrev pub of_budget : Bytes → EntryValue → Bool
of_budget b ev =
    ite (bytes_discrete ev.budget_id []) false (ite (bytes_discrete ev.budget_id b) true false)

unfoldable pub ref_get : Bytes → ℕ → List EntryValue → List EntryValue × Option Bytes
ref_get key now l = elim (find_value key l) [
  | none ↦ (l, none)
  | some ev ↦
      if expired now ev
      then (drop_value key l, none)
      else (ev ∷ drop_value key l, some ev.data_bytes)
]

-- `due` tells that the insertion also sweeps.
unfoldable pub ref_set : EntryValue → Bool → ℕ → List EntryValue → List EntryValue
ref_set ev due sweep_now l =
    let all = ev ∷ drop_value ev.key l in
    take max_entries (if due then live_values sweep_now all else all)

abbrev pub ref_invalidate : Bytes → List EntryValue → List EntryValue
ref_invalidate b = select (λ ev. not (of_budget b ev))

abbrev pub values : List Element → List EntryValue
values = map (λ e. e.value)

pub find_value-values :
    (k : Bytes) (l : List Element)
    → find_value k (values l) ≡ elim (find_key k l) [ none ↦ none | some e ↦ some e.value ]
unfolding find_value find_key
find_value-values k [] = refl
find_value-values k (e ∷ l) = ground (arith, find_value-values k l)

pub values-drop_key :
    (k : Bytes) (l : List Element) → values (drop_key k l) ≡ drop_value k (values l)
unfolding drop_value drop_key
values-drop_key k [] = refl
values-drop_key k (e ∷ l) = ground (arith, values-drop_key k l)

pub values-live : (now : ℕ) (l : List Element) → values (live now l) ≡ live_values now (values l)
unfolding live
values-live now [] = refl
values-live now (e ∷ l) = ground (arith, values-live now l)

pub values-take : (n : ℕ) (l : List Element) → values (take n l) ≡ take n (values l)
values-take zero l = refl
values-take (suc n) [] = refl
values-take (suc n) (e ∷ l) = rw (values-take n l)

-- No key stands twice.
abbrev pub DistinctKeys : List EntryValue → Type 0
DistinctKeys [] = Unit
DistinctKeys (ev ∷ l) = All (λ x. x.key ≢ ev.key) l × DistinctKeys l

values-All-ne :
    (e : Element) (l : List Element) → All (Differ e) l → All (λ x. x.key ≢ e.value.key) (values l)
values-All-ne e [] a = tt
values-All-ne e (f ∷ l) (p, a) = (p.1, values-All-ne e l a)

pub values-DistinctKeys : (l : List Element) → Distinct l → DistinctKeys (values l)
values-DistinctKeys [] d = tt
values-DistinctKeys (e ∷ l) (a, d) = (values-All-ne e l a, values-DistinctKeys l d)
