-- ===== src/Cache.antt =====
-- internal/cache/cache.go: a cache with a time to live per entry, an eviction order and an index
-- by budget. The clock is an argument of each call that reads it, and the pointers that
-- `container/list` hands out are addresses, counted by `next`.
pub mod Order
pub mod Index
pub mod Invariant
pub mod Sweep
pub mod Evict
pub mod Reference
pub mod Calls
pub mod Writes
pub mod Invalidate
pub mod History
pub mod Reads
pub mod Keys
pub mod Package
mod Tests
use financentury_backend.Prelude.{
  ℕ, zero, suc, ◌+◌, Bool, true, false, Option, none, some, List, [], ◌∷◌, reverse, ite, Bytes,
  bytes_discrete, ltb, leb, length, if◌then◌else◌,
}
use financentury_backend.Prelude.Int.{ℤ, pos}
use financentury_backend.Prelude.Maps.{find, delete, assign, remove, add}
use Order.{Element, EntryValue, list_remove, move_to_front, back}

abbrev pub max_entries : ℕ
max_entries = 10_000

abbrev pub sweep_interval : ℕ
sweep_interval = 256

pub record Cache : Type 0 where
  pub entries : List (Bytes × Element)
  pub order : List Element
  pub hits : ℕ
  pub misses : ℕ
  pub budget_index : List (Bytes × List Bytes)
  pub sets_since_sweep : ℕ
  pub next : ℕ

-- `New`
abbrev pub init : Cache
init = record {
  entries = [];
  order = [];
  hits = 0;
  misses = 0;
  budget_index = [];
  sets_since_sweep = 0;
  next = 0;
}

-- `now.After(ev.expiresAt)`
abbrev pub expired : ℕ → EntryValue → Bool
expired now ev = ltb ev.expires_at now

-- The index part of `removeElement`: an emptied bucket goes.
pub drop_bucket : Bytes → List Bytes → List (Bytes × List Bytes) → List (Bytes × List Bytes)
drop_bucket bid [] m = delete bytes_discrete bid m
drop_bucket bid (k ∷ ks) m = assign bytes_discrete bid (k ∷ ks) m

pub unindex : EntryValue → List (Bytes × List Bytes) → List (Bytes × List Bytes)
unfolding drop_bucket
unindex ev m = ite (bytes_discrete ev.budget_id []) m (elim (find bytes_discrete ev.budget_id m) [
  | none ↦ m
  | some idx ↦ drop_bucket ev.budget_id (remove bytes_discrete ev.key idx) m
])

pub remove_element : Element → Cache → Cache
remove_element e c = record c {
  order = list_remove e.addr c.order;
  entries = delete bytes_discrete e.value.key c.entries;
  budget_index = unindex e.value c.budget_index;
}

-- The branches of `get`.
pub get_hit : Element → ℕ → Cache → Cache × Option Bytes
get_hit e now c =
    if expired now e.value
    then (record (remove_element e c) { misses = c.misses + 1 }, none)
    else (record c { order = move_to_front e c.order; hits = c.hits + 1 }, some e.value.data_bytes)

pub get : Bytes → ℕ → Cache → Cache × Option Bytes
get key now c = elim (find bytes_discrete key c.entries) [
  | none ↦ (record c { misses = c.misses + 1 }, none)
  | some e ↦ get_hit e now c
]

-- The walk of `sweepExpiredLocked`: the elements of the list, the last one first.
pub sweep_one : ℕ → Element → Cache → Cache
sweep_one now e c = if expired now e.value then remove_element e c else c

pub sweep_walk : ℕ → List Element → Cache → Cache
sweep_walk now [] c = c
sweep_walk now (e ∷ es) c = sweep_walk now es (sweep_one now e c)

pub sweep_expired : ℕ → Cache → Cache
sweep_expired now c = sweep_walk now (reverse c.order) c

-- `Sweep`
pub sweep : ℕ → Cache → Cache
sweep now c = record (sweep_expired now c) { sets_since_sweep = 0 }

-- The eviction loop of `setLocked`; each round removes one element, so the list's length is fuel
-- enough.
pub evict_loop : ℕ → Cache → Cache
evict_loop zero c = c
evict_loop (suc fuel) c = elim (ltb max_entries (length c.order)) [
  | false ↦ c
  | true ↦ elim (back c.order) [ none ↦ c | some e ↦ evict_loop fuel (remove_element e c) ]
]

pub evict : Cache → Cache
evict c = evict_loop (length c.order) c

-- The index part of `setLocked`.
pub index_key : EntryValue → List (Bytes × List Bytes) → List (Bytes × List Bytes)
index_key ev m = ite (bytes_discrete ev.budget_id []) m (elim (find bytes_discrete ev.budget_id m) [
  | none ↦ assign bytes_discrete ev.budget_id (ev.key ∷ []) m
  | some idx ↦ assign bytes_discrete ev.budget_id (add bytes_discrete ev.key idx) m
])

-- The three parts of `setLocked` before the eviction loop.
pub drop_existing : Bytes → Cache → Cache
drop_existing key c = elim (find bytes_discrete key c.entries) [
  | none ↦ c
  | some existing ↦ remove_element existing c
]

pub push_entry : EntryValue → Cache → Cache
push_entry ev c =
    let e : Element = record { addr = c.next; value = ev } in
    record c {
      order = e ∷ c.order;
      entries = assign bytes_discrete ev.key e c.entries;
      budget_index = index_key ev c.budget_index;
      next = c.next + 1;
    }

pub sweep_if_due : ℕ → Cache → Cache
sweep_if_due now c =
    let n = c.sets_since_sweep + 1 in
    if leb sweep_interval n
    then sweep_expired now (record c { sets_since_sweep = 0 })
    else record c { sets_since_sweep = n }

-- `setLocked`; the clock is read when the entry is made and again for the sweep.
pub set_locked : Bytes → Bytes → Bytes → ℕ → ℕ → ℕ → Cache → Cache
set_locked key bid bs ttl now sweep_now c =
    let ev : EntryValue = record {
      key = key;
      data_bytes = bs;
      expires_at = now + ttl;
      budget_id = bid;
    } in
    evict (sweep_if_due sweep_now (push_entry ev (drop_existing key c)))

-- `Set`: a time to live of 0 or less stores nothing. `bid` is the budget id's text.
pub set : Bytes → Bytes → Bytes → ℤ → ℕ → ℕ → Cache → Cache
set key bid bs (pos (suc ttl)) now sweep_now c = set_locked key bid bs (suc ttl) now sweep_now c
set key bid bs _ now sweep_now c = c

-- `Delete`
pub delete_key : Bytes → Cache → Cache
delete_key key c = elim (find bytes_discrete key c.entries) [
  | none ↦ c
  | some e ↦ remove_element e c
]

-- The loop of `InvalidateBudget` over the budget's keys.
pub drop_one : Bytes → Cache → Cache
drop_one key c = elim (find bytes_discrete key c.entries) [
  | none ↦ c
  | some e ↦ record c {
    order = list_remove e.addr c.order;
    entries = delete bytes_discrete key c.entries;
  }
]

pub drop_keys : List Bytes → Cache → Cache
drop_keys [] c = c
drop_keys (key ∷ keys) c = drop_keys keys (drop_one key c)

pub invalidate_budget : Bytes → Cache → Cache
invalidate_budget bid c = elim (find bytes_discrete bid c.budget_index) [
  | none ↦ c
  | some keys ↦
      let c' = drop_keys keys c in
      record c' { budget_index = delete bytes_discrete bid c'.budget_index }
]

-- `Clear`
pub clear : Cache → Cache
clear c = record c { entries = []; order = []; budget_index = []; sets_since_sweep = 0 }

-- `Stats`
pub record StatsSnapshot : Type 0 where
  pub hits : ℕ
  pub misses : ℕ
  pub entries : ℕ

pub stats : Cache → StatsSnapshot
stats c = record { hits = c.hits; misses = c.misses; entries = length c.order }
