-- ===== src/Cache/History.antt =====
-- Any sequence of calls of internal/cache/cache.go against the reference list.
use financentury_backend.Prelude.{
  ℕ, zero, suc, ◌+◌, ◌≡◌, refl, ap, ◌∙◌, Option, none, List, [], ◌∷◌, Bytes, Bool, Bool-cases, inl,
  inr, reverse, length, leb, arith, Option-cases, bytes_discrete, if◌then◌else◌,
}
use financentury_backend.Prelude.Int.{ℤ, pos, negsuc}
use financentury_backend.Prelude.Maps.{find}
use financentury_backend.Cache.Order.{EntryValue, Element}
use financentury_backend.Cache.Invariant.{IsValid}
use financentury_backend.Cache.Reference.{
  view, ref_get, ref_set, ref_invalidate, drop_value, live_values,
}
use financentury_backend.Cache.Calls.{get-IsValid, get-ref_get}
use financentury_backend.Cache.Writes.{
  set_locked-view, set-IsValid, sweep-IsValid, sweep-view, delete_key-IsValid, delete_key-view,
  clear-IsValid,
}
use financentury_backend.Cache.Invalidate.{invalidate_budget-IsValid, invalidate_budget-view}
use financentury_backend.Cache
use financentury_backend.Cache.{
  Cache, sweep_interval, remove_element, drop_existing, push_entry, evict_loop, evict, sweep_one,
  sweep_walk, sweep_if_due, sweep_expired, set_locked, drop_one, drop_keys, get_hit,
}

pub data Call : Type 0 where
  get : (key : Bytes) (now : ℕ) → Call
  set : (key bid bs : Bytes) (ttl : ℤ) (now sweep_now : ℕ) → Call
  sweep : (now : ℕ) → Call
  delete_key : (key : Bytes) → Call
  invalidate_budget : (bid : Bytes) → Call
  clear : Call

-- A call gives the new cache and what it returns; only `Get` returns bytes.
pub step : Call → Cache → Cache × Option Bytes
step (Call.get key now) c = Cache.get key now c
step (Call.set key bid bs ttl now sweep_now) c = (Cache.set key bid bs ttl now sweep_now c, none)
step (Call.sweep now) c = (Cache.sweep now c, none)
step (Call.delete_key key) c = (Cache.delete_key key c, none)
step (Call.invalidate_budget bid) c = (Cache.invalidate_budget bid c, none)
step Call.clear c = (Cache.clear c, none)

-- The reference: the entries, and the insertions since the last sweep.
pub record Reference : Type 0 where
  pub items : List EntryValue
  pub sets : ℕ

abbrev pub reference : Cache → Reference
reference c = record { items = view c; sets = c.sets_since_sweep }

abbrev pub due : ℕ → Bool
due n = leb sweep_interval (n + 1)

pub ref_step : Call → Reference → Reference × Option Bytes
ref_step (Call.get key now) r =
    let (items, found) = ref_get key now r.items in (record r { items = items }, found)
ref_step (Call.set key bid bs (pos (suc ttl)) now sweep_now) r =
    let ev : EntryValue = record {
      key = key;
      data_bytes = bs;
      expires_at = now + suc ttl;
      budget_id = bid;
    } in
    (
      record {
        items = ref_set ev (due r.sets) sweep_now r.items;
        sets = if due r.sets then 0 else r.sets + 1;
      },
      none,
    )
ref_step (Call.set key bid bs _ now sweep_now) r = (r, none)
ref_step (Call.sweep now) r = (record { items = live_values now r.items; sets = 0 }, none)
ref_step (Call.delete_key key) r = (record r { items = drop_value key r.items }, none)
ref_step (Call.invalidate_budget bid) r = (record r { items = ref_invalidate bid r.items }, none)
ref_step Call.clear r = (record { items = []; sets = 0 }, none)

sweep-sets : (now : ℕ) (c : Cache) → (Cache.sweep now c).sets_since_sweep ≡ 0
unfolding Cache.sweep
sweep-sets now c = refl

-- The counter of insertions under each call.
drop_existing-sets :
    (key : Bytes) (c : Cache) → (drop_existing key c).sets_since_sweep ≡ c.sets_since_sweep
unfolding drop_existing remove_element
drop_existing-sets key c = ground arith

evict_loop-sets : (fuel : ℕ) (c : Cache) → (evict_loop fuel c).sets_since_sweep ≡ c.sets_since_sweep
unfolding evict_loop remove_element
evict_loop-sets zero c = refl
evict_loop-sets (suc fuel) c = grind (arith, evict_loop-sets fuel)

sweep_walk-sets :
    (now : ℕ) (es : List Element) (c : Cache)
    → (sweep_walk now es c).sets_since_sweep ≡ c.sets_since_sweep
unfolding sweep_walk sweep_one remove_element
sweep_walk-sets now [] c = refl
sweep_walk-sets now (e ∷ es) c = sweep_walk-sets now es (sweep_one now e c) ∙ ground arith

sweep_if_due-sets :
    (now : ℕ) (c : Cache)
    → (sweep_if_due now c).sets_since_sweep
      ≡ (if due c.sets_since_sweep then 0 else c.sets_since_sweep + 1)
unfolding sweep_if_due sweep_expired
sweep_if_due-sets now c = elim (Bool-cases (due c.sets_since_sweep)) [
  | inl full ↦ rw full (sweep_walk-sets now (reverse c.order) (record c { sets_since_sweep = 0 }))
  | inr early ↦ rw early
]

set_locked-sets :
    (key bid bs : Bytes) (ttl now sweep_now : ℕ) (c : Cache)
    → (set_locked key bid bs ttl now sweep_now c).sets_since_sweep
      ≡ (if due c.sets_since_sweep then 0 else c.sets_since_sweep + 1)
unfolding set_locked evict push_entry
set_locked-sets key bid bs ttl now sweep_now c =
    let ev : EntryValue = record {
      key = key;
      data_bytes = bs;
      expires_at = now + ttl;
      budget_id = bid;
    } in
    let pushed = push_entry ev (drop_existing key c) in
    let swept = sweep_if_due sweep_now pushed in
    evict_loop-sets (length swept.order) swept
    ∙ sweep_if_due-sets sweep_now pushed
    ∙ ap (λ n. if due n then 0 else n + 1) (drop_existing-sets key c)

drop_keys-sets :
    (s : List Bytes) (c : Cache) → (drop_keys s c).sets_since_sweep ≡ c.sets_since_sweep
unfolding drop_keys drop_one
drop_keys-sets [] c = refl
drop_keys-sets (k ∷ s) c = drop_keys-sets s (drop_one k c) ∙ ground arith

get-sets :
    (key : Bytes) (now : ℕ) (c : Cache)
    → (Cache.get key now c).0.sets_since_sweep ≡ c.sets_since_sweep
unfolding Cache.get get_hit remove_element
get-sets key now c = ground arith

invalidate_budget-sets :
    (bid : Bytes) (c : Cache)
    → (Cache.invalidate_budget bid c).sets_since_sweep ≡ c.sets_since_sweep
unfolding Cache.invalidate_budget
invalidate_budget-sets bid c = elim (Option-cases (find bytes_discrete bid c.budget_index)) [
  | inl missing ↦ rw (missing, Cache.invalidate_budget)
  | inr (s, found) ↦ rw (found, Cache.invalidate_budget) (drop_keys-sets s c)
]

delete_key-sets :
    (key : Bytes) (c : Cache) → (Cache.delete_key key c).sets_since_sweep ≡ c.sets_since_sweep
unfolding Cache.delete_key remove_element
delete_key-sets key c = ground arith

-- One call keeps the invariant, moves the reference as the reference call does, and returns the
-- same.
step_lem :
    (call : Call) (c : Cache)
    → IsValid c
    → IsValid (step call c).0
      × ((reference (step call c).0, (step call c).1) ≡ ref_step call (reference c))
unfolding step ref_step Cache.set
step_lem (Call.get key now) c v =
    (get-IsValid c key now v, ground (arith, get-ref_get c key now v, get-sets key now c))
step_lem (Call.set key bid bs (pos (suc ttl)) now sweep_now) c v = (
  set-IsValid key bid bs (pos (suc ttl)) now sweep_now c v,
  unfold Cache.set in
      ground (
        arith,
        set_locked-view key bid bs (suc ttl) now sweep_now c v.consistent,
        set_locked-sets key bid bs (suc ttl) now sweep_now c,
      ),
)
step_lem (Call.set key bid bs (pos zero) now sweep_now) c v = (v, unfold Cache.set in refl)
step_lem (Call.set key bid bs (negsuc t) now sweep_now) c v = (v, unfold Cache.set in refl)
step_lem (Call.sweep now) c v = (
  sweep-IsValid now c v.consistent v.bounded,
  ground (arith, sweep-view now c v.consistent, sweep-sets now c),
)
step_lem (Call.delete_key key) c v =
    (delete_key-IsValid key c v, ground (arith, delete_key-view key c v, delete_key-sets key c))
step_lem (Call.invalidate_budget bid) c v = (
  invalidate_budget-IsValid bid c v,
  ground (arith, invalidate_budget-view bid c v.consistent, invalidate_budget-sets bid c),
)
step_lem Call.clear c v = (clear-IsValid c, unfold Cache.clear in refl)

-- What a sequence of calls leaves and returns.
unfoldable pub run : List Call → Cache → Cache × List (Option Bytes)
run [] c = (c, [])
run (call ∷ calls) c =
    let (c', found) = step call c in let (last, rest) = run calls c' in (last, found ∷ rest)

unfoldable pub ref_run : List Call → Reference → Reference × List (Option Bytes)
ref_run [] r = (r, [])
ref_run (call ∷ calls) r =
    let (r', found) = ref_step call r in let (last, rest) = ref_run calls r' in (last, found ∷ rest)

-- After any calls on a valid cache the cache is valid, holds the entries of the reference list in
-- their order, and has returned what the reference returned.
pub run-ref_run :
    (calls : List Call) (c : Cache)
    → IsValid c
    → IsValid (run calls c).0
      × ((reference (run calls c).0, (run calls c).1) ≡ ref_run calls (reference c))
unfolding run ref_run
run-ref_run [] c v = (v, refl)
run-ref_run (call ∷ calls) c v =
    let (v', same) = step_lem call c v in
    let (v'', rest) = run-ref_run calls (step call c).0 v' in
    (v'', rw (← same) (ap (λ p. (p.0, (step call c).1 ∷ p.1)) rest))
