-- ===== src/Cache/Writes.antt =====
-- `Set`, `Sweep`, `Delete` and `Clear` of internal/cache/cache.go.
use financentury_backend.Prelude.{
  ℕ, zero, suc, ◌+◌, ◌≤◌, ◌≡◌, refl, ap, ap₂, subst, ◌∙◌, inl, inr, Bool, true, false, Bool-cases,
  none, List, [], ◌∷◌, Bytes, arith, length, take, length-take-le, leb, if◌then◌else◌,
}
use financentury_backend.Prelude.Int.{ℤ, pos, negsuc}
use financentury_backend.Prelude.Maps.{find}
use financentury_backend.Cache.Order.{EntryValue, Element}
use financentury_backend.Cache.Order.Laws.{find_key, find_key-drop_key, length-drop_key}
use financentury_backend.Cache.Index.{is_indexed, owned}
use financentury_backend.Cache.Invariant.{
  IsConsistent, IsValid, drop_existing-order, drop_existing-IsConsistent, push_entry-IsConsistent,
  counters-IsConsistent,
}
use financentury_backend.Cache.Sweep.{live, sweep_expired-order, sweep_expired-IsConsistent}
use financentury_backend.Cache.Evict.{evict-order, evict-IsConsistent}
use financentury_backend.Cache.Reference.{
  view, values, DistinctKeys, values-DistinctKeys, ref_set, live_values, drop_value,
  values-drop_key, values-live, values-take,
}
use financentury_backend.Cache.{
  Cache, init, max_entries, sweep_interval, remove_element, drop_existing, push_entry, sweep_if_due,
  set_locked, set, sweep_expired, sweep, delete_key, clear,
}

pub init-IsValid : IsValid init
unfolding find find_key is_indexed owned
init-IsValid = record {
  consistent = record {
    distinct = tt;
    fresh = tt;
    agree = λ k. refl;
    indexed = λ b k. refl;
    full_buckets = λ b h. cc;
  };
  bounded = omega arith;
}

pub clear-IsValid : (c : Cache) → IsValid (clear c)
unfolding clear find find_key is_indexed owned
clear-IsValid c = record {
  consistent = record {
    distinct = tt;
    fresh = tt;
    agree = λ k. refl;
    indexed = λ b k. refl;
    full_buckets = λ b h. cc;
  };
  bounded = omega arith;
}

-- The sweep of `setLocked` runs at every 256th insertion.
abbrev pub is_due : Cache → Bool
is_due c = leb sweep_interval (c.sets_since_sweep + 1)

module _ (now : ℕ) (c : Cache) (v : IsConsistent c) where
  sweep_if_due-IsConsistent : IsConsistent (sweep_if_due now c)
  unfolding sweep_if_due
  sweep_if_due-IsConsistent = elim (Bool-cases (is_due c)) [
    | inl due ↦ rw due (
        sweep_expired-IsConsistent now (record c { sets_since_sweep = 0 })
          (counters-IsConsistent c c.hits c.misses 0 v))
    | inr early ↦ rw early (counters-IsConsistent c c.hits c.misses (c.sets_since_sweep + 1) v)
  ]

  sweep_if_due-order : (sweep_if_due now c).order ≡ (if is_due c then live now c.order else c.order)
  unfolding sweep_if_due
  sweep_if_due-order = elim (Bool-cases (is_due c)) [
    | inl due ↦ rw due (
        sweep_expired-order now (record c { sets_since_sweep = 0 })
          (counters-IsConsistent c c.hits c.misses 0 v))
    | inr early ↦ rw early
  ]

  length-live-le : (l : List Element) → length (live now l) ≤ length l
  unfolding live
  length-live-le [] = omega arith
  length-live-le (e ∷ l) = ground (arith, length-live-le l)

  pub sweep-IsValid : length c.order ≤ max_entries → IsValid (sweep now c)
  unfolding sweep
  sweep-IsValid bound =
      let c' = sweep_expired now c in
      record {
        consistent =
            counters-IsConsistent c' c'.hits c'.misses 0 (sweep_expired-IsConsistent now c v);
        bounded = omega (arith, ap length (sweep_expired-order now c v), length-live-le c.order);
      }

  pub sweep-view : view (sweep now c) ≡ live_values now (view c)
  unfolding sweep
  sweep-view = ap values (sweep_expired-order now c v) ∙ values-live now c.order

values-if :
    (b : Bool) (now : ℕ) (l : List Element)
    → values (if b then live now l else l) ≡ (if b then live_values now (values l) else values l)
values-if true now l = values-live now l
values-if false now l = refl

-- `setLocked` on a cache with an entry for the key, or with none.
module _ (key bid bs : Bytes) (ttl now sweep_now : ℕ) (c : Cache) (v : IsConsistent c) where
  abbrev stored : EntryValue
  stored = record { key = key; data_bytes = bs; expires_at = now + ttl; budget_id = bid }

  dropped-absent : find_key key (drop_existing key c).order ≡ none
  dropped-absent =
      ground (arith, drop_existing-order c key v, find_key-drop_key key key c.order v.distinct)

  pushed-IsConsistent : IsConsistent (push_entry stored (drop_existing key c))
  pushed-IsConsistent =
      push_entry-IsConsistent (drop_existing key c) stored (drop_existing-IsConsistent c key v)
        dropped-absent

  pub set_locked-IsValid : IsValid (set_locked key bid bs ttl now sweep_now c)
  unfolding set_locked
  set_locked-IsValid =
      let pushed = push_entry stored (drop_existing key c) in
      let swept = sweep_if_due-IsConsistent sweep_now pushed pushed-IsConsistent in
      let c' = sweep_if_due sweep_now pushed in
      record {
        consistent = evict-IsConsistent c' swept;
        bounded =
            omega (arith, ap length (evict-order c' swept), length-take-le max_entries c'.order);
      }

  pushed-values :
      values (push_entry stored (drop_existing key c)).order ≡ stored ∷ drop_value key (view c)
  unfolding push_entry
  pushed-values =
      ap (λ l. stored ∷ values l) (drop_existing-order c key v)
      ∙ ap (◌∷◌ stored) (values-drop_key key c.order)

  pub pushed-DistinctKeys : DistinctKeys (stored ∷ drop_value key (view c))
  pushed-DistinctKeys = subst DistinctKeys pushed-values (
      values-DistinctKeys (push_entry stored (drop_existing key c)).order
        pushed-IsConsistent.distinct)

  drop_existing-sets : (drop_existing key c).sets_since_sweep ≡ c.sets_since_sweep
  unfolding drop_existing remove_element
  drop_existing-sets = ground arith

  pushed-is_due : is_due (push_entry stored (drop_existing key c)) ≡ is_due c
  unfolding push_entry
  pushed-is_due = rw drop_existing-sets

  pub set_locked-view :
      view (set_locked key bid bs ttl now sweep_now c)
      ≡ ref_set stored (is_due c) sweep_now (view c)
  unfolding set_locked ref_set
  set_locked-view =
      let pushed = push_entry stored (drop_existing key c) in
      let swept = sweep_if_due-IsConsistent sweep_now pushed pushed-IsConsistent in
      let c' = sweep_if_due sweep_now pushed in
      ap values (evict-order c' swept)
      ∙ values-take max_entries c'.order
      ∙ ap (take max_entries) (
          ap values (sweep_if_due-order sweep_now pushed pushed-IsConsistent)
          ∙ values-if (is_due pushed) sweep_now pushed.order
          ∙ ap₂ (λ b l. if b then live_values sweep_now l else l) pushed-is_due pushed-values)

-- `Set` stores exactly for a positive time to live.
module _ (key bid bs : Bytes) (ttl : ℤ) (now sweep_now : ℕ) (c : Cache) (v : IsValid c) where
  pub set-IsValid : IsValid (set key bid bs ttl now sweep_now c)
  unfolding set
  set-IsValid = go ttl
    where
      go : (t : ℤ) → IsValid (set key bid bs t now sweep_now c)
      go (pos (suc t)) = set_locked-IsValid key bid bs (suc t) now sweep_now c v.consistent
      go (pos zero) = v
      go (negsuc t) = v

pub set-view :
    (key bid bs : Bytes) (ttl now sweep_now : ℕ) (c : Cache)
    → IsConsistent c
    → view (set key bid bs (pos (suc ttl)) now sweep_now c)
      ≡ ref_set
          (record { key = key; data_bytes = bs; expires_at = now + suc ttl; budget_id = bid })
          (is_due c)
          sweep_now
          (view c)
unfolding set
set-view key bid bs ttl now sweep_now c v = set_locked-view key bid bs (suc ttl) now sweep_now c v

-- `Delete` removes the key and keeps the rest in order.
module _ (key : Bytes) (c : Cache) (v : IsValid c) where
  delete_key-same : delete_key key c ≡ drop_existing key c
  unfolding delete_key drop_existing
  delete_key-same = refl

  pub delete_key-IsValid : IsValid (delete_key key c)
  delete_key-IsValid = rw delete_key-same (record {
    consistent = drop_existing-IsConsistent c key v.consistent;
    bounded = omega (
      arith,
      ap length (drop_existing-order c key v.consistent),
      length-drop_key key c.order,
      v.bounded,
    );
  })

  pub delete_key-view : view (delete_key key c) ≡ drop_value key (view c)
  delete_key-view =
      ap view delete_key-same
      ∙ ap values (drop_existing-order c key v.consistent)
      ∙ values-drop_key key c.order
