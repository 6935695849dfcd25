-- ===== src/Cache/Invariant.antt =====
-- The invariant of internal/cache/cache.go: the entry map, the eviction order and the budget index
-- describe the same entries.
use financentury_backend.Prelude.{
  ℕ, ◌+◌, ◌≤◌, ◌<◌, ◌≡◌, sym, ◌∙◌, inl, inr, Option-cases, none, some, Bytes, bytes_discrete, arith,
  All, All-map, All-both, length, ◌≢◌,
}
use financentury_backend.Prelude.Maps.{find, find-delete, find-assign}
use financentury_backend.Cache.Order.{EntryValue, Element}
use financentury_backend.Cache.Order.Laws.{
  find_key, drop_key, Differ, Distinct, list_remove_found, find_key-drop_key, All-drop_key,
  All-ne_of_find_key-none, drop_key_absent, Distinct-drop_key, find_key-key,
}
use financentury_backend.Cache.Index.{
  is_indexed, owned, HasFullBuckets, is_indexed-unindex, unindex-HasFullBuckets,
  is_indexed-index_key, index_key-HasFullBuckets,
}
use financentury_backend.Cache.{Cache, max_entries, remove_element, drop_existing, push_entry}

pub record IsConsistent (c : Cache) : Type 0 where
  pub distinct : Distinct c.order
  pub fresh : All (λ e. e.addr < c.next) c.order
  pub agree : (k : Bytes) → find bytes_discrete k c.entries ≡ find_key k c.order
  pub indexed : (b k : Bytes) → is_indexed b k c.budget_index ≡ owned b (find_key k c.order)
  pub full_buckets : HasFullBuckets c.budget_index

pub record IsValid (c : Cache) : Type 0 where
  pub consistent : IsConsistent c
  pub bounded : length c.order ≤ max_entries

module _ (c : Cache) (e : Element) (k : Bytes) (v : IsConsistent c)
    (found : find_key k c.order ≡ some e) where
  pub remove_element-order : (remove_element e c).order ≡ drop_key k c.order
  unfolding remove_element
  remove_element-order = list_remove_found k c.order v.distinct found

  remove_element-agree :
      (j : Bytes)
      → find bytes_discrete j (remove_element e c).entries ≡ find_key j (drop_key k c.order)
  unfolding remove_element
  remove_element-agree j = ground (
    arith,
    find-delete {V = Element} bytes_discrete e.value.key j c.entries,
    find_key-drop_key k j c.order v.distinct,
    find_key-key k c.order {e = e} found,
    v.agree j,
  )

  remove_element-indexed :
      (b j : Bytes)
      → is_indexed b j (remove_element e c).budget_index ≡ owned b (find_key j (drop_key k c.order))
  unfolding remove_element owned
  remove_element-indexed b j = ground (
    arith,
    is_indexed-unindex e.value b j c.budget_index,
    find_key-drop_key k j c.order v.distinct,
    find_key-key k c.order {e = e} found,
    v.indexed b j,
  )

  pub remove_element-IsConsistent : IsConsistent (remove_element e c)
  unfolding remove_element
  remove_element-IsConsistent = record {
    distinct = rw remove_element-order (Distinct-drop_key k c.order v.distinct);
    fresh = rw remove_element-order (All-drop_key (λ f. f.addr < c.next) k c.order v.fresh);
    agree = λ j. rw remove_element-order (remove_element-agree j);
    indexed = λ b j. rw remove_element-order (remove_element-indexed b j);
    full_buckets = unindex-HasFullBuckets e.value c.budget_index v.full_buckets;
  }

-- `drop_existing` removes the key, whether or not it is there.
module _ (c : Cache) (k : Bytes) (v : IsConsistent c) where
  pub drop_existing-order : (drop_existing k c).order ≡ drop_key k c.order
  unfolding drop_existing
  drop_existing-order = elim (Option-cases (find bytes_discrete k c.entries)) [
    | inl missing ↦
        rw (missing, drop_existing) (sym (drop_key_absent k c.order (sym (v.agree k) ∙ missing)))
    | inr (e, found) ↦
        rw (found, drop_existing) (remove_element-order c e k v (sym (v.agree k) ∙ found))
  ]

  pub drop_existing-IsConsistent : IsConsistent (drop_existing k c)
  unfolding drop_existing
  drop_existing-IsConsistent = elim (Option-cases (find bytes_discrete k c.entries)) [
    | inl missing ↦ rw (missing, drop_existing) v
    | inr (e, found) ↦
        rw (found, drop_existing) (remove_element-IsConsistent c e k v (sym (v.agree k) ∙ found))
  ]

module _ (c : Cache) (ev : EntryValue) (v : IsConsistent c)
    (new : find_key ev.key c.order ≡ none) where
  pub push_entry-IsConsistent : IsConsistent (push_entry ev c)
  unfolding push_entry find_key owned
  push_entry-IsConsistent = record {
    distinct = (
      All-map (λ f. (f.addr < c.next) × (f.value.key ≢ ev.key))
          (Differ (record { addr = c.next; value = ev })) (λ f h. (omega arith, h.1)) c.order
          (All-both (λ f. f.addr < c.next) (λ f. f.value.key ≢ ev.key) c.order v.fresh
            (All-ne_of_find_key-none ev.key c.order new)),
      v.distinct,
    );
    fresh = (
      omega arith,
      All-map (λ f. f.addr < c.next) (λ f. f.addr < c.next + 1) (λ f h. omega arith) c.order
          v.fresh,
    );
    agree = λ j. ground (
      arith,
      find-assign {V = Element} bytes_discrete ev.key j (record { addr = c.next; value = ev })
          c.entries,
      v.agree j,
    );
    indexed = λ b j. ground (arith, is_indexed-index_key ev b j c.budget_index, v.indexed b j);
    full_buckets = index_key-HasFullBuckets ev c.budget_index v.full_buckets;
  }

-- The counters are no part of the invariant.
pub counters-IsConsistent :
    (c : Cache) (hits misses sets : ℕ)
    → IsConsistent c
    → IsConsistent (record c { hits = hits; misses = misses; sets_since_sweep = sets })
counters-IsConsistent c hits misses sets v = record {
  distinct = v.distinct;
  fresh = v.fresh;
  agree = v.agree;
  indexed = v.indexed;
  full_buckets = v.full_buckets;
}
