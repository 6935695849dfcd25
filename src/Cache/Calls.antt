-- ===== src/Cache/Calls.antt =====
-- The calls of internal/cache/cache.go keep the invariant and do what the reference list does.
use financentury_backend.Prelude.{
  ℕ, ◌+◌, ◌≤◌, ◌<◌, ◌≡◌, sym, ap, ◌∙◌, inl, inr, Bool-cases, Option-cases, none, some, ◌∷◌, Bytes,
  arith, length,
}
use financentury_backend.Cache.Order.{Element, move_to_front}
use financentury_backend.Cache.Order.Laws.{
  find_key, drop_key, find_key-key, find_key-All, find_key-drop_key, All-drop_key,
  Distinct-drop_key, drop_key-Differ, holds_found, list_remove_found, length-drop_key,
  length-drop_key_found,
}
use financentury_backend.Cache.Index.{owned}
use financentury_backend.Cache.Invariant.{
  IsConsistent, IsValid, remove_element-order, remove_element-IsConsistent, counters-IsConsistent,
}
use financentury_backend.Cache.Reference.{view, values, ref_get, find_value-values, values-drop_key}
use financentury_backend.Cache.{Cache, max_entries, expired, remove_element, get_hit, get}

module _ (c : Cache) (k : Bytes) (e : Element) (v : IsConsistent c)
    (found : find_key k c.order ≡ some e) where
  move_to_front-order : move_to_front e c.order ≡ e ∷ drop_key k c.order
  unfolding move_to_front
  move_to_front-order =
      rw (holds_found k c.order {e = e} found, list_remove_found k c.order {e = e} v.distinct found)

  find_key-touched : (j : Bytes) → find_key j (e ∷ drop_key k c.order) ≡ find_key j c.order
  unfolding find_key
  find_key-touched j =
      ground (arith, find_key-drop_key k j c.order v.distinct, find_key-key k c.order {e = e} found)

  touched-IsConsistent :
      (hits : ℕ) → IsConsistent (record c { order = move_to_front e c.order; hits = hits })
  touched-IsConsistent hits = rw move_to_front-order (record {
    distinct = (drop_key-Differ k c.order v.distinct found, Distinct-drop_key k c.order v.distinct);
    fresh = (
      find_key-All (λ f. f.addr < c.next) k c.order v.fresh found,
      All-drop_key (λ f. f.addr < c.next) k c.order v.fresh,
    );
    agree = λ j. v.agree j ∙ sym (find_key-touched j);
    indexed = λ b j. v.indexed b j ∙ ap (owned b) (sym (find_key-touched j));
    full_buckets = v.full_buckets;
  })

-- The found and missing cases of `get`.
module _ (c : Cache) (k : Bytes) (now : ℕ) (v : IsConsistent c) where
  get-missing : find_key k c.order ≡ none → get k now c ≡ (record c { misses = c.misses + 1 }, none)
  unfolding get
  get-missing h = rw (v.agree k ∙ h, get)

  get-found : {e : Element} → find_key k c.order ≡ some e → get k now c ≡ get_hit e now c
  unfolding get
  get-found h = rw (v.agree k ∙ h, get)

  get_hit-IsValid :
      (e : Element)
      → find_key k c.order ≡ some e
      → length c.order ≤ max_entries
      → IsValid (get_hit e now c).0
  unfolding get_hit
  get_hit-IsValid e found bound = elim (Bool-cases (expired now e.value)) [
    | inl old ↦
        let same = remove_element-order c e k v found in
        let c' = remove_element e c in
        rw old (record {
          consistent =
              counters-IsConsistent c' c'.hits (c.misses + 1) c'.sets_since_sweep
                (remove_element-IsConsistent c e k v found);
          bounded = omega (arith, ap length same, length-drop_key k c.order);
        })
    | inr fresh ↦ rw fresh (record {
      consistent = touched-IsConsistent c k e v found (c.hits + 1);
      bounded = omega (
        arith,
        ap length (move_to_front-order c k e v found),
        length-drop_key_found k c.order found,
      );
    })
  ]

  get_hit-view :
      (e : Element)
      → find_key k c.order ≡ some e
      → (view (get_hit e now c).0, (get_hit e now c).1) ≡ ref_get k now (view c)
  unfolding get_hit ref_get
  get_hit-view e found = ground (
    arith,
    find_value-values k c.order,
    values-drop_key k c.order,
    ap values (remove_element-order c e k v found),
    ap values (move_to_front-order c k e v found),
  )

  get-missing-view :
      find_key k c.order ≡ none → (view (get k now c).0, (get k now c).1) ≡ ref_get k now (view c)
  unfolding get ref_get
  get-missing-view h = ground (arith, v.agree k, find_value-values k c.order)

pub get-IsValid : (c : Cache) (k : Bytes) (now : ℕ) → IsValid c → IsValid (get k now c).0
get-IsValid c k now v = elim (Option-cases (find_key k c.order)) [
  | inl missing ↦ rw (get-missing c k now v.consistent missing) (record {
    consistent = counters-IsConsistent c c.hits (c.misses + 1) c.sets_since_sweep v.consistent;
    bounded = v.bounded;
  })
  | inr (e, found) ↦
      rw (get-found c k now v.consistent found)
        (get_hit-IsValid c k now v.consistent e found v.bounded)
]

pub get-ref_get :
    (c : Cache) (k : Bytes) (now : ℕ)
    → IsValid c
    → (view (get k now c).0, (get k now c).1) ≡ ref_get k now (view c)
get-ref_get c k now v = elim (Option-cases (find_key k c.order)) [
  | inl missing ↦ get-missing-view c k now v.consistent missing
  | inr (e, found) ↦
      rw (get-found c k now v.consistent found) (get_hit-view c k now v.consistent e found)
]
