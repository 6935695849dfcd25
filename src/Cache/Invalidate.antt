-- ===== src/Cache/Invalidate.antt =====
-- `InvalidateBudget` of internal/cache/cache.go removes the budget's entries and no other.
use financentury_backend.Prelude.{
  ◌≤◌, ◌<◌, ◌≢◌, ◌≡◌, refl, sym, ap, subst, ◌∙◌, inl, inr, not, Option-cases, some, none, List, [],
  ◌∷◌, Bytes, bytes_discrete, arith, All, All-map, length, select, if◌then◌else◌, Bool-cases,
}
use financentury_backend.Prelude.Maps.{find, delete, member, find-delete}
use financentury_backend.Cache.Order.{Element}
use financentury_backend.Cache.Order.Laws.{
  find_key, drop_key, Distinct, All-key, find_key-drop_key, list_remove_found, All-drop_key,
  Distinct-drop_key, drop_key_absent,
}
use financentury_backend.Cache.Index.{is_indexed, owned}
use financentury_backend.Cache.Sweep.{Present-self}
use financentury_backend.Cache.Invariant.{IsConsistent, IsValid}
use financentury_backend.Cache.Reference.{view, values, of_budget, ref_invalidate}
use financentury_backend.Cache.{Cache, drop_keys, drop_one, invalidate_budget}

-- What is left of the invariant while the index is out of date.
record AreEntries (c : Cache) : Type 0 where
  distinct : Distinct c.order
  fresh : All (λ e. e.addr < c.next) c.order
  agree : (k : Bytes) → find bytes_discrete k c.entries ≡ find_key k c.order

module _ (k : Bytes) (c : Cache) (v : AreEntries c) where
  drop_one-order : (drop_one k c).order ≡ drop_key k c.order
  unfolding drop_one
  drop_one-order = elim (Option-cases (find_key k c.order)) [
    | inl missing ↦ rw (v.agree k ∙ missing, drop_one) (sym (drop_key_absent k c.order missing))
    | inr (e, found) ↦
        rw (v.agree k ∙ found, drop_one) (list_remove_found k c.order v.distinct found)
  ]

  drop_one-find :
      (j : Bytes) → find bytes_discrete j (drop_one k c).entries ≡ find_key j (drop_key k c.order)
  unfolding drop_one
  drop_one-find j = ground (
    arith,
    find-delete {V = Element} bytes_discrete k j c.entries,
    find_key-drop_key k j c.order v.distinct,
    v.agree k,
    v.agree j,
  )

  drop_one-next : (drop_one k c).next ≡ c.next
  unfolding drop_one
  drop_one-next = ground arith

  drop_one-AreEntries : AreEntries (drop_one k c)
  drop_one-AreEntries = record {
    distinct = rw drop_one-order (Distinct-drop_key k c.order v.distinct);
    fresh =
        rw (drop_one-order, drop_one-next) (All-drop_key (λ f. f.addr < c.next) k c.order v.fresh);
    agree = λ j. rw drop_one-order (drop_one-find j);
  }

-- The elements whose key is not in a list of keys.
abbrev without : List Bytes → List Element → List Element
without s = select (λ e. not (member bytes_discrete e.value.key s))

without_absent :
    (k : Bytes) (s : List Bytes) (l : List Element)
    → All (λ e. e.value.key ≢ k) l
    → without s l ≡ without (k ∷ s) l
unfolding member
without_absent k s [] a = refl
without_absent k s (f ∷ l) (p, a) =
    ground (arith, without_absent k s l a, λ (q : k ≡ f.value.key). p (sym q))

drop_key-without :
    (k : Bytes) (s : List Bytes) (l : List Element)
    → Distinct l
    → without s (drop_key k l) ≡ without (k ∷ s) l
unfolding drop_key member
drop_key-without k s [] d = refl
drop_key-without k s (f ∷ l) (a, d) = ground (
  arith,
  drop_key-without k s l d,
  λ (q : f.value.key ≡ k). without_absent k s l (All-key f k l a q),
)

drop_keys-AreEntries : (s : List Bytes) (c : Cache) → AreEntries c → AreEntries (drop_keys s c)
unfolding drop_keys
drop_keys-AreEntries [] c v = v
drop_keys-AreEntries (k ∷ s) c v = drop_keys-AreEntries s (drop_one k c) (drop_one-AreEntries k c v)

without-nil : (l : List Element) → without [] l ≡ l
unfolding member
without-nil [] = refl
without-nil (f ∷ l) = ap (◌∷◌ f) (without-nil l)

drop_keys-order :
    (s : List Bytes) (c : Cache) → AreEntries c → (drop_keys s c).order ≡ without s c.order
unfolding drop_keys
drop_keys-order [] c v = sym (without-nil c.order)
drop_keys-order (k ∷ s) c v =
    drop_keys-order s (drop_one k c) (drop_one-AreEntries k c v)
    ∙ ap (without s) (drop_one-order k c v)
    ∙ drop_key-without k s c.order v.distinct

drop_one-index : (k : Bytes) (c : Cache) → (drop_one k c).budget_index ≡ c.budget_index
unfolding drop_one
drop_one-index k c = ground arith

drop_keys-index : (s : List Bytes) (c : Cache) → (drop_keys s c).budget_index ≡ c.budget_index
unfolding drop_keys
drop_keys-index [] c = refl
drop_keys-index (k ∷ s) c = drop_keys-index s (drop_one k c) ∙ drop_one-index k c

find_key-without :
    (k : Bytes) (s : List Bytes) (l : List Element)
    → find_key k (without s l) ≡ (if member bytes_discrete k s then none else find_key k l)
unfolding find_key
find_key-without k s [] = ground arith
find_key-without k s (f ∷ l) =
    ground (
      arith,
      find_key-without k s l,
      λ (q : f.value.key ≡ k). ap (λ j. member bytes_discrete j s) q,
    )

-- The keys that the index gives for a budget.
bucket : Bytes → Cache → List Bytes
bucket b c = elim (find bytes_discrete b c.budget_index) [ none ↦ [] | some s ↦ s ]

module _ (b : Bytes) (c : Cache) (v : IsConsistent c) where
  kept : AreEntries c
  kept = record { distinct = v.distinct; fresh = v.fresh; agree = v.agree }

  member-bucket : (k : Bytes) → member bytes_discrete k (bucket b c) ≡ owned b (find_key k c.order)
  unfolding bucket is_indexed member
  member-bucket k = ground (arith, v.indexed b k)

  bucket-of_budget :
      All (λ e. member bytes_discrete e.value.key (bucket b c) ≡ of_budget b e.value) c.order
  unfolding owned
  bucket-of_budget =
      All-map (λ e. find_key e.value.key c.order ≡ some e)
        (λ e. member bytes_discrete e.value.key (bucket b c) ≡ of_budget b e.value)
        (λ e p. member-bucket e.value.key ∙ ap (owned b) p) c.order
        (Present-self c.order v.distinct)

  -- The cache with the bucket's keys gone, whether or not there is a bucket.
  emptied : Cache
  emptied =
      let c' = drop_keys (bucket b c) c in
      record c' { budget_index = delete bytes_discrete b c.budget_index }

  emptied-order : emptied.order ≡ without (bucket b c) c.order
  unfolding emptied
  emptied-order = drop_keys-order (bucket b c) c kept

  emptied-indexed :
      (b' k : Bytes) → is_indexed b' k emptied.budget_index ≡ owned b' (find_key k emptied.order)
  unfolding emptied is_indexed owned
  emptied-indexed b' k = ground (
    arith,
    v.indexed b' k,
    member-bucket k,
    find_key-without k (bucket b c) c.order,
    ap (find_key k) (drop_keys-order (bucket b c) c kept),
    find-delete {V = List Bytes} bytes_discrete b b' c.budget_index,
  )

  emptied-IsConsistent : IsConsistent emptied
  unfolding emptied
  emptied-IsConsistent =
      let after = drop_keys-AreEntries (bucket b c) c kept in
      record {
        distinct = after.distinct;
        fresh = after.fresh;
        agree = after.agree;
        indexed = emptied-indexed;
        full_buckets = λ b'. ground (
          arith,
          find-delete {V = List Bytes} bytes_discrete b b' c.budget_index,
          v.full_buckets b',
        );
      }

values-without :
    (b : Bytes) (s : List Bytes) (l : List Element)
    → All (λ e. member bytes_discrete e.value.key s ≡ of_budget b e.value) l
    → values (without s l) ≡ ref_invalidate b (values l)
values-without b s [] a = refl
values-without b s (e ∷ l) (p, a) = elim (Bool-cases (of_budget b e.value)) [
  | inl own ↦ rw (p, own) (values-without b s l a)
  | inr other ↦ rw (p, other) (ap (◌∷◌ e.value) (values-without b s l a))
]

module _ (b : Bytes) (c : Cache) (v : IsConsistent c) where
  invalidate_budget-order : (invalidate_budget b c).order ≡ without (bucket b c) c.order
  unfolding invalidate_budget bucket
  invalidate_budget-order = elim (Option-cases (find bytes_discrete b c.budget_index)) [
    | inl missing ↦ rw (missing, invalidate_budget, bucket) (sym (without-nil c.order))
    | inr (s, found) ↦
        rw (found, invalidate_budget, bucket)
          (drop_keys-order s c (record { distinct = v.distinct; fresh = v.fresh; agree = v.agree }))
  ]

  invalidate_budget-emptied :
      (s : List Bytes)
      → find bytes_discrete b c.budget_index ≡ some s
      → invalidate_budget b c ≡ emptied b c v
  unfolding invalidate_budget emptied bucket
  invalidate_budget-emptied s found =
      rw (found, invalidate_budget, emptied, bucket) (rw (drop_keys-index s c))

  invalidate_budget-IsConsistent : IsConsistent (invalidate_budget b c)
  unfolding invalidate_budget
  invalidate_budget-IsConsistent = elim (Option-cases (find bytes_discrete b c.budget_index)) [
    | inl missing ↦ rw (missing, invalidate_budget) v
    | inr (s, found) ↦
        subst IsConsistent (sym (invalidate_budget-emptied s found)) (emptied-IsConsistent b c v)
  ]

  -- The entries of the budget go, and all others stay in their order.
  pub invalidate_budget-view : view (invalidate_budget b c) ≡ ref_invalidate b (view c)
  invalidate_budget-view =
      ap values invalidate_budget-order
      ∙ values-without b (bucket b c) c.order (bucket-of_budget b c v)

length-without-le : (s : List Bytes) (l : List Element) → length (without s l) ≤ length l
length-without-le s [] = omega arith
length-without-le s (e ∷ l) = ground (arith, length-without-le s l)

pub invalidate_budget-IsValid :
    (b : Bytes) (c : Cache) → IsValid c → IsValid (invalidate_budget b c)
invalidate_budget-IsValid b c v = record {
  consistent = invalidate_budget-IsConsistent b c v.consistent;
  bounded = omega (
    arith,
    ap length (invalidate_budget-order b c v.consistent),
    length-without-le (bucket b c) c.order,
  );
}

-- A key is found afterwards exactly if its entry was another budget's.
pub find_key-invalidate_budget :
    (b k : Bytes) (c : Cache)
    → IsConsistent c
    → find_key k (invalidate_budget b c).order
      ≡ (if owned b (find_key k c.order) then none else find_key k c.order)
find_key-invalidate_budget b k c v =
    ap (find_key k) (invalidate_budget-order b c v)
    ∙ find_key-without k (bucket b c) c.order
    ∙ ap (λ t. if t then none else find_key k c.order) (member-bucket b c v k)
