-- ===== src/Hub/Index.antt =====
-- The per-budget buckets of internal/ws/hub.go, `map[string]map[*Client]struct{}`.
use financentury_backend.Prelude.{
  ℕ, ◌≡◌, ◌≢◌, refl, Bool, true, false, none, some, List, [], ◌∷◌, map, Bytes, bytes_discrete,
  ℕ_discrete, ite, if_pos, if_neg, if◌then◌else◌, ◌||◌, ◌∙◌, arith, Bool-cases, inl, inr,
}
use financentury_backend.Prelude.Maps.{
  find, delete, assign, member, remove, add, find-delete, find-assign, member-remove, member-add,
}

abbrev pub Buckets : Type 0
Buckets = List (Bytes × List ℕ)

-- The insertion of a client into a budget's bucket, which is made if it is missing.
unfoldable pub index_bid : ℕ → Bytes → Buckets → Buckets
index_bid i b m = elim (find bytes_discrete b m) [
  | none ↦ assign bytes_discrete b (i ∷ []) m
  | some s ↦ assign bytes_discrete b (add ℕ_discrete i s) m
]

-- The loop of the register branch over the snapshot.
unfoldable pub index_all : ℕ → List Bytes → Buckets → Buckets
index_all i [] m = m
index_all i (b ∷ bs) m = index_all i bs (index_bid i b m)

-- An emptied bucket is dropped.
unfoldable pub store_bucket : Bytes → List ℕ → Buckets → Buckets
store_bucket b [] m = delete bytes_discrete b m
store_bucket b (i ∷ s) m = assign bytes_discrete b (i ∷ s) m

-- The bucket part of `UnsubscribeFromBudget`.
unfoldable pub unindex : ℕ → Bytes → Buckets → Buckets
unindex i b m = elim (find bytes_discrete b m) [
  | none ↦ m
  | some s ↦ store_bucket b (remove ℕ_discrete i s) m
]

-- One round of the unregister branch's loop over the buckets.
unfoldable pub drop_from : ℕ → Bytes → Buckets → Buckets
drop_from i b m = elim (find bytes_discrete b m) [
  | none ↦ m
  | some s ↦ if member ℕ_discrete i s then store_bucket b (remove ℕ_discrete i s) m else m
]

unfoldable pub drop_from_all : ℕ → List Bytes → Buckets → Buckets
drop_from_all i [] m = m
drop_from_all i (b ∷ bs) m = drop_from_all i bs (drop_from i b m)

unfoldable pub drop_client : ℕ → Buckets → Buckets
drop_client i m = drop_from_all i (map (λ e. e.0) m) m

-- The client stands in the budget's bucket.
unfoldable pub is_indexed : Bytes → ℕ → Buckets → Bool
is_indexed b i m = elim (find bytes_discrete b m) [ none ↦ false | some s ↦ member ℕ_discrete i s ]

abbrev pub HasFullBuckets : Buckets → Type 0
HasFullBuckets m = (b : Bytes) → find bytes_discrete b m ≢ some []

module _ (i : ℕ) (b : Bytes) (m : Buckets) where
  pub is_indexed-index_bid :
      (b' : Bytes) (j : ℕ)
      → is_indexed b' j (index_bid i b m)
        ≡ ite
            (bytes_discrete b b')
            (ite (ℕ_discrete i j) true (is_indexed b' j m))
            (is_indexed b' j m)
  unfolding is_indexed index_bid member
  is_indexed-index_bid b' j =
      grind (arith, find-assign {V = List ℕ} bytes_discrete b b', member-add ℕ_discrete i j)

  find-store_bucket :
      (s : List ℕ) (b' : Bytes)
      → find bytes_discrete b' (store_bucket b s m)
        ≡ ite
            (bytes_discrete b b')
            (elim s [ [] ↦ none | k ∷ r ↦ some (k ∷ r) ])
            (find bytes_discrete b' m)
  unfolding store_bucket
  find-store_bucket [] b' = find-delete bytes_discrete b b' m
  find-store_bucket (k ∷ s) b' = find-assign bytes_discrete b b' (k ∷ s) m

  pub is_indexed-unindex :
      (b' : Bytes) (j : ℕ)
      → is_indexed b' j (unindex i b m)
        ≡ ite
            (bytes_discrete b b')
            (ite (ℕ_discrete i j) false (is_indexed b' j m))
            (is_indexed b' j m)
  unfolding is_indexed unindex member
  is_indexed-unindex b' j = grind (arith, find-store_bucket, member-remove ℕ_discrete i j)

  drop_from-unindex : drop_from i b m ≡ (if is_indexed b i m then unindex i b m else m)
  unfolding drop_from unindex is_indexed
  drop_from-unindex = ground arith

  pub is_indexed-drop_from :
      (b' : Bytes) (j : ℕ)
      → is_indexed b' j (drop_from i b m)
        ≡ ite
            (bytes_discrete b b')
            (ite (ℕ_discrete i j) false (is_indexed b' j m))
            (is_indexed b' j m)
  is_indexed-drop_from b' j = ground (arith, drop_from-unindex, is_indexed-unindex b' j)

  pub index_bid-HasFullBuckets : HasFullBuckets m → HasFullBuckets (index_bid i b m)
  unfolding index_bid add
  index_bid-HasFullBuckets full b' =
      grind (arith, find-assign {V = List ℕ} bytes_discrete b b', full b')

  pub unindex-HasFullBuckets : HasFullBuckets m → HasFullBuckets (unindex i b m)
  unfolding unindex
  unindex-HasFullBuckets full b' = grind (arith, find-store_bucket, full b')

  pub drop_from-HasFullBuckets : HasFullBuckets m → HasFullBuckets (drop_from i b m)
  drop_from-HasFullBuckets full b' =
      ground (arith, drop_from-unindex, full b', unindex-HasFullBuckets full b')

-- The buckets of the budgets that the loop visits lose the client.
is_indexed-drop_from_all_self :
    (i : ℕ) (bs : List Bytes) (m : Buckets) (b : Bytes)
    → is_indexed b i m ≡ false
    → is_indexed b i (drop_from_all i bs m) ≡ false
unfolding drop_from_all
is_indexed-drop_from_all_self i [] m b h = h
is_indexed-drop_from_all_self i (c ∷ bs) m b h =
    is_indexed-drop_from_all_self i bs (drop_from i c m) b
      (ground (arith, is_indexed-drop_from i c m b i))

is_indexed-drop_from_all_listed :
    (i : ℕ) (bs : List Bytes) (m : Buckets) (b : Bytes)
    → member bytes_discrete b bs ≡ true
    → is_indexed b i (drop_from_all i bs m) ≡ false
unfolding drop_from_all member
is_indexed-drop_from_all_listed i [] m b h = cc
is_indexed-drop_from_all_listed i (c ∷ bs) m b h = elim (bytes_discrete c b) [
  | yes p ↦
      is_indexed-drop_from_all_self i bs (drop_from i c m) b
        (ground (arith, is_indexed-drop_from i c m b i))
  | no p ↦ is_indexed-drop_from_all_listed i bs (drop_from i c m) b (ground arith)
]

is_indexed-drop_from_all_ne :
    (i : ℕ) (bs : List Bytes) (m : Buckets) (b : Bytes) (j : ℕ)
    → i ≢ j
    → is_indexed b j (drop_from_all i bs m) ≡ is_indexed b j m
unfolding drop_from_all
is_indexed-drop_from_all_ne i [] m b j h = refl
is_indexed-drop_from_all_ne i (c ∷ bs) m b j h =
    is_indexed-drop_from_all_ne i bs (drop_from i c m) b j h
    ∙ ground (arith, is_indexed-drop_from i c m b j)

drop_from_all-HasFullBuckets :
    (i : ℕ) (bs : List Bytes) (m : Buckets)
    → HasFullBuckets m
    → HasFullBuckets (drop_from_all i bs m)
unfolding drop_from_all
drop_from_all-HasFullBuckets i [] m f = f
drop_from_all-HasFullBuckets i (c ∷ bs) m f =
    drop_from_all-HasFullBuckets i bs (drop_from i c m) (drop_from-HasFullBuckets i c m f)

listed_of_is_indexed :
    (b : Bytes) (i : ℕ) (m : Buckets)
    → is_indexed b i m ≡ true
    → member bytes_discrete b (map (λ e. e.0) m) ≡ true
unfolding is_indexed find member
listed_of_is_indexed b i [] h = cc
listed_of_is_indexed b i ((c, s) ∷ m) h = elim (bytes_discrete c b) [
  | yes p ↦ ground arith
  | no p ↦ ground (arith, listed_of_is_indexed b i m)
]

module _ (i : ℕ) (m : Buckets) where
  -- After an unregister no bucket holds the client, and the others stay where they were.
  pub is_indexed-drop_client :
      (b : Bytes) (j : ℕ)
      → is_indexed b j (drop_client i m) ≡ ite (ℕ_discrete i j) false (is_indexed b j m)
  unfolding drop_client
  is_indexed-drop_client b j = elim (ℕ_discrete i j) [
    | yes p ↦ rw (if_pos _ p, ← p) (gone b)
    | no p ↦ rw (if_neg _ p) (is_indexed-drop_from_all_ne i (map (λ e. e.0) m) m b j p)
  ]
    where
      gone : (c : Bytes) → is_indexed c i (drop_from_all i (map (λ e. e.0) m) m) ≡ false
      gone c = elim (Bool-cases (is_indexed c i m)) [
        | inl here ↦
            is_indexed-drop_from_all_listed i (map (λ e. e.0) m) m c
              (listed_of_is_indexed c i m here)
        | inr absent ↦ is_indexed-drop_from_all_self i (map (λ e. e.0) m) m c absent
      ]

  pub drop_client-HasFullBuckets : HasFullBuckets m → HasFullBuckets (drop_client i m)
  unfolding drop_client
  drop_client-HasFullBuckets f = drop_from_all-HasFullBuckets i (map (λ e. e.0) m) m f

pub is_indexed-index_all :
    (i : ℕ) (bs : List Bytes) (m : Buckets) (b : Bytes) (j : ℕ)
    → is_indexed b j (index_all i bs m)
      ≡ ite (ℕ_discrete i j) (member bytes_discrete b bs || is_indexed b j m) (is_indexed b j m)
unfolding index_all member
is_indexed-index_all i [] m b j = ground arith
is_indexed-index_all i (c ∷ bs) m b j =
    is_indexed-index_all i bs (index_bid i c m) b j ∙ ground (arith, is_indexed-index_bid i c m b j)

pub index_all-HasFullBuckets :
    (i : ℕ) (bs : List Bytes) (m : Buckets) → HasFullBuckets m → HasFullBuckets (index_all i bs m)
unfolding index_all
index_all-HasFullBuckets i [] m f = f
index_all-HasFullBuckets i (b ∷ bs) m f =
    index_all-HasFullBuckets i bs (index_bid i b m) (index_bid-HasFullBuckets i b m f)
