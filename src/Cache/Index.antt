-- ===== src/Cache/Index.antt =====
-- The budget index of internal/cache/cache.go, read as a relation between budgets and keys.
use financentury_backend.Prelude.{
  ◌≡◌, ◌≢◌, Bool, true, false, Option, none, some, List, [], ◌∷◌, Bytes, ite, bytes_discrete, arith,
}
use financentury_backend.Prelude.Maps.{
  find, member, add, find-delete, find-assign, member-remove, member-add,
}
use financentury_backend.Cache.Order.{EntryValue, Element}
use financentury_backend.Cache.{drop_bucket, unindex, index_key}

abbrev pub BudgetIndex : Type 0
BudgetIndex = List (Bytes × List Bytes)

-- The key stands in the budget's bucket.
unfoldable pub is_indexed : Bytes → Bytes → BudgetIndex → Bool
is_indexed b k m = elim (find bytes_discrete b m) [
  | none ↦ false
  | some s ↦ member bytes_discrete k s
]

-- The entry, if there is one, belongs to the budget. No entry belongs to the empty budget id.
unfoldable pub owned : Bytes → Option Element → Bool
owned b none = false
owned b (some e) =
    ite (bytes_discrete e.value.budget_id []) false
      (ite (bytes_discrete e.value.budget_id b) true false)

abbrev pub HasFullBuckets : BudgetIndex → Type 0
HasFullBuckets m = (b : Bytes) → find bytes_discrete b m ≢ some []

find-drop_bucket :
    (bid b : Bytes) (s : List Bytes) (m : BudgetIndex)
    → find bytes_discrete b (drop_bucket bid s m)
      ≡ ite
          (bytes_discrete bid b)
          (elim s [ [] ↦ none | k ∷ r ↦ some (k ∷ r) ])
          (find bytes_discrete b m)
unfolding drop_bucket
find-drop_bucket bid b [] m = find-delete bytes_discrete bid b m
find-drop_bucket bid b (k ∷ s) m = find-assign bytes_discrete bid b (k ∷ s) m

module _ (ev : EntryValue) where
  -- An entry's removal takes its key out of its own bucket and out of no other.
  pub is_indexed-unindex :
      (b k : Bytes) (m : BudgetIndex)
      → is_indexed b k (unindex ev m)
        ≡ ite (bytes_discrete ev.budget_id []) (is_indexed b k m) (
            ite
              (bytes_discrete ev.budget_id b)
              (ite (bytes_discrete ev.key k) false (is_indexed b k m))
              (is_indexed b k m))
  unfolding is_indexed unindex member
  is_indexed-unindex b k m = grind (arith, find-drop_bucket, member-remove bytes_discrete ev.key k)

  pub unindex-HasFullBuckets : (m : BudgetIndex) → HasFullBuckets m → HasFullBuckets (unindex ev m)
  unfolding unindex
  unindex-HasFullBuckets m full b = grind (arith, find-drop_bucket, full b)

  pub is_indexed-index_key :
      (b k : Bytes) (m : BudgetIndex)
      → is_indexed b k (index_key ev m)
        ≡ ite (bytes_discrete ev.budget_id []) (is_indexed b k m) (
            ite
              (bytes_discrete ev.budget_id b)
              (ite (bytes_discrete ev.key k) true (is_indexed b k m))
              (is_indexed b k m))
  unfolding is_indexed index_key member
  is_indexed-index_key b k m = grind (
    arith,
    find-assign {V = List Bytes} bytes_discrete ev.budget_id b,
    member-add bytes_discrete ev.key k,
  )

  pub index_key-HasFullBuckets :
      (m : BudgetIndex) → HasFullBuckets m → HasFullBuckets (index_key ev m)
  unfolding index_key add
  index_key-HasFullBuckets m full b =
      grind (arith, find-assign {V = List Bytes} bytes_discrete ev.budget_id b, full b)
