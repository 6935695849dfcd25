-- ===== src/Handlers/Coherence.antt =====
-- internal/handlers/links.go: the cache of link targets against the table of links.
pub mod Kept
pub mod Links
pub mod Requests
use financentury_backend.Prelude.{
  ℕ, suc, ◌+◌, ◌≡◌, ◌≢◌, refl, sym, subst, ap, ◌∙◌, arith, Bool, true, false, Option, none, some,
  List, [], ◌∷◌, ◌==◌, All, ltb, ℕ_discrete, Bool-cases, Option-cases, inl, inr, if◌then◌else◌,
}
use financentury_backend.Prelude.Maps.{find, assign, delete, member}
use financentury_backend.Handlers.Store.{Store, Link, TargetsEntry}
use financentury_backend.Handlers.Replies.{Env, Event}
use financentury_backend.Handlers.Targets.{
  announce, fetch_target_budget_ids, load_targets, targets_of, arrived,
}

-- A cached entry has the targets that the table gives now.
abbrev pub Current : List Link → ℕ × TargetsEntry → Type 0
Current ls (source, entry) = entry.ids ≡ targets_of source ls

unfoldable pub IsCoherent : Store → Type 0
IsCoherent s = All (Current s.links) s.link_targets

delete-Current :
    (ls : List Link) (k : ℕ) (m : List (ℕ × TargetsEntry))
    → All (Current ls) m
    → All (Current ls) (delete ℕ_discrete k m)
unfolding delete
delete-Current ls k [] h = tt
delete-Current ls k ((j, v) ∷ m) (p, h) =
    elim (ℕ_discrete j k)
      as (λ d.
        All (Current ls)
          (elim d [ yes _ ↦ delete ℕ_discrete k m | no _ ↦ (j, v) ∷ delete ℕ_discrete k m ])) [
            | yes _ ↦ delete-Current ls k m h
            | no _ ↦ (p, delete-Current ls k m h)
          ]

-- Entries of other sources stay current when the source's own is dropped.
delete-others :
    (ls ls' : List Link) (k : ℕ)
    → ((j : ℕ) → j ≢ k → targets_of j ls' ≡ targets_of j ls)
    → (m : List (ℕ × TargetsEntry)) → All (Current ls) m
    → All (Current ls') (delete ℕ_discrete k m)
unfolding delete
delete-others ls ls' k f [] h = tt
delete-others ls ls' k f ((j, v) ∷ m) (p, h) =
    elim (ℕ_discrete j k)
      as (λ d.
        All (Current ls')
          (elim d [ yes _ ↦ delete ℕ_discrete k m | no _ ↦ (j, v) ∷ delete ℕ_discrete k m ])) [
            | yes _ ↦ delete-others ls ls' k f m h
            | no n ↦ (p ∙ sym (f j n), delete-others ls ls' k f m h)
          ]

find-Current :
    (ls : List Link) (k : ℕ) (m : List (ℕ × TargetsEntry)) (v : TargetsEntry)
    → find ℕ_discrete k m ≡ some v
    → All (Current ls) m
    → v.ids ≡ targets_of k ls
unfolding find
find-Current ls k [] v f h = cc
find-Current ls k ((j, w) ∷ m) v f (p, h) = ground (arith, find-Current ls k m v)

entries_agree : (s : Store) → IsCoherent s → All (Current s.links) s.link_targets
unfolding IsCoherent
entries_agree s h = h

arrived_all :
    (arrives : ℕ → Bool) (i : ℕ) (ids : List ℕ)
    → ((j : ℕ) → arrives j ≡ true)
    → arrived arrives i ids ≡ ids
unfolding arrived
arrived_all arrives i [] h = refl
arrived_all arrives i (id ∷ ids) h = rw (h i) (ap (◌∷◌ id) (arrived_all arrives (suc i) ids h))

-- What `fetchTargetBudgetIDs` gives from a coherent cache, and leaves.
unfoldable pub FetchedRight : Bool → ℕ → Store → Store × Option (List ℕ) → Type 0
FetchedRight ok b s (s', none) = (ok ≡ false) × IsCoherent s'
FetchedRight ok b s (s', some ids) = (ids ≡ targets_of b s.links) × IsCoherent s'

-- Every row that the statement reads arrives.
abbrev pub Arrives : Env → ℕ → Type 0
Arrives e n = (i : ℕ) → e.arrives n i ≡ true

load_right :
    (e : Env) (n b : ℕ) (s : Store)
    → Arrives e n
    → IsCoherent s
    → FetchedRight (e.answers n) b s (load_targets e n b s)
unfolding load_targets FetchedRight assign IsCoherent
load_right e n b s r h =
    let whole = arrived_all (e.arrives n) 0 (targets_of b s.links) r in
    elim (Bool-cases (e.answers n)) [
      | inl ok ↦ rw ok (whole, (whole, delete-Current s.links b s.link_targets h))
      | inr lost ↦ rw lost (refl, h)
    ]

hit_right :
    (e : Env) (n b : ℕ) (s : Store) (entry : TargetsEntry)
    → Arrives e n
    → entry.ids ≡ targets_of b s.links
    → IsCoherent s
    → FetchedRight
        (e.answers n)
        b
        s
        (if ltb e.now entry.expires_at then (s, some entry.ids) else load_targets e n b s)
unfolding FetchedRight
hit_right e n b s entry r q h =
    elim (ltb e.now entry.expires_at)
      as (λ t.
        FetchedRight (e.answers n) b s (if t then (s, some entry.ids) else load_targets e n b s)) [
          | true ↦ (q, h)
          | false ↦ load_right e n b s r h
        ]

-- While the cached entries agree with the table, and every row that the query gives is read without
-- an error, a lookup gives the budgets that link the source now; it fails only if the database does
-- not answer the query. The entries agree with the table after it.
pub fetch_right :
    (e : Env) (n b : ℕ) (s : Store)
    → Arrives e n
    → IsCoherent s
    → FetchedRight (e.answers n) b s (fetch_target_budget_ids e n b s)
unfolding fetch_target_budget_ids
fetch_right e n b s r h = elim (Option-cases (find ℕ_discrete b s.link_targets)) [
  | inl q ↦ rw (q, fetch_target_budget_ids) (load_right e n b s r h)
  | inr (entry, q) ↦
      rw (q, fetch_target_budget_ids)
        (hit_right e n b s entry r
          (find-Current s.links b s.link_targets entry q (entries_agree s h)) h)
]
