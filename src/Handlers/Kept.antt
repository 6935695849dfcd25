-- ===== src/Handlers/Kept.antt =====
-- Announcing a write changes nothing but the cache of link targets.
use financentury_backend.Prelude.{ℕ, ◌≡◌, refl, ap, arith, Bool-cases, inl, inr, List}
use financentury_backend.Handlers.Store.{Store, TargetsEntry}
use financentury_backend.Handlers.Replies.{Env, Event, Body}
use financentury_backend.Handlers.Targets.{announce, fetch_target_budget_ids, load_targets}
use financentury_backend.Handlers.Expenses.{told}

-- The store with another cache.
abbrev pub with_targets : List (ℕ × TargetsEntry) → Store → Store
with_targets m s = record s { link_targets = m }

load-kept :
    (e : Env) (n b : ℕ) (s : Store)
    → (load_targets e n b s).0 ≡ with_targets (load_targets e n b s).0.link_targets s
unfolding load_targets
load-kept e n b s = elim (Bool-cases (e.answers n)) [
  | inl ok ↦ rw ok refl
  | inr lost ↦ rw lost refl
]

fetch-kept :
    (e : Env) (n b : ℕ) (s : Store)
    → (fetch_target_budget_ids e n b s).0
      ≡ with_targets (fetch_target_budget_ids e n b s).0.link_targets s
unfolding fetch_target_budget_ids
fetch-kept e n b s = ground (arith, load-kept e n b s)

announce-kept :
    (e : Env) (b : ℕ) (event : Event) (s : Store)
    → (announce e b event s).0 ≡ with_targets (announce e b event s).0.link_targets s
unfolding announce
announce-kept e b event s =
    ground (arith, fetch-kept e 8 b s, fetch-kept e 9 b (fetch_target_budget_ids e 8 b s).0)

pub told-kept :
    (e : Env) (b : ℕ) (event : Event) (n : ℕ) (body : Body) (s : Store)
    → (told e b event n body s).store ≡ with_targets (told e b event n body s).store.link_targets s
unfolding told
told-kept e b event n body s = announce-kept e b event s

module _ (e : Env) (b : ℕ) (event : Event) (n : ℕ) (body : Body) (s : Store) where
  pub told-budgets : (told e b event n body s).store.budgets ≡ s.budgets
  told-budgets = ap (λ (x : Store). x.budgets) (told-kept e b event n body s)

  pub told-categories : (told e b event n body s).store.categories ≡ s.categories
  told-categories = ap (λ (x : Store). x.categories) (told-kept e b event n body s)

  pub told-links : (told e b event n body s).store.links ≡ s.links
  told-links = ap (λ (x : Store). x.links) (told-kept e b event n body s)

  pub told-collaborators : (told e b event n body s).store.collaborators ≡ s.collaborators
  told-collaborators = ap (λ (x : Store). x.collaborators) (told-kept e b event n body s)
