-- ===== src/Cache/Package.antt =====
-- The package-level functions of internal/cache/cache.go: calls on `Default`, which may be nil, with
-- a structured key.
use financentury_backend.Prelude.{ℕ, suc, ◌≡◌, ◌≢◌, ◌⊎◌, Option, none, some, Bytes, length}
use financentury_backend.Prelude.Int.{ℤ, pos}
use financentury_backend.Cache.Invariant.{IsValid}
use financentury_backend.Cache.Keys.{Key, UuidText, key_string, key_string-injective}
use financentury_backend.Cache.Reads.{get-set_ne}
use financentury_backend.Cache
use financentury_backend.Cache.{Cache}

module _ {Uuid : Type 0} (uuid : UuidText Uuid) where
  -- `Get`
  pub get : Key Uuid → ℕ → Option Cache → Option Cache × Option Bytes
  get k now none = (none, none)
  get k now (some c) = let (c', found) = Cache.get (key_string uuid k) now c in (some c', found)

  -- `Set`
  pub set : Key Uuid → Bytes → ℤ → ℕ → ℕ → Option Cache → Option Cache
  set k bs (pos (suc ttl)) now sweep_now (some c) =
      some
        (Cache.set_locked (key_string uuid k) (uuid.text k.budget_id) bs (suc ttl) now sweep_now c)
  set k bs _ now sweep_now d = d

  -- `Delete`
  pub delete : Key Uuid → Option Cache → Option Cache
  delete k none = none
  delete k (some c) = some (Cache.delete_key (key_string uuid k) c)

  -- `InvalidateBudget`
  pub invalidate_budget : Uuid → Option Cache → Option Cache
  invalidate_budget b none = none
  invalidate_budget b (some c) = some (Cache.invalidate_budget (uuid.text b) c)

  -- A stored value is never returned for another key: another user, budget or endpoint reads what
  -- it read before, or nothing.
  pub get-set_other :
      (c : Cache) (k k' : Key Uuid) (bs : Bytes) (ttl now sweep_now later : ℕ)
      → IsValid c
      → k ≢ k'
      → ((get k' later (set k bs (pos (suc ttl)) now sweep_now (some c))).1 ≡ none)
        ⊎ ((get k' later (set k bs (pos (suc ttl)) now sweep_now (some c))).1
            ≡ (get k' later (some c)).1)
  unfolding get set Cache.set
  get-set_other c k k' bs ttl now sweep_now later v ne =
      get-set_ne c (key_string uuid k) (uuid.text k.budget_id) bs (key_string uuid k') ttl now
        sweep_now later v (λ e. ne (key_string-injective uuid k k' e))

-- `Stats`: hits, misses, size.
pub stats : Option Cache → ℕ × ℕ × ℕ
stats none = (0, 0, 0)
stats (some c) = (c.hits, c.misses, length c.order)
