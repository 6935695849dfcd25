-- ===== src/CacheAside.antt =====
-- internal/redis/cacheaside.go: reading through a shared cache. The cache behind the interface is a
-- parameter, which acts on a state; the empty slot is the cache that stores nothing.
pub mod Again
mod Tests
use financentury_backend.Prelude.{
  ℕ, zero, suc, Bool, true, false, ◌&&◌, Option, none, some, List, [], ◌∷◌, Bytes, if◌then◌else◌,
}
use financentury_backend.Prelude.Int.{ℤ, pos, negsuc}

-- What a loader gives.
pub data Loaded : Type 0 where
  loaded : Bytes → Loaded
  load_failed : Bytes → Loaded

-- The interface `Cache`, whose calls change the state of what is behind it.
pub record CacheOps (S : Type 0) : Type 0 where
  pub get : Bytes → S → S × Option Bytes
  pub set : Bytes → Bytes → ℤ → S → S
  pub delete : List Bytes → S → S
  pub delete_pattern : Bytes → S → S
  pub close : S → S

abbrev is_positive : ℤ → Bool
is_positive (pos (suc n)) = true
is_positive _ = false

abbrev is_filled : Bytes → Bool
is_filled [] = false
is_filled (c ∷ s) = true

-- The slot `defaultRef`: none is `noopCache{}`.
module _ {S : Type 0} where
  -- `SetDefault`, where nil is the empty slot, and `CloseDefault`.
  pub set_default : Option (CacheOps S) → Option (CacheOps S) → Option (CacheOps S)
  set_default c slot = c

  pub close_default : Option (CacheOps S) → S → Option (CacheOps S) × S
  close_default none s = (none, s)
  close_default (some c) s = (none, c.close s)

  -- `Get`, `Set`, `Delete` and `DeletePattern` on `GetDefault()`.
  pub get : Option (CacheOps S) → Bytes → S → S × Option Bytes
  get none key s = (s, none)
  get (some c) key s = c.get key s

  pub set : Option (CacheOps S) → Bytes → Bytes → ℤ → S → S
  set none key value ttl s = s
  set (some c) key value ttl s = c.set key value ttl s

  pub delete : Option (CacheOps S) → List Bytes → S → S
  delete none keys s = s
  delete (some c) keys s = c.delete keys s

  pub delete_pattern : Option (CacheOps S) → Bytes → S → S
  delete_pattern none pattern s = s
  delete_pattern (some c) pattern s = c.delete_pattern pattern s

  -- `CacheAside` after a miss.
  pub store_loaded : Option (CacheOps S) → Bytes → ℤ → Loaded → S → S × Loaded
  store_loaded slot key ttl (load_failed e) s = (s, load_failed e)
  store_loaded slot key ttl (loaded bs) s =
      ((if is_positive ttl && is_filled bs then set slot key bs ttl s else s), loaded bs)

  -- `CacheAside`; the loader may use the cache too.
  pub cache_aside : Option (CacheOps S) → Bytes → ℤ → (S → S × Loaded) → S → S × Loaded
  cache_aside slot key ttl loader s =
      let (s', found) = get slot key s in
      elim found [
        | some bs ↦ (s', loaded bs)
        | none ↦ let (s'', result) = loader s' in store_loaded slot key ttl result s''
      ]
