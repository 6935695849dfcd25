-- ===== src/CacheAside/Tests.antt =====
-- The cache of internal/redis/cacheaside.go over a list of bindings.
use financentury_backend.Prelude.{◌≡◌, List, [], Bytes, bytes, bytes_discrete, All}
use financentury_backend.Prelude.Maps.{find, assign, delete}
use financentury_backend.CacheAside.{Loaded, loaded, CacheOps}

abbrev Store : Type 0
Store = List (Bytes × Bytes)

abbrev bindings : CacheOps Store
bindings = record {
  get = λ key s. (s, find bytes_discrete key s);
  set = λ key value ttl s. assign bytes_discrete key value s;
  delete = λ keys s. s;
  delete_pattern = λ pattern s. s;
  close = λ s. [];
}

-- Every key has the same right data.
abbrev Me : Bytes → Bytes → Type 0
Me key value = value ≡ bytes "me"

abbrev HoldsMe : Store → Type 0
HoldsMe s = All (λ p. p.1 ≡ bytes "me") s

abbrev first_loader : Store → Store × Loaded
first_loader s = (s, loaded (bytes "me"))
