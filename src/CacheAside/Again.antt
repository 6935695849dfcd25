-- ===== src/CacheAside/Again.antt =====
-- Reads through the cache of internal/redis/cacheaside.go, whatever the cache drops.
use financentury_backend.Prelude.{Bytes}
use financentury_backend.CacheAside.{Loaded, loaded, load_failed}

-- The data are right for the key.
abbrev pub Holds : (Bytes → Bytes → Type 0) → Bytes → Loaded → Type 0
Holds Right key (loaded bs) = Right key bs
Holds Right key (load_failed e) = Unit
