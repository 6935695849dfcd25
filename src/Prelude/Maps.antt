-- ===== src/Prelude/Maps.antt =====
-- A Go map as an association list, and a Go set `map[K]struct{}` as a list of keys. A write drops
-- the old binding of the key, so a key stands once and the length is Go's `len`.
use mathlib.Core.Path.{◌≡◌}
use mathlib.Core.Logic.{ite}
use mathlib.Core.Bool.{Bool, true, false}
use mathlib.Core.Option.{Option, none, some}
use mathlib.Core.List.{List, [], ◌∷◌}
use native.Mathlib.Omega.{arith}

module _ {ℓ κ} {K : Type ℓ} {V : Type κ} (dec : Discrete K) where
  -- `v, ok := m[k]`
  unfoldable pub find : K → List (K × V) → Option V
  find k [] = none
  find k ((j, v) ∷ m) = elim (dec j k) [ yes _ ↦ some v | no _ ↦ find k m ]

  -- `delete(m, k)`
  unfoldable pub delete : K → List (K × V) → List (K × V)
  delete k [] = []
  delete k ((j, v) ∷ m) = elim (dec j k) [ yes _ ↦ delete k m | no _ ↦ (j, v) ∷ delete k m ]

  -- `m[k] = v`
  unfoldable pub assign : K → V → List (K × V) → List (K × V)
  unfolding delete
  assign k v m = (k, v) ∷ delete k m

  pub find-delete :
      (k j : K) (m : List (K × V)) → find j (delete k m) ≡ ite (dec k j) none (find j m)
  unfolding find delete
  find-delete k j [] = ground arith
  find-delete k j ((i, v) ∷ m) = ground (arith, find-delete k j m)

  pub find-assign :
      (k j : K) (v : V) (m : List (K × V))
      → find j (assign k v m) ≡ ite (dec k j) (some v) (find j m)
  unfolding find assign
  find-assign k j v m = ground (arith, find-delete k j m)

module _ {ℓ} {K : Type ℓ} (dec : Discrete K) where
  unfoldable pub member : K → List K → Bool
  member k [] = false
  member k (j ∷ s) = elim (dec j k) [ yes _ ↦ true | no _ ↦ member k s ]

  unfoldable pub remove : K → List K → List K
  remove k [] = []
  remove k (j ∷ s) = elim (dec j k) [ yes _ ↦ remove k s | no _ ↦ j ∷ remove k s ]

  -- `s[k] = struct{}{}`
  unfoldable pub add : K → List K → List K
  unfolding remove
  add k s = k ∷ remove k s

  pub member-remove :
      (k j : K) (s : List K) → member j (remove k s) ≡ ite (dec k j) false (member j s)
  unfolding member remove
  member-remove k j [] = ground arith
  member-remove k j (i ∷ s) = ground (arith, member-remove k j s)

  pub member-add : (k j : K) (s : List K) → member j (add k s) ≡ ite (dec k j) true (member j s)
  unfolding member add
  member-add k j s = ground (arith, member-remove k j s)
