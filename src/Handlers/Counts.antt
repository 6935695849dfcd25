-- ===== src/Handlers/Counts.antt =====
-- Counts of rows under the statements that change rows.
use financentury_backend.Prelude.{◌≤◌, ◌≡◌, refl, arith, Bool, List, [], ◌∷◌}
use financentury_backend.Handlers.Store.{count, update, delete_first, discard}

module _ {A : Type 0} (p q : A → Bool) where
  pub count-discard : (xs : List A) → count p (discard q xs) ≤ count p xs
  unfolding count discard
  count-discard [] = omega arith
  count-discard (x ∷ xs) = ground (arith, count-discard xs)

  pub count-delete_first : (xs : List A) → count p (delete_first q xs) ≤ count p xs
  unfolding count delete_first
  count-delete_first [] = omega arith
  count-delete_first (x ∷ xs) = ground (arith, count-delete_first xs)

  pub count-update :
      (f : A → A) → ((x : A) → p (f x) ≡ p x) → (xs : List A) → count p (update q f xs) ≡ count p xs
  unfolding count update
  count-update f k [] = refl
  count-update f k (x ∷ xs) = ground (arith, k x, count-update f k xs)
