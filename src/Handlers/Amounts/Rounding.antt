-- ===== src/Handlers/Amounts/Rounding.antt =====
-- How far a float64 sum lies below the exact sum.
use Prim.Native.Nat.{◌^◌}
use Prim.Native.Nat.pow
use native.Mathlib.Omega.{div_any}
use native.Mathlib.Nat.{mod-lt, div-one, one-mul}
use financentury_backend.Prelude.{
  ℕ, zero, suc, ◌+◌, ◌*◌, ◌/◌, ◌%◌, ◌≤◌, ◌<◌, ◌≡◌, refl, sym, ap, ◌∙◌, arith, Bool, true, false,
  ◌==◌, ◌&&◌, ◌||◌, ltb, if◌then◌else◌,
}
use financentury_backend.Prelude.Int.{pos, ◌+ℤ◌}
use financentury_backend.Handlers.Amounts.{
  finite, exceeds, plus, rounded, nearest, unit_of, is_below_zero, size,
}

pow-pos : (k : ℕ) → 0 < 2 ^ k
pow-pos zero = omega (arith, pow.zero 2)
pow-pos (suc k) = omega (arith, pow.suc 2 k, pow-pos k)

unit_of-pos : (q : ℕ) → 0 < unit_of q
unfolding unit_of
unit_of-pos q = pow-pos _

-- Rounding a multiple and a remainder.
half_unit :
    (n u m r : ℕ) (up : Bool)
    → u * m + r ≡ n
    → r < u
    → (up ≡ false → 2 * r ≤ u)
    → 2 * n ≤ 2 * (if up then (m + 1) * u else m * u) + u
half_unit n u m r true e lt h = omega arith
half_unit n u m r false e lt h = omega (arith, h refl)

is_up : ℕ → ℕ → Bool
is_up n u = ltb u (2 * (n % u)) || (2 * (n % u) == u) && ((n / u) % 2 == 1)

is_up-false : (n u : ℕ) → is_up n u ≡ false → 2 * (n % u) ≤ u
unfolding is_up
is_up-false n u h = ground arith

-- The rounded number is at most half a unit below.
nearest_below : (n : ℕ) → 2 * n ≤ 2 * nearest n 1 + unit_of n
unfolding nearest is_up
nearest_below n =
    let u = unit_of n in
    rw (div-one n) (
      rw (one-mul u) (
        half_unit n u (n / u) (n % u) (is_up n u) (div_any n u) (mod-lt n (unit_of-pos n))
          (is_up-false n u)))

plus_zero : (n : ℕ) → n + 0 ≡ n
plus_zero n = omega arith

pos-+ℤ : (a b : ℕ) → pos a +ℤ pos b ≡ pos (a + b)
unfolding ◌+ℤ◌
pos-+ℤ a b = ground arith

plus-rounded : (a b : ℕ) → plus (finite (pos a)) (finite (pos b)) ≡ rounded false (a + b) 1
unfolding plus
plus-rounded a b =
    ap (λ x. rounded (is_below_zero x) (size x) 1) (pos-+ℤ a b)
    ∙ ap (λ n. rounded false n 1) (plus_zero (a + b))

rounded-exceeds : (n c : ℕ) → exceeds (rounded false n 1) (finite (pos c)) ≡ false → nearest n 1 ≤ c
unfolding exceeds rounded
rounded-exceeds n c h = ground arith

-- What passes the test `a + b > c` fits up to half a unit of the sum.
pub plus-exceeds :
    (a b c : ℕ)
    → exceeds (plus (finite (pos a)) (finite (pos b))) (finite (pos c)) ≡ false
    → 2 * (a + b) ≤ 2 * c + unit_of (a + b)
plus-exceeds a b c h =
    let fits =
      rounded-exceeds (a + b) c
        (ap (λ x. exceeds x (finite (pos c))) (sym (plus-rounded a b)) ∙ h) in
    omega (arith, fits, nearest_below (a + b))
