-- ===== src/Handlers/Amounts.antt =====
-- The float64 amounts of the requests: NaN, the infinities, and the finite values as whole multiples
-- of 2^-1074, the distance of the smallest ones. Sums, products and quotients are rounded to the
-- nearest float64, ties to even, as Go's operators and math.Floor and math.Round do.
pub mod Rounding
use Prim.Native.Nat.{◌^◌}
use financentury_backend.Prelude.{
  ℕ, zero, suc, ◌+◌, ◌-◌, ◌*◌, ◌/◌, ◌%◌, ◌≡◌, refl, Bool, true, false, not, ◌&&◌, ◌||◌, ◌==◌, ltb,
  if◌then◌else◌,
}
use financentury_backend.Prelude.Int.{ℤ, pos, negsuc, pos_part, neg_part, ◌+ℤ◌}

-- `infinite true` is -Inf. The two zeros, which no test of the code tells apart, are one.
pub data Amount : Type 0 where
  nan : Amount
  infinite : Bool → Amount
  finite : ℤ → Amount

-- 1.0 in steps of 2^-1074, and 2^1024, from which on a value is infinite.
unfoldable pub one : ℕ
one = 2 ^ 1074

abbrev too_large : ℕ
too_large = 2 ^ 2098

unfoldable pub nothing : Amount
nothing = finite (pos 0)

-- `maxAmountValue`, 1e15.
unfoldable pub max_amount_value : Amount
max_amount_value = finite (pos (1_000_000_000_000_000 * one))

abbrev pub is_finite : Amount → Bool
is_finite (finite a) = true
is_finite _ = false

-- `a > b`
unfoldable pub exceeds : Amount → Amount → Bool
exceeds (finite a) (finite b) = ltb (pos_part b + neg_part a) (pos_part a + neg_part b)
exceeds (finite a) (infinite s) = s
exceeds (infinite s) (finite b) = not s
exceeds (infinite s) (infinite t) = not s && t
exceeds (finite a) nan = false
exceeds (infinite s) nan = false
exceeds nan b = false

-- `a <= b`, which NaN is not.
unfoldable pub at_most : Amount → Amount → Bool
unfolding exceeds
at_most nan b = false
at_most a nan = false
at_most a b = not (exceeds a b)

-- The number of binary digits; `n` rounds are enough, since each halves.
unfoldable bits_from : ℕ → ℕ → ℕ
bits_from zero n = 0
bits_from (suc fuel) zero = 0
bits_from (suc fuel) (suc n) = suc (bits_from fuel (suc n / 2))

-- The distance between float64s of the size.
unfoldable pub unit_of : ℕ → ℕ
unfolding bits_from
unit_of q = 2 ^ (bits_from q q - 53)

-- The numerator over the denominator, in steps, to 53 binary digits.
unfoldable pub nearest : ℕ → ℕ → ℕ
unfolding unit_of
nearest n d =
    let unit = unit_of (n / d) in
    let m = n / (d * unit) in
    let twice = 2 * (n % (d * unit)) in
    if ltb (d * unit) twice || (twice == d * unit) && (m % 2 == 1) then (m + 1) * unit else m * unit

abbrev signed : Bool → ℕ → ℤ
signed true (suc n) = negsuc n
signed s n = pos n

abbrev pub is_below_zero : ℤ → Bool
is_below_zero (pos n) = false
is_below_zero (negsuc n) = true

abbrev pub size : ℤ → ℕ
size a = pos_part a + neg_part a

unfoldable pub rounded : Bool → ℕ → ℕ → Amount
unfolding nearest
rounded s n d = let m = nearest n d in if ltb m too_large then finite (signed s m) else infinite s

abbrev differ : Bool → Bool → Bool
differ true t = not t
differ false t = t

-- `a + b`
unfoldable pub plus : Amount → Amount → Amount
unfolding rounded ◌+ℤ◌
plus (finite a) (finite b) = rounded (is_below_zero (a +ℤ b)) (size (a +ℤ b)) 1
plus (finite a) (infinite s) = infinite s
plus (infinite s) (finite b) = infinite s
plus (infinite s) (infinite t) = if differ s t then nan else infinite s
plus (finite a) nan = nan
plus (infinite s) nan = nan
plus nan b = nan

-- `a - b`
unfoldable pub minus : Amount → Amount → Amount
unfolding plus
minus a (finite b) = plus a (finite (signed (not (is_below_zero b)) (size b)))
minus a (infinite s) = plus a (infinite (not s))
minus a nan = nan

-- `a * b`
unfoldable pub times : Amount → Amount → Amount
unfolding rounded
times (finite a) (finite b) =
    rounded (differ (is_below_zero a) (is_below_zero b)) (size a * size b) one
times (finite a) (infinite s) = if size a == 0 then nan else infinite (differ (is_below_zero a) s)
times (infinite s) (finite b) = if size b == 0 then nan else infinite (differ s (is_below_zero b))
times (infinite s) (infinite t) = infinite (differ s t)
times (finite a) nan = nan
times (infinite s) nan = nan
times nan b = nan

-- `a / 100`, `math.Floor` and `math.Round`.
unfoldable pub percent_of : Amount → Amount
unfolding rounded
percent_of (finite a) = rounded (is_below_zero a) (size a) 100
percent_of a = a

unfoldable pub floor : Amount → Amount
floor (finite (pos n)) = finite (pos (n / one * one))
floor (finite (negsuc n)) = finite (signed true ((n + one) / one * one))
floor a = a

unfoldable pub round : Amount → Amount
round (finite a) = finite (signed (is_below_zero a) ((2 * size a + one) / (2 * one) * one))
round a = a

unfoldable pub hundred : Amount
hundred = finite (pos (100 * one))

-- A number of tenths that a float64 holds exactly, and a number of cents as Go reads it.
unfoldable pub of_tenths : ℕ → Amount
of_tenths n = finite (pos (n * one / 10))

unfoldable pub of_cents : ℕ → Amount
unfolding rounded
of_cents n = rounded false (n * one) 100

pub plus-nan : (a : Amount) → plus a nan ≡ nan
unfolding plus
plus-nan (finite a) = refl
plus-nan (infinite s) = refl
plus-nan nan = refl
