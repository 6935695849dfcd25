-- ===== src/HttpCache/Decimal.antt =====
-- `writeInt` of internal/middleware/cache.go writes a number in decimal.
use financentury_backend.Prelude.{
  ℕ, zero, suc, ◌+◌, ◌-◌, ◌*◌, ◌/◌, ◌%◌, ◌<◌, ◌≤◌, ◌≡◌, refl, ◌∙◌, ap, inl, inr, Bool-cases, [],
  ◌∷◌, Bytes, All, ltb, arith,
}
use financentury_backend.HttpCache.Directives.{write_digits, write_int}

-- The number that decimal digits stand for, after `seen`.
unfoldable pub read_decimal : ℕ → Bytes → ℕ
read_decimal seen [] = seen
read_decimal seen (c ∷ s) = read_decimal (seen * 10 + (c - 48)) s

abbrev power : ℕ → ℕ
power zero = 1
power (suc n) = power n * 10

write_digits-read :
    (fuel v : ℕ) (buf : Bytes)
    → v < power fuel
    → read_decimal 0 (write_digits fuel v buf) ≡ read_decimal v buf
unfolding write_digits read_decimal
write_digits-read zero v buf h = ap (λ n. read_decimal n buf) (omega arith)
write_digits-read (suc fuel) v buf h = elim (Bool-cases (ltb 0 v)) [
  | inl more ↦ rw more (
      write_digits-read fuel (v / 10) ((48 + v % 10) ∷ buf) (omega arith)
      ∙ ap (λ n. read_decimal n buf) (omega arith))
  | inr done ↦ rw done (ap (λ n. read_decimal n buf) (ground arith))
]

write_digits-All :
    (fuel v : ℕ) (buf : Bytes)
    → All (λ c. (48 ≤ c) × (c ≤ 57)) buf
    → All (λ c. (48 ≤ c) × (c ≤ 57)) (write_digits fuel v buf)
unfolding write_digits
write_digits-All zero v buf h = h
write_digits-All (suc fuel) v buf h = elim (Bool-cases (ltb 0 v)) [
  | inl more ↦
      rw more (write_digits-All fuel (v / 10) ((48 + v % 10) ∷ buf) ((omega arith, omega arith), h))
  | inr done ↦ rw done h
]

-- Every 64-bit number is written in decimal digits that stand for it: the buffer of 20 is enough.
pub write_int-read :
    (v : ℕ)
    → v < 18_446_744_073_709_551_616
    → (read_decimal 0 (write_int v) ≡ v) × All (λ c. (48 ≤ c) × (c ≤ 57)) (write_int v)
unfolding write_int read_decimal
write_int-read zero h = (refl, ((omega arith, omega arith), tt))
write_int-read (suc v) h =
    (write_digits-read 20 (suc v) [] (omega arith), write_digits-All 20 (suc v) [] tt)
