-- ===== src/Decimal/Length.antt =====
-- How long the print of a number is.
use native.Mathlib.Nat.{pow-suc}
use spongix.Base.{
  ℕ, zero, suc, ◌+◌, ◌/◌, ◌%◌, ◌*◌, ◌^◌, ◌≤◌, ◌<◌, ◌≡◌, [], ◌∷◌, Bytes, ℤ, pos, negsuc, length, ltb,
  arith, Bool-cases, inl, inr,
}
use spongix.Decimal.{digits, format_uint, format_int, InRange}

-- A round writes one digit, and a number below ten to the power `k` takes `k` rounds at most.
length-digits :
    (k f n : ℕ) (out : Bytes) → n < 10 ^ k → length (digits f n out) ≤ k + 1 + length out
unfolding digits
length-digits k zero n out h = omega arith
length-digits zero (suc f) n out h = ground arith
length-digits (suc k) (suc f) n out h = elim (Bool-cases (ltb n 10)) [
  | inl small ↦ rw (small, digits) (omega arith)
  | inr large ↦
      rw (large, digits)
        (let p : 10 ^ suc k ≡ 10 ^ k * 10 = pow-suc 10 k in
          omega (arith, length-digits k f (n / 10) ((b'0' + n % 10) ∷ out) (omega arith)))
]

pub length-format_int : (z : ℤ) → InRange z → length (format_int z) ≤ 21
unfolding format_int format_uint
length-format_int (pos n) h = omega (arith, length-digits 19 (suc n) n [] (omega arith))
length-format_int (negsuc n) h =
    omega (arith, length-digits 19 (suc (suc n)) (suc n) [] (omega arith))
