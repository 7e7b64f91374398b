-- ===== src/Decimal/RoundTrip.antt =====
-- Every int64 is read back from its decimal print.
use spongix.Base.{
  ℕ, zero, suc, ap, ◌+◌, ◌*◌, ◌/◌, ◌%◌, ◌^◌, ◌≤◌, ◌<◌, ◌≡◌, refl, ◌∙◌, ◌≢◌, [], ◌∷◌, some, Option,
  Bytes, ℤ, pos, negsuc, arith, ltb, All, Bool-cases, inl, inr,
}
use spongix.Decimal.{max_u64, scan, parse_uint, parse_int, digits, format_uint, format_int, InRange}

abbrev pub IsDigit : ℕ → Type 0
IsDigit c = (b'0' ≤ c) × (c ≤ b'9')

abbrev pub Digits : Bytes → Type 0
Digits = All IsDigit

-- A result of the loop: digits, at least one, that read as `n` in front of `out`.
record Writes (n : ℕ) (out r : Bytes) : Type 0 where
  some_digit : r ≢ []
  all_digits : Digits r
  reads : scan r 0 ≡ scan out n

-- A digit is read behind the value of those in front of it.
scan_digit :
    (digit before : ℕ) (text : Bytes)
    → digit < 10
    → before * 10 + digit ≤ max_u64
    → scan ((b'0' + digit) ∷ text) before ≡ scan text (before * 10 + digit)
unfolding scan
scan_digit digit before text small fits = ground arith

digits-Writes :
    (f n : ℕ) (out : Bytes) → n < f → n ≤ max_u64 → Digits out → Writes n out (digits f n out)
unfolding digits
digits-Writes zero n out h fits d = absurd (omega arith)
digits-Writes (suc f) n out h fits d = elim (Bool-cases (ltb n 10)) [
  | inl small ↦
      rw (small, digits)
        (record {
          some_digit = ground arith;
          all_digits = ((ground arith, ground arith), d);
          reads = scan_digit n 0 out (ground arith) (omega arith) ∙ ap (scan out) (omega arith);
        })
  | inr large ↦
      rw (large, digits)
        (let w =
            digits-Writes f (n / 10) ((b'0' + n % 10) ∷ out) (ground arith) (omega arith)
              ((omega arith, omega arith), d) in
          record {
            some_digit = w.some_digit;
            all_digits = w.all_digits;
            reads =
                w.reads
                ∙ scan_digit (n % 10) (n / 10) out (omega arith) (omega arith)
                ∙ ap (scan out) (omega arith);
          })
]

format_uint-Writes : (n : ℕ) → n ≤ max_u64 → Writes n [] (format_uint n)
unfolding format_uint
format_uint-Writes n h = digits-Writes (suc n) n [] (omega arith) h tt

-- A text that is not empty is read by the loop.
scan_parses : (r : Option ℕ) (s : Bytes) → scan s 0 ≡ r → s ≢ [] → parse_uint s ≡ r
unfolding parse_uint
scan_parses r (c ∷ s) e ne = e
scan_parses r [] e ne = absurd (ne refl)

pub parse_uint-format : (n : ℕ) → n ≤ max_u64 → parse_uint (format_uint n) ≡ some n
parse_uint-format n h =
    let w = format_uint-Writes n h in
    scan_parses (some n) (format_uint n) (w.reads ∙ unfold scan in refl) w.some_digit

parse_int-Digits :
    (s : Bytes) (n : ℕ) → Digits s → parse_uint s ≡ some n → n < 2 ^ 63 → parse_int s ≡ some (pos n)
unfolding parse_int
parse_int-Digits [] n d h fits = cc
parse_int-Digits (c ∷ s) n d h fits = ground arith

pub parse_int-format : (z : ℤ) → InRange z → parse_int (format_int z) ≡ some z
unfolding format_int
parse_int-format (pos n) h =
    parse_int-Digits (format_uint n) n (format_uint-Writes n (omega arith)).all_digits
      (parse_uint-format n (omega arith)) h
parse_int-format (negsuc n) h = unfold parse_int in ground (arith, parse_uint-format (suc n))

-- The print of a number is not empty, and has no byte below the minus sign or above the digits.
abbrev pub IsNumeral : Bytes → Type 0
IsNumeral = All (λ c. (b'-' ≤ c) × (c ≤ b'9'))

Digits-IsNumeral : (s : Bytes) → Digits s → IsNumeral s
Digits-IsNumeral [] h = tt
Digits-IsNumeral (c ∷ s) h = ((omega arith, omega arith), Digits-IsNumeral s h.1)

pub format_int-IsNumeral : (z : ℤ) → InRange z → IsNumeral (format_int z)
unfolding format_int
format_int-IsNumeral (pos n) h =
    Digits-IsNumeral (format_uint n) (format_uint-Writes n (omega arith)).all_digits
format_int-IsNumeral (negsuc n) h = (
  (omega arith, omega arith),
  Digits-IsNumeral (format_uint (suc n)) (format_uint-Writes (suc n) (omega arith)).all_digits,
)

pub format_int-ne-nil : (z : ℤ) → InRange z → format_int z ≢ []
unfolding format_int
format_int-ne-nil (pos n) h = (format_uint-Writes n (omega arith)).some_digit
format_int-ne-nil (negsuc n) h = λ e. cc
