-- ===== src/Strings/Paths.antt =====
-- The extension of a path.
use mathlib.Core.List.{reverse-cons, reverse-append, reverse-reverse}
use spongix.Base.{
  ℕ, ◌≡◌, refl, ◌≢◌, [], ◌∷◌, ◌++◌, Bytes, Lacks, All-append, arith, append_assoc, append-nil,
  reverse, length, length-append, take-append, ◌+◌, ◌-◌,
}
use spongix.Strings.{ext, ext_back, without_end}

abbrev Plain : Bytes → Type 0
Plain s = Lacks b'/' s × Lacks b'.' s

ext_back_plain :
    (r rest seen : Bytes)
    → Lacks b'/' r
    → Lacks b'.' r
    → ext_back (r ++ rest) seen ≡ ext_back rest (reverse r ++ seen)
unfolding ext_back
ext_back_plain [] rest seen h k = refl
ext_back_plain (c ∷ r) rest seen (hc, h) (kc, k) = ground (
  arith,
  ext_back_plain r rest (c ∷ seen) h k,
  reverse-cons c r,
  append_assoc (reverse r) (c ∷ []) seen,
)

reverse-Lacks : (b : ℕ) (s : Bytes) → Lacks b s → Lacks b (reverse s)
reverse-Lacks b [] h = tt
reverse-Lacks b (c ∷ s) (hc, h) =
    rw (reverse-cons c s)
      (All-append (λ c. c ≢ b) (reverse s) (c ∷ []) (reverse-Lacks b s h) (hc, tt))

-- The extension starts at the last dot.
pub ext-append : (p e : Bytes) → Lacks b'/' e → Lacks b'.' e → ext (p ++ b'.' ∷ e) ≡ b'.' ∷ e
unfolding ext ext_back
ext-append p e h k = rw (
  reverse-append p (b'.' ∷ e),
  reverse-cons b'.' e,
  append_assoc (reverse e) (b'.' ∷ []) (reverse p),
  ext_back_plain (reverse e) (b'.' ∷ reverse p) [] (reverse-Lacks b'/' e h)
      (reverse-Lacks b'.' e k),
  reverse-reverse e,
  append-nil e,
)

pub without_end-append : (p e : Bytes) → without_end (p ++ e) e ≡ p
unfolding without_end
without_end-append p e =
    rw (length-append p e) (
      let len : length p + length e - length e ≡ length p = omega arith in rw len (take-append p e))
