-- ===== src/Regex.antt =====
-- What the source uses of Go's `regexp`: patterns of classes, sequences, choices and repetitions,
-- matched against a whole text (`\A` … `\z`), over bytes. A text that is not valid UTF-8 is matched
-- byte by byte, and `.` takes every byte but the newline, so `.+` means the same over bytes and runes.
pub mod Correct
pub mod Avoids
pub mod Width
use spongix.Base.{
  ℕ, zero, suc, ◌≡◌, ◌++◌, Bool, true, false, ◌&&◌, ◌||◌, not, List, [], ◌∷◌, Bytes, newline, leb,
  ◌==◌, if◌then◌else◌,
}

pub data Regex : Type 0 where
  never : Regex
  empty : Regex
  cls : List (ℕ × ℕ) → Regex
  any : Regex
  seq : Regex → Regex → Regex
  alt : Regex → Regex → Regex
  star : Regex → Regex

-- One of the ranges holds the byte.
unfoldable pub in_class : List (ℕ × ℕ) → ℕ → Bool
in_class [] c = false
in_class ((lo, hi) ∷ ranges) c = (leb lo c && leb c hi) || in_class ranges c

-- The texts that a pattern matches.
pub data Matches : Regex → Bytes → Type 0 where
  m_empty : Matches empty []
  m_cls : {rs : List (ℕ × ℕ)} {c : ℕ} → in_class rs c ≡ true → Matches (cls rs) (c ∷ [])
  m_any : {c : ℕ} → (c == newline) ≡ false → Matches any (c ∷ [])
  m_seq :
      {r t : Regex} {a b s : Bytes} → Matches r a → Matches t b → a ++ b ≡ s → Matches (seq r t) s
  m_left : {r t : Regex} {s : Bytes} → Matches r s → Matches (alt r t) s
  m_right : {r t : Regex} {s : Bytes} → Matches t s → Matches (alt r t) s
  m_stop : {r : Regex} → Matches (star r) []
  m_more :
      {r : Regex} {c : ℕ} {a b s : Bytes}
      → Matches r (c ∷ a)
      → Matches (star r) b
      → c ∷ (a ++ b) ≡ s
      → Matches (star r) s

unfoldable pub nullable : Regex → Bool
nullable never = false
nullable empty = true
nullable (cls rs) = false
nullable any = false
nullable (seq r t) = nullable r && nullable t
nullable (alt r t) = nullable r || nullable t
nullable (star r) = true

-- `seq` and `alt` that drop what cannot match, to keep derivatives small.
unfoldable pub seq_of : Regex → Regex → Regex
seq_of never t = never
seq_of empty t = t
seq_of r t = seq r t

unfoldable pub alt_of : Regex → Regex → Regex
alt_of never t = t
alt_of r never = r
alt_of r t = alt r t

-- What is left to match behind the byte `c`.
unfoldable pub deriv : ℕ → Regex → Regex
unfolding in_class nullable seq_of alt_of
deriv c never = never
deriv c empty = never
deriv c (cls rs) = if in_class rs c then empty else never
deriv c any = if c == newline then never else empty
deriv c (seq r t) = alt_of (seq_of (deriv c r) t) (if nullable r then deriv c t else never)
deriv c (alt r t) = alt_of (deriv c r) (deriv c t)
deriv c (star r) = seq_of (deriv c r) (star r)

-- `MatchString` of a pattern that is anchored at both ends.
unfoldable pub match_string : Regex → Bytes → Bool
unfolding deriv
match_string r [] = nullable r
match_string r (c ∷ s) = match_string (deriv c r) s

-- `r+`, `r?`, `r{n}`, and a literal text.
abbrev pub plus : Regex → Regex
plus r = seq r (star r)

abbrev pub opt : Regex → Regex
opt r = alt empty r

unfoldable pub times : ℕ → Regex → Regex
times zero r = empty
times (suc n) r = seq r (times n r)

abbrev pub lit : Bytes → Regex
lit [] = empty
lit (c ∷ s) = seq (cls ((c, c) ∷ [])) (lit s)
