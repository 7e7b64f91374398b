-- ===== src/Strings.antt =====
-- What the source uses of Go's `strings`, `path/filepath` and `bufio.ScanLines`, over byte strings.
pub mod Lines
pub mod Parts
pub mod Paths
pub mod Clean
use spongix.Base.{
  ℕ, Bool, true, false, not, ◌&&◌, ◌||◌, List, [], ◌∷◌, ◌++◌, Option, none, some, Bytes, reverse,
  newline, null, length, take, ◌-◌, ◌==◌, if◌then◌else◌,
}

-- `==` on strings.
unfoldable pub equal : Bytes → Bytes → Bool
equal [] [] = true
equal (x ∷ xs) (y ∷ ys) = x == y && equal xs ys
equal _ _ = false

-- The rest behind a prefix.
unfoldable pub strip_prefix : Bytes → Bytes → Option Bytes
strip_prefix [] s = some s
strip_prefix (p ∷ ps) [] = none
strip_prefix (p ∷ ps) (c ∷ s) = if p == c then strip_prefix ps s else none

abbrev later : ℕ → Option (Bytes × Bytes) → Option (Bytes × Bytes)
later c none = none
later c (some (a, b)) = some (c ∷ a, b)

abbrev found_or : Option Bytes → Option (Bytes × Bytes) → Option (Bytes × Bytes)
found_or (some rest) other = some ([], rest)
found_or none other = other

-- `strings.SplitN(s, sep, 2)` for a separator that is not empty: `none` is the single part `s`.
unfoldable pub split_pair : Bytes → Bytes → Option (Bytes × Bytes)
unfolding strip_prefix
split_pair sep [] = none
split_pair sep (c ∷ s) = found_or (strip_prefix sep (c ∷ s)) (later c (split_pair sep s))

abbrev pub first_or : Bytes → Option (Bytes × Bytes) → Bytes
first_or s none = s
first_or s (some (a, b)) = a

-- `strings.SplitN(s, sep, 2)[0]`.
unfoldable pub split_head : Bytes → Bytes → Bytes
unfolding split_pair
split_head sep s = first_or s (split_pair sep s)

abbrev pub prepend : ℕ → List Bytes → List Bytes
prepend c [] = (c ∷ []) ∷ []
prepend c (p ∷ ps) = (c ∷ p) ∷ ps

-- `strings.Split(s, sep)` at a separator of one byte: one part at least.
unfoldable pub split : ℕ → Bytes → List Bytes
split sep [] = [] ∷ []
split sep (c ∷ s) = let rest = split sep s in if c == sep then [] ∷ rest else prepend c rest

-- `strings.Join`.
unfoldable pub join : Bytes → List Bytes → Bytes
join sep [] = []
join sep (p ∷ []) = p
join sep (p ∷ q ∷ ps) = p ++ (sep ++ join sep (q ∷ ps))

-- The lines of a text with their newlines taken off; an unfinished last line counts if it has a byte.
unfoldable pub raw_lines : Bytes → List Bytes
raw_lines [] = []
raw_lines (c ∷ s) = let rest = raw_lines s in if c == newline then [] ∷ rest else prepend c rest

-- One carriage return at the end of a line is dropped.
unfoldable pub drop_cr : Bytes → Bytes
drop_cr [] = []
drop_cr (c ∷ []) = if c == b'\r' then [] else c ∷ []
drop_cr (c ∷ d ∷ s) = c ∷ drop_cr (d ∷ s)

-- The loop of `filepath.Ext` from the last byte to the first; `seen` is what lies behind.
ext_back : Bytes → Bytes → Bytes
ext_back [] seen = []
ext_back (c ∷ s) seen =
    let rest = ext_back s (c ∷ seen) in
    if c == b'/' then [] else if c == b'.' then c ∷ seen else rest

unfoldable pub ext : Bytes → Bytes
unfolding ext_back
ext path = ext_back (reverse path) []

-- `s[0 : len(s)-len(e)]`.
unfoldable pub without_end : Bytes → Bytes → Bytes
without_end s e = take (length s - length e) s

drop_slashes : Bytes → Bytes
drop_slashes [] = []
drop_slashes (c ∷ s) = if c == b'/' then drop_slashes s else c ∷ s

to_slash : Bytes → Bytes → Bytes
to_slash [] seen = seen
to_slash (c ∷ s) seen = let rest = to_slash s (c ∷ seen) in if c == b'/' then seen else rest

base_of : Bytes → Bytes
base_of [] = b'/' ∷ []
base_of (c ∷ s) = to_slash (c ∷ s) []

-- `filepath.Base`: trailing slashes go, then everything up to the last slash.
unfoldable pub base : Bytes → Bytes
unfolding drop_slashes to_slash base_of
base [] = b'.' ∷ []
base (c ∷ s) = base_of (drop_slashes (reverse (c ∷ s)))
