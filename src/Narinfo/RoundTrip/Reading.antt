-- ===== src/Narinfo/RoundTrip/Reading.antt =====
-- Reading one written line, whatever text stands behind it.
use spongix.Base.{
  ◌≡◌, refl, ◌≢◌, ◌∙◌, Bool, false, List, [], ◌∷◌, ◌++◌, Bytes, codes, Lacks, All, All-append,
  newline, length, length-append, leb, ◌+◌, ◌<◌, ◌≤◌, append_assoc, append-nil, arith, null,
  if◌then◌else◌,
}
use spongix.Strings.{join, raw_lines}
use spongix.Strings.Lines.{NoCr, NoCr-append, drop_cr_lem, raw_lines-line}
use spongix.Strings.Parts.{split-join}
use spongix.Narinfo.{Narinfo, Key, key_name, ◌>>=◌}
use spongix.Narinfo.Unmarshal.{read_lines, parse_line, set_field, capacity}
use spongix.Narinfo.Marshal.{write, write_sigs}

-- A value that a line can hold: some bytes, no newline, no carriage return at its end, and short enough
-- for the scanner together with the longest key.
pub record IsLine (v : Bytes) : Type 0 where
  pub some_byte : v ≢ []
  pub no_newline : Lacks newline v
  pub no_cr : NoCr v
  pub short : length v + 13 < capacity

key_name-Lacks : (k : Key) → Lacks newline (key_name k ++ codes ": ")
key_name-Lacks Key.store_path = omega arith
key_name-Lacks _ = omega arith

length-key_name : (k : Key) → length (key_name k ++ codes ": ") ≤ 13
length-key_name Key.store_path = omega arith
length-key_name _ = omega arith

parse_line-key :
    (i : Narinfo) (k : Key) (v : Bytes)
    → v ≢ []
    → parse_line i ((key_name k ++ codes ": ") ++ v) ≡ set_field i k v
unfolding parse_line
parse_line-key i k [] ne = absurd (ne refl)
parse_line-key i Key.store_path (c ∷ v) ne = refl
parse_line-key i _ (c ∷ v) ne = refl

read_line :
    (failed : Bool) (i : Narinfo) (head v rest : Bytes)
    → IsLine v
    → Lacks newline head
    → length head ≤ 13
    → read_lines failed i (raw_lines ((head ++ v) ++ newline ∷ rest))
      ≡ (parse_line i (head ++ v) >>= λ j. read_lines failed j (raw_lines rest))
unfolding read_lines
read_line failed i head v rest l h short = rw (
  raw_lines-line (head ++ v) rest (All-append (λ c. c ≢ newline) head v h l.no_newline),
  drop_cr_lem (head ++ v) (NoCr-append head v l.some_byte l.no_cr),
  fits,
)
  where
    fits : leb capacity (length (head ++ v)) ≡ false
    fits = let s = l.short in ground (arith, length-append head v)

pub read-write :
    (failed : Bool) (i : Narinfo) (k : Key) (v rest : Bytes)
    → IsLine v
    → read_lines failed i (raw_lines (write k v ++ rest))
      ≡ (set_field i k v >>= λ j. read_lines failed j (raw_lines rest))
unfolding write
read-write failed i k v rest l = rw (
  append_assoc ((key_name k ++ codes ": ") ++ v) (newline ∷ []) rest,
  read_line failed i (key_name k ++ codes ": ") v rest l (key_name-Lacks k) (length-key_name k),
  parse_line-key i k v l.some_byte,
)

-- The optional line of references: nothing is written of an empty list.
pub read_references :
    (failed : Bool) (i : Narinfo) (refs : List Bytes) (rest : Bytes)
    → (refs ≢ [] → IsLine (join (codes " ") refs))
    → All (Lacks b' ') refs
    → read_lines failed i (
        raw_lines
          ((if null refs then [] else write Key.references (join (codes " ") refs)) ++ rest))
      ≡ read_lines failed (record i { references = i.references ++ refs }) (raw_lines rest)
unfolding set_field
read_references failed i [] rest l h = rw (append-nil i.references)
read_references failed i (r ∷ refs) rest l h = rw (
  read-write failed i Key.references (join (codes " ") (r ∷ refs)) rest (l (λ e. cc)),
  split-join b' ' (r ∷ refs) (λ e. cc) h,
)

pub read_deriver :
    (failed : Bool) (i : Narinfo) (d rest : Bytes)
    → i.deriver ≡ []
    → (d ≢ [] → IsLine d)
    → read_lines failed i (raw_lines ((if null d then [] else write Key.deriver d) ++ rest))
      ≡ read_lines failed (record i { deriver = d }) (raw_lines rest)
unfolding set_field
read_deriver failed i [] rest e l = rw (← e)
read_deriver failed i (c ∷ d) rest e l =
    rw (read-write failed i Key.deriver (c ∷ d) rest (l (λ e. cc)), e)

pub read_sigs :
    (failed : Bool) (i : Narinfo) (sigs : List Bytes)
    → All IsLine sigs
    → read_lines failed i (raw_lines (write_sigs sigs))
      ≡ read_lines failed (record i { sig = i.sig ++ sigs }) []
unfolding set_field write_sigs
read_sigs failed i [] h = unfold raw_lines in rw (append-nil i.sig)
read_sigs failed i (s ∷ sigs) h = rw (read-write failed i Key.sig s (write_sigs sigs) h.0) (
    read_sigs failed (record i { sig = i.sig ++ s ∷ [] }) sigs h.1
    ∙ rw (append_assoc i.sig (s ∷ []) sigs))
