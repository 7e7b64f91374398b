-- ===== src/Strings/Lines.antt =====
-- Reading back what was written line by line.
use spongix.Base.{◌≡◌, refl, ◌≢◌, [], ◌∷◌, ◌++◌, Bytes, Lacks, newline, arith, ap}
use spongix.Strings.{raw_lines, drop_cr}

-- A line without a newline is the first one that is read.
pub raw_lines-line :
    (l rest : Bytes) → Lacks newline l → raw_lines (l ++ newline ∷ rest) ≡ l ∷ raw_lines rest
unfolding raw_lines
raw_lines-line [] rest h = refl
raw_lines-line (c ∷ l) rest (hc, h) = ground (arith, raw_lines-line l rest h)

-- The last byte is not a carriage return.
abbrev pub NoCr : Bytes → Type 0
NoCr [] = Unit
NoCr (c ∷ []) = c ≢ b'\r'
NoCr (c ∷ d ∷ s) = NoCr (d ∷ s)

pub drop_cr_lem : (s : Bytes) → NoCr s → drop_cr s ≡ s
unfolding drop_cr
drop_cr_lem [] h = refl
drop_cr_lem (c ∷ []) h = ground arith
drop_cr_lem (c ∷ d ∷ s) h = ap (◌∷◌ c) (drop_cr_lem (d ∷ s) h)

pub NoCr-append : (p s : Bytes) → s ≢ [] → NoCr s → NoCr (p ++ s)
NoCr-append [] s ne h = h
NoCr-append (a ∷ []) [] ne h = absurd (ne refl)
NoCr-append (a ∷ []) (c ∷ s) ne h = h
NoCr-append (a ∷ b ∷ p) s ne h = NoCr-append (b ∷ p) s ne h

pub NoCr-of_Lacks : (s : Bytes) → Lacks b'\r' s → NoCr s
NoCr-of_Lacks [] h = tt
NoCr-of_Lacks (c ∷ []) h = h.0
NoCr-of_Lacks (c ∷ d ∷ s) h = NoCr-of_Lacks (d ∷ s) h.1
