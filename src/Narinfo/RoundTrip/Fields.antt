-- ===== src/Narinfo/RoundTrip/Fields.antt =====
-- Which narinfos can be written and read back, and that each of their fields fits a line.
use spongix.Base.{
  ℕ, ◌≡◌, refl, ◌≢◌, false, true, List, [], ◌∷◌, Bytes, codes, Lacks, All, newline, length, ◌+◌,
  ◌<◌, arith, ◌⊎◌, inl, inr, ℤ, subst,
}
use spongix.Strings.{join}
use spongix.Strings.Lines.{NoCr, NoCr-of_Lacks}
use spongix.Strings.Parts.{join-Lacks}
use spongix.Decimal.{format_int, InRange}
use spongix.Decimal.RoundTrip.{format_int-IsNumeral, format_int-ne-nil, IsNumeral}
use spongix.Decimal.Length.{length-format_int}
use spongix.Regex.{Regex, Matches, match_string, nullable}
use spongix.Regex.Correct.{match_string_complete}
use spongix.Regex.Avoids.{avoids, Matches-Lacks}
use spongix.Regex.Width.{star_free, width, Matches-width}
use spongix.Narinfo.{Narinfo}
use spongix.Narinfo.Validate.{
  valid_nix_store_path, valid_store_path, valid_url, valid_compression, valid_hash, valid_deriver,
}
use spongix.Narinfo.Valid.{IsValid}
use spongix.Narinfo.Unmarshal.{capacity}
use spongix.Narinfo.RoundTrip.Reading.{IsLine}

-- The end of a field that a pattern leaves open: no carriage return, and a length that fits the scanner.
pub record FitsLine (v : Bytes) : Type 0 where
  pub no_cr : NoCr v
  pub short : length v + 13 < capacity

-- Valid, with a compression that is written out, sizes in the range of an int64, references that can be
-- told apart by spaces, and signatures of one line each.
pub record IsWritable (info : Narinfo) : Type 0 where
  pub valid : IsValid info
  pub compression_set : info.compression ≢ []
  pub file_size_range : InRange info.file_size
  pub nar_size_range : InRange info.nar_size
  pub store_path_fits : FitsLine info.store_path
  pub references_apart : All (Lacks b' ') info.references
  pub references_fit : FitsLine (join (codes " ") info.references)
  pub deriver_fits : FitsLine info.deriver
  pub sig_lines : All IsLine info.sig

-- A text of a pattern that takes some byte is not empty.
pub Matches-ne-nil : {r : Regex} {s : Bytes} → Matches r s → nullable r ≡ false → s ≢ []
unfolding match_string
Matches-ne-nil {r} m h e = let t = match_string_complete r [] (subst (Matches r) e m) in cc

-- A closed pattern's texts are lines.
Matches-IsLine :
    (r : Regex) {s : Bytes}
    → Matches r s
    → s ≢ []
    → (avoids newline r ≡ true) × (avoids b'\r' r ≡ true)
    → star_free r ≡ true
    → width r + 13 < capacity
    → IsLine s
Matches-IsLine r {s} m ne a f w = record {
  some_byte = ne;
  no_newline = Matches-Lacks newline m a.0;
  no_cr = NoCr-of_Lacks s (Matches-Lacks b'\r' m a.1);
  short = omega (arith, Matches-width m f);
}

open_IsLine : {s : Bytes} → s ≢ [] → Lacks newline s → FitsLine s → IsLine s
open_IsLine ne h f = record { some_byte = ne; no_newline = h; no_cr = f.no_cr; short = f.short }

pub url_IsLine : {s : Bytes} → Matches valid_url s → IsLine s
unfolding valid_url avoids star_free width nullable
url_IsLine m = Matches-IsLine valid_url m (Matches-ne-nil m refl) (refl, refl) refl (omega arith)

pub compression_IsLine : {s : Bytes} → Matches valid_compression s → s ≢ [] → IsLine s
unfolding valid_compression avoids star_free width
compression_IsLine m ne = Matches-IsLine valid_compression m ne (refl, refl) refl (omega arith)

pub hash_IsLine : {s : Bytes} → Matches valid_hash s → IsLine s
unfolding valid_hash avoids star_free width nullable
hash_IsLine m = Matches-IsLine valid_hash m (Matches-ne-nil m refl) (refl, refl) refl (omega arith)

pub store_path_IsLine : {s : Bytes} → Matches valid_nix_store_path s → FitsLine s → IsLine s
unfolding valid_nix_store_path avoids nullable
store_path_IsLine m f = open_IsLine (Matches-ne-nil m refl) (Matches-Lacks newline m refl) f

pub deriver_IsLine :
    {s : Bytes} → (s ≡ []) ⊎ Matches valid_deriver s → FitsLine s → s ≢ [] → IsLine s
unfolding valid_deriver avoids nullable
deriver_IsLine (inl e) f ne = absurd (ne e)
deriver_IsLine (inr m) f ne = open_IsLine (Matches-ne-nil m refl) (Matches-Lacks newline m refl) f

references-Lacks :
    (refs : List Bytes) → All (Matches valid_store_path) refs → All (Lacks newline) refs
unfolding valid_store_path avoids
references-Lacks [] h = tt
references-Lacks (r ∷ refs) (m, h) = (Matches-Lacks newline m refl, references-Lacks refs h)

join-ne-nil :
    (refs : List Bytes)
    → All (Matches valid_store_path) refs
    → refs ≢ []
    → join (codes " ") refs ≢ []
unfolding join valid_store_path nullable
join-ne-nil [] h ne = absurd (ne refl)
join-ne-nil (r ∷ []) (m, h) ne = Matches-ne-nil m refl
join-ne-nil ([] ∷ q ∷ refs) (m, h) ne = λ e. Matches-ne-nil m refl refl
join-ne-nil ((c ∷ r) ∷ q ∷ refs) (m, h) ne = λ e. cc

pub references_IsLine :
    (refs : List Bytes)
    → All (Matches valid_store_path) refs
    → FitsLine (join (codes " ") refs)
    → refs ≢ []
    → IsLine (join (codes " ") refs)
references_IsLine refs h f ne =
    open_IsLine (join-ne-nil refs h ne)
      (join-Lacks newline b' ' refs (omega arith) (references-Lacks refs h)) f

numeral-Lacks : (b : ℕ) (s : Bytes) → b < b'-' → IsNumeral s → Lacks b s
numeral-Lacks b [] h n = tt
numeral-Lacks b (c ∷ s) h (n, ns) = ((λ e. omega arith), numeral-Lacks b s h ns)

pub size_IsLine : (z : ℤ) → InRange z → IsLine (format_int z)
size_IsLine z h = record {
  some_byte = format_int-ne-nil z h;
  no_newline = numeral-Lacks newline (format_int z) (omega arith) (format_int-IsNumeral z h);
  no_cr =
      NoCr-of_Lacks (format_int z)
        (numeral-Lacks b'\r' (format_int z) (omega arith) (format_int-IsNumeral z h));
  short = omega (arith, length-format_int z h);
}
