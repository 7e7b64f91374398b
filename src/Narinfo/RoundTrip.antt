-- ===== src/Narinfo/RoundTrip.antt =====
-- `Unmarshal` reads back what `Marshal` writes.
mod Reading
mod Fields
pub use Reading.{IsLine}
pub use Fields.{IsWritable, FitsLine}
use spongix.Base.{◌≡◌, refl, ◌≢◌, ◌∙◌, false, [], ◌++◌, Bytes, codes, some, null, ◌∷◌}
use spongix.Strings.{raw_lines, base, split_head, join}
use spongix.Decimal.{format_int}
use spongix.Decimal.RoundTrip.{parse_int-format}
use spongix.Narinfo.{Narinfo, blank, Key, Result, ok, err, ◌>>=◌}
use spongix.Narinfo.Validate.{validate}
use spongix.Narinfo.Valid.{IsValid-validate}
use spongix.Narinfo.Unmarshal.{unmarshal, read_lines, set_field}
use spongix.Narinfo.Marshal.{write, marshal}
use Reading.{read-write, read_references, read_deriver, read_sigs}
use Fields.{
  url_IsLine, compression_IsLine, hash_IsLine, store_path_IsLine, deriver_IsLine, references_IsLine,
  size_IsLine,
}

-- What comes back: the name is taken from the store path, and the CA field is lost.
abbrev pub read_back : Narinfo → Narinfo
read_back info = record info { name = split_head (codes "-") (base info.store_path); ca = [] }

null_of_ne : (c : Bytes) → c ≢ [] → null c ≡ false
null_of_ne [] ne = absurd (ne refl)
null_of_ne (b ∷ c) ne = refl

-- The record behind the lines that are always written and the references.
abbrev before_deriver : Narinfo → Narinfo
before_deriver info = record info {
  name = split_head (codes "-") (base info.store_path);
  deriver = [];
  sig = [];
  ca = [];
}

read_lines-marshal :
    (info : Narinfo)
    → IsWritable info
    → read_lines false blank (raw_lines (marshal info)) ≡ ok (read_back info)
unfolding marshal set_field
read_lines-marshal info w =
    let v = w.valid in
    rw
      (
        read-write false blank Key.store_path info.store_path _
            (store_path_IsLine v.store_path_ok w.store_path_fits),
        read-write false _ Key.url info.url _ (url_IsLine v.url_ok),
        read-write false _ Key.compression info.compression _
            (compression_IsLine v.compression_ok w.compression_set),
        read-write false _ Key.file_hash info.file_hash _ (hash_IsLine v.file_hash_ok),
        read-write false _ Key.file_size (format_int info.file_size) _
            (size_IsLine info.file_size w.file_size_range),
        parse_int-format info.file_size w.file_size_range,
        read-write false _ Key.nar_hash info.nar_hash _ (hash_IsLine v.nar_hash_ok),
        read-write false _ Key.nar_size (format_int info.nar_size) _
            (size_IsLine info.nar_size w.nar_size_range),
        parse_int-format info.nar_size w.nar_size_range,
        read_references false _ info.references _
            (references_IsLine info.references v.references_ok w.references_fit) w.references_apart,
        read_deriver false (before_deriver info) info.deriver _ refl
            (deriver_IsLine v.deriver_ok w.deriver_fits),
        read_sigs false _ info.sig w.sig_lines,
      )
      (unfold read_lines in refl)

-- Unmarshalling the text of a writable narinfo gives the narinfo back, but for the name, which is taken
-- from the store path, and the CA field, which is empty: the text has no line for it.
pub unmarshal-marshal :
    (info : Narinfo)
    → IsWritable info
    → unmarshal blank (some (record { content = marshal info; failed = false }))
      ≡ ok (read_back info)
unfolding unmarshal
unmarshal-marshal info w =
    rw (read_lines-marshal info w, null_of_ne info.compression w.compression_set, validates)
  where
    validates : validate (read_back info) ≡ ok tt
    validates = unfold validate in IsValid-validate info w.valid
