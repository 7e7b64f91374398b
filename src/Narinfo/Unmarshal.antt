-- ===== src/Narinfo/Unmarshal.antt =====
-- `Unmarshal`: the lines of a text into the fields of a narinfo.
use spongix.Base.{
  ℕ, ◌*◌, Bool, true, false, List, [], ◌∷◌, ◌++◌, Option, none, some, Bytes, codes, ℤ, is_zero,
  null, length, leb, Input, if◌then◌else◌,
}
use spongix.Strings.{equal, split_pair, split_head, split, raw_lines, drop_cr, base}
use spongix.Decimal.{parse_int}
use spongix.Narinfo.{
  Narinfo, Key, key_name, nil_reader, bad_line, bad_number, too_long, read_failed, duplicate,
  unknown_key, Result, ok, err, ◌>>=◌, ◌>>◌,
}
use spongix.Narinfo.Validate.{validate}

-- The scanner's buffer, 1 MiB: a line and its newline must fit.
abbrev pub capacity : ℕ
capacity = 1024 * 1024

abbrev or_key : Bytes → Key → Result Key → Result Key
or_key word key other = if equal word (key_name key) then ok key else other

-- The cases of the switch.
unfoldable pub key_of : Bytes → Result Key
unfolding equal
key_of word = or_key word Key.store_path (
    or_key word Key.url (
      or_key word Key.compression (
        or_key word Key.file_hash (
          or_key word Key.file_size (
            or_key word Key.nar_hash (
              or_key word Key.nar_size (
                or_key word Key.references (
                  or_key word Key.deriver
                    (or_key word Key.sig (or_key word Key.ca (err (unknown_key word))))))))))))

-- A field is set once.
abbrev once : Bool → Key → Narinfo → Result Narinfo
once true key info = ok info
once false key info = err (duplicate key)

abbrev number : Option ℤ → Result ℤ
number none = err bad_number
number (some n) = ok n

unfoldable pub set_field : Narinfo → Key → Bytes → Result Narinfo
set_field info Key.store_path value =
    once (null info.store_path) Key.store_path
      (record info { store_path = value; name = split_head (codes "-") (base value) })
set_field info Key.url value = once (null info.url) Key.url (record info { url = value })
set_field info Key.compression value =
    once (null info.compression) Key.compression (record info { compression = value })
set_field info Key.file_hash value =
    once (null info.file_hash) Key.file_hash (record info { file_hash = value })
set_field info Key.file_size value = do
  unset ← once (is_zero info.file_size) Key.file_size info
  size ← number (parse_int value)
  ok (record unset { file_size = size })
set_field info Key.nar_hash value =
    once (null info.nar_hash) Key.nar_hash (record info { nar_hash = value })
set_field info Key.nar_size value = do
  unset ← once (is_zero info.nar_size) Key.nar_size info
  size ← number (parse_int value)
  ok (record unset { nar_size = size })
set_field info Key.references value =
    ok (record info { references = info.references ++ split b' ' value })
set_field info Key.deriver value =
    once (null info.deriver) Key.deriver (record info { deriver = value })
set_field info Key.sig value = ok (record info { sig = info.sig ++ value ∷ [] })
set_field info Key.ca value = once (null info.ca) Key.ca (record info { ca = value })

-- A pair with no value is passed over before its key is looked at.
abbrev set_pair : Narinfo → Bytes → Bytes → Result Narinfo
set_pair info word value =
    if null value then ok info else (do key ← key_of word; set_field info key value)

abbrev parse_parts : Narinfo → Option (Bytes × Bytes) → Result Narinfo
parse_parts info none = err bad_line
parse_parts info (some (word, value)) = set_pair info word value

unfoldable pub parse_line : Narinfo → Bytes → Result Narinfo
unfolding split_pair key_of
parse_line info line = parse_parts info (split_pair (codes ": ") line)

-- The loop over the scanner, and its error.
unfoldable pub read_lines : Bool → Narinfo → List Bytes → Result Narinfo
read_lines failed info [] = if failed then err read_failed else ok info
read_lines failed info (line ∷ lines) =
    if leb capacity (length line)
    then err too_long
    else (do read ← parse_line info (drop_cr line); read_lines failed read lines)

abbrev with_compression : Narinfo → Narinfo
with_compression info =
    if null info.compression then record info { compression = codes "bzip2" } else info

-- The receiver is set field by field; on an error its callers drop it.
unfoldable pub unmarshal : Narinfo → Option Input → Result Narinfo
unfolding raw_lines read_lines
unmarshal info none = err nil_reader
unmarshal info (some input) = do
  read ← read_lines input.failed info (raw_lines input.content)
  let full = with_compression read
  validate full
  ok full
