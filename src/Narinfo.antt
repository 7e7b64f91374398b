-- ===== src/Narinfo.antt =====
-- narinfo.go: the record of a Nix archive that the cache keeps, its text form and its signatures.
-- Strings are byte strings, the sizes are int64 values. A method that changes its receiver returns the
-- new record.
pub mod Validate
pub mod Valid
pub mod Unmarshal
pub mod Marshal
pub mod RoundTrip
pub mod Sanitize
pub mod Signatures
pub mod Storage
pub mod Hashes
use spongix.Base.{Bytes, List, [], ℤ, pos, codes, ◌≡◌, refl}

pub record Narinfo : Type 0 where
  pub name : Bytes
  pub store_path : Bytes
  pub url : Bytes
  pub compression : Bytes
  pub file_hash : Bytes
  pub file_size : ℤ
  pub nar_hash : Bytes
  pub nar_size : ℤ
  pub references : List Bytes
  pub deriver : Bytes
  pub sig : List Bytes
  pub ca : Bytes

-- `&Narinfo{}`.
abbrev pub blank : Narinfo
blank = record {
  name = [];
  store_path = [];
  url = [];
  compression = [];
  file_hash = [];
  file_size = pos 0;
  nar_hash = [];
  nar_size = pos 0;
  references = [];
  deriver = [];
  sig = [];
  ca = [];
}

-- The keys of a narinfo.
pub data Key : Type 0 where
  store_path url compression file_hash file_size nar_hash nar_size references deriver sig ca : Key

-- The words of the text form.
abbrev pub key_name : Key → Bytes
key_name Key.store_path = codes "StorePath"
key_name Key.url = codes "URL"
key_name Key.compression = codes "Compression"
key_name Key.file_hash = codes "FileHash"
key_name Key.file_size = codes "FileSize"
key_name Key.nar_hash = codes "NarHash"
key_name Key.nar_size = codes "NarSize"
key_name Key.references = codes "References"
key_name Key.deriver = codes "Deriver"
key_name Key.sig = codes "Sig"
key_name Key.ca = codes "CA"

-- The errors that `Unmarshal` and `Validate` return; `read_failed` is one of the reader's own.
pub data Error : Type 0 where
  nil_reader bad_line bad_number too_long read_failed : Error
  duplicate : Key → Error
  unknown_key : Bytes → Error
  invalid : Key → Error

pub data Result {ℓ} (T : Type ℓ) : Type ℓ where
  err : Error → Result T
  ok : T → Result T

infixl 5 ◌>>◌ ◌>>=◌
abbrev pub ◌>>◌ {ℓ} : {T : Type ℓ} → Result (Unit {0}) → Result T → Result T
err e >> next = err e
ok done >> next = next

abbrev pub ◌>>=◌ {ℓ κ} : {S : Type ℓ} {T : Type κ} → Result S → (S → Result T) → Result T
err e >>= next = err e
ok value >>= next = next value
