-- ===== src/Narinfo/Validate.antt =====
-- `Validate` and the patterns that it uses.
use spongix.Base.{Bool, true, false, not, ◌||◌, List, [], ◌∷◌, Bytes, codes, is_zero, null}
use spongix.Regex.{Regex, cls, any, seq, alt, empty, lit, plus, opt, times, match_string}
use spongix.Narinfo.{Narinfo, Key, Result, ok, err, invalid, ◌>>◌}

-- [0-9a-df-np-sv-z]
abbrev pub nix_hash : Regex
nix_hash = cls ((b'0', b'9') ∷ (b'a', b'd') ∷ (b'f', b'n') ∷ (b'p', b's') ∷ (b'v', b'z') ∷ [])

-- nixHash{32}-.+
unfoldable pub valid_store_path : Regex
unfolding times
valid_store_path = seq (times 32 nix_hash) (seq (lit (codes "-")) (plus any))

-- /nix/store/nixHash{32}-.+
unfoldable pub valid_nix_store_path : Regex
unfolding valid_store_path
valid_nix_store_path = seq (lit (codes "/nix/store/")) valid_store_path

abbrev pub compression_ext : Regex
compression_ext = alt (lit (codes "xz")) (
    alt (lit (codes "bz2")) (
      alt (lit (codes "zst"))
        (alt (lit (codes "lzip")) (alt (lit (codes "lz4")) (lit (codes "br"))))))

-- nar/nixHash{52}
unfoldable pub nar_stem : Regex
unfolding times
nar_stem = seq (lit (codes "nar/")) (times 52 nix_hash)

-- (\.drv|\.nar(\.(xz|bz2|zst|lzip|lz4|br))?)
unfoldable pub url_end : Regex
url_end =
    alt (lit (codes ".drv"))
      (seq (lit (codes ".nar")) (opt (seq (lit (codes ".")) compression_ext)))

unfoldable pub valid_url : Regex
unfolding nar_stem url_end
valid_url = seq nar_stem url_end

-- (|none|xz|bzip2|br|zst)
unfoldable pub valid_compression : Regex
valid_compression = alt empty (
    alt (lit (codes "none")) (
      alt (lit (codes "xz"))
        (alt (lit (codes "bzip2")) (alt (lit (codes "br")) (lit (codes "zst"))))))

-- sha256:nixHash{52}
unfoldable pub valid_hash : Regex
unfolding times
valid_hash = seq (lit (codes "sha256:")) (times 52 nix_hash)

-- nixHash{32}-.+\.drv
unfoldable pub valid_deriver : Regex
unfolding times
valid_deriver =
    seq (times 32 nix_hash) (seq (lit (codes "-")) (seq (plus any) (lit (codes ".drv"))))

-- An early return of the error when the test fails.
abbrev pub require : Bool → Key → Result (Unit {0})
require true key = ok tt
require false key = err (invalid key)

unfoldable pub check_references : List Bytes → Result (Unit {0})
check_references [] = ok tt
check_references (ref ∷ refs) = do
  require (match_string valid_store_path ref) Key.references
  check_references refs

unfoldable pub validate : Narinfo → Result (Unit {0})
unfolding check_references
validate info = do
  require (match_string valid_nix_store_path info.store_path) Key.store_path
  require (match_string valid_url info.url) Key.url
  require (match_string valid_compression info.compression) Key.compression
  require (match_string valid_hash info.file_hash) Key.file_hash
  require (not (is_zero info.file_size)) Key.file_size
  require (match_string valid_hash info.nar_hash) Key.nar_hash
  require (not (is_zero info.nar_size)) Key.nar_size
  check_references info.references
  require (null info.deriver || match_string valid_deriver info.deriver) Key.deriver
