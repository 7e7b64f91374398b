-- ===== src/Narinfo/Valid.antt =====
-- What `Validate` accepts, stated without the checks: the pattern of each field.
use spongix.Base.{
  ◌≡◌, refl, ◌↔◌, ◌⊎◌, inl, inr, Bool, true, false, List, [], ◌∷◌, Bytes, is_zero, All, arith, null,
  not, ◌||◌,
}
use spongix.Regex.{Matches, match_string}
use spongix.Regex.Correct.{match_string_sound, match_string_complete}
use spongix.Narinfo.{Narinfo, Key, Result, ok, err, ◌>>◌}
use spongix.Narinfo.Validate.{
  validate, check_references, require, valid_nix_store_path, valid_store_path, valid_url,
  valid_compression, valid_hash, valid_deriver,
}

pub record IsValid (info : Narinfo) : Type 0 where
  pub store_path_ok : Matches valid_nix_store_path info.store_path
  pub url_ok : Matches valid_url info.url
  pub compression_ok : Matches valid_compression info.compression
  pub file_hash_ok : Matches valid_hash info.file_hash
  pub file_size_ok : is_zero info.file_size ≡ false
  pub nar_hash_ok : Matches valid_hash info.nar_hash
  pub nar_size_ok : is_zero info.nar_size ≡ false
  pub references_ok : All (Matches valid_store_path) info.references
  pub deriver_ok : (info.deriver ≡ []) ⊎ Matches valid_deriver info.deriver

require-ok :
    (b : Bool) (k : Key) (m : Result (Unit {0}))
    → (require b k >> m) ≡ ok tt
    → (b ≡ true) × (m ≡ ok tt)
require-ok true k m h = (refl, h)
require-ok false k m h = cc

check_references-All :
    (refs : List Bytes) → check_references refs ≡ ok tt → All (Matches valid_store_path) refs
unfolding check_references
check_references-All [] h = tt
check_references-All (r ∷ refs) h =
    let (m, rest) = require-ok (match_string valid_store_path r) Key.references _ h in
    (match_string_sound valid_store_path r m, check_references-All refs rest)

All-check_references :
    (refs : List Bytes) → All (Matches valid_store_path) refs → check_references refs ≡ ok tt
unfolding check_references
All-check_references [] h = refl
All-check_references (r ∷ refs) (m, h) =
    rw (match_string_complete valid_store_path r m) (All-check_references refs h)

deriver_test : (d : Bytes) (b : Bool) → (null d || b) ≡ true → (d ≡ []) ⊎ (b ≡ true)
deriver_test [] b h = inl refl
deriver_test (c ∷ d) b h = inr h

then-ok : (m k : Result (Unit {0})) → (m >> k) ≡ ok tt → (m ≡ ok tt) × (k ≡ ok tt)
then-ok (ok tt) k h = (refl, h)
then-ok (err e) k h = cc

last-ok : (b : Bool) (k : Key) → require b k ≡ ok tt → b ≡ true
last-ok true k h = refl
last-ok false k h = cc

not-true : (b : Bool) → not b ≡ true → b ≡ false
not-true b h = ground arith

pub validate-IsValid : (info : Narinfo) → validate info ≡ ok tt → IsValid info
unfolding validate
validate-IsValid info h0 =
    let (a, h1) =
      require-ok (match_string valid_nix_store_path info.store_path) Key.store_path _ h0 in
    let (b, h2) = require-ok (match_string valid_url info.url) Key.url _ h1 in
    let (c, h3) =
      require-ok (match_string valid_compression info.compression) Key.compression _ h2 in
    let (d, h4) = require-ok (match_string valid_hash info.file_hash) Key.file_hash _ h3 in
    let (e, h5) = require-ok (not (is_zero info.file_size)) Key.file_size _ h4 in
    let (f, h6) = require-ok (match_string valid_hash info.nar_hash) Key.nar_hash _ h5 in
    let (g, h7) = require-ok (not (is_zero info.nar_size)) Key.nar_size _ h6 in
    let (i, h8) = then-ok (check_references info.references) _ h7 in
    record {
      store_path_ok = match_string_sound valid_nix_store_path info.store_path a;
      url_ok = match_string_sound valid_url info.url b;
      compression_ok = match_string_sound valid_compression info.compression c;
      file_hash_ok = match_string_sound valid_hash info.file_hash d;
      file_size_ok = not-true (is_zero info.file_size) e;
      nar_hash_ok = match_string_sound valid_hash info.nar_hash f;
      nar_size_ok = not-true (is_zero info.nar_size) g;
      references_ok = check_references-All info.references i;
      deriver_ok =
          deriver_of
            (last-ok (null info.deriver || match_string valid_deriver info.deriver) Key.deriver h8);
    }
  where
    deriver_of :
        (null info.deriver || match_string valid_deriver info.deriver) ≡ true
        → (info.deriver ≡ []) ⊎ Matches valid_deriver info.deriver
    deriver_of h = elim (deriver_test info.deriver (match_string valid_deriver info.deriver) h) [
      | inl e ↦ inl e
      | inr e ↦ inr (match_string_sound valid_deriver info.deriver e)
    ]

deriver_accepted :
    (d : Bytes)
    → (d ≡ []) ⊎ Matches valid_deriver d
    → (null d || match_string valid_deriver d) ≡ true
deriver_accepted d (inl e) = rw e refl
deriver_accepted [] (inr m) = refl
deriver_accepted (c ∷ d) (inr m) = match_string_complete valid_deriver (c ∷ d) m

pub IsValid-validate : (info : Narinfo) → IsValid info → validate info ≡ ok tt
unfolding validate
IsValid-validate info v = rw (
  match_string_complete valid_nix_store_path info.store_path v.store_path_ok,
  match_string_complete valid_url info.url v.url_ok,
  match_string_complete valid_compression info.compression v.compression_ok,
  match_string_complete valid_hash info.file_hash v.file_hash_ok,
  v.file_size_ok,
  match_string_complete valid_hash info.nar_hash v.nar_hash_ok,
  v.nar_size_ok,
  All-check_references info.references v.references_ok,
  deriver_accepted info.deriver v.deriver_ok,
)

-- `Validate` returns no error for exactly the records whose fields fit the patterns, with sizes other
-- than zero and a deriver that may be empty.
pub validate_iff : (info : Narinfo) → (validate info ≡ ok tt) ↔ IsValid info
validate_iff info = (validate-IsValid info, IsValid-validate info)
