-- ===== src/Tests/Signing.antt =====
-- Signatures: the test of narinfo_test.go, and the theorems about them.
use spongix.Base.{◌≡◌, refl, ◌≢◌, [], ◌∷◌, ◌++◌, codes, some, none, All, Filters, arith}
use spongix.Narinfo.{Narinfo}
use spongix.Narinfo.Sanitize.{sanitize_nar}
use spongix.Narinfo.Signatures.{sign_msg, valid_invalid_signatures, sanitize_signatures, find_key}
use spongix.Narinfo.Signatures.Kept.{
  Verifies, sanitize_signatures-Filters, valid_invalid_signatures_panic,
}
use spongix.Narinfo.Storage.{prepared}
use spongix.Narinfo.Storage.Signed.{prepared_signed, sign_msg-sanitize_nar}
use spongix.Narinfo.Storage.Total.{prepared_total}
use spongix.Tests.Samples.{sample, toy, secret_keys, trusted_keys}

-- A signature that does not verify.
abbrev with_bad : Narinfo
with_bad = record sample { sig = codes "test:test" ∷ [] }

-- A signature of no colon.
abbrev with_broken : Narinfo
with_broken = record sample { sig = codes "test:test" ∷ codes "broken" ∷ [] }

-- `TestNarinfoVerify`.
bad_signature :
    valid_invalid_signatures toy trusted_keys with_bad ≡ some ([], codes "test:test" ∷ [])
unfolding valid_invalid_signatures
bad_signature = refl

sanitize-with_bad : sanitize_signatures toy trusted_keys with_bad ≡ some sample
unfolding sanitize_signatures
sanitize-with_bad = refl

sanitize_signatures-Filters_example :
    Filters (Verifies toy trusted_keys (sign_msg with_bad)) (codes "test:test" ∷ []) []
    × (sample ≡ record with_bad { sig = [] })
sanitize_signatures-Filters_example =
    sanitize_signatures-Filters toy trusted_keys with_bad sanitize-with_bad

valid_invalid_signatures_panic_example :
    valid_invalid_signatures toy trusted_keys with_broken ≡ none
valid_invalid_signatures_panic_example =
    valid_invalid_signatures_panic toy trusted_keys with_broken (codes "test:test" ∷ []) []
      (codes "broken") refl (omega arith)

sign_msg-sanitize_nar_example : sign_msg (sanitize_nar with_bad) ≡ sign_msg with_bad
sign_msg-sanitize_nar_example = sign_msg-sanitize_nar with_bad

prepared_total_example : (r : Narinfo) × (prepared toy trusted_keys secret_keys with_bad ≡ some r)
prepared_total_example =
    prepared_total toy trusted_keys secret_keys with_bad (refl, tt) (refl, tt)
      (
        record {
          name = codes "test";
          encoded = codes "test";
          spells = refl;
          name_lacks = omega arith;
        },
        tt,
      )

abbrev signed : Narinfo
signed = record (sanitize_nar with_bad) {
  sig = (codes "test:" ++ codes "0123456789abcdef0123456789abcdef" ++ sign_msg with_bad) ∷ [];
}

prepared-with_bad : prepared toy trusted_keys secret_keys with_bad ≡ some signed
unfolding prepared sign_msg
prepared-with_bad = refl

prepared_signed_example :
    (signed ≡ record (sanitize_nar with_bad) { sig = signed.sig })
    × (signed.sig ≢ [])
    × All (Verifies toy trusted_keys (sign_msg with_bad)) signed.sig
unfolding find_key
prepared_signed_example =
    prepared_signed toy trusted_keys secret_keys with_bad ((omega arith, refl), tt) (λ e. cc)
      prepared-with_bad
