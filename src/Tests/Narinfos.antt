-- ===== src/Tests/Narinfos.antt =====
-- Narinfos: the tests of narinfo_test.go, and the theorems about text and validity.
use spongix.Base.{◌≡◌, refl, ◌↔◌, ◌++◌, codes, some, false, arith}
use spongix.Strings.{join}
use spongix.Regex.{match_string}
use spongix.Narinfo.{Key, blank, ok, err, invalid}
use spongix.Narinfo.Validate.{
  validate, valid_nix_store_path, valid_url, valid_compression, valid_hash, valid_store_path,
  valid_deriver,
}
use spongix.Narinfo.Valid.{IsValid, validate_iff, validate-IsValid}
use spongix.Narinfo.Marshal.{marshal}
use spongix.Narinfo.Unmarshal.{unmarshal}
use spongix.Narinfo.RoundTrip.{IsWritable, read_back, unmarshal-marshal}
use spongix.Narinfo.Sanitize.{sanitize_nar}
use spongix.Narinfo.Sanitize.Keeps.{IsPacked, sanitize_nar-IsValid_iff}
use spongix.Tests.Samples.{sample}

validate-sample : validate sample ≡ ok tt
unfolding validate match_string valid_nix_store_path valid_url valid_compression valid_hash
    valid_store_path valid_deriver
validate-sample = refl

-- `TestNarinfoMarshal`.
marshal-sample :
    marshal sample
    ≡ codes "StorePath: /nix/store/00000000000000000000000000000000-some\n"
      ++ codes "URL: nar/0000000000000000000000000000000000000000000000000000.nar.xz\n"
      ++ codes "Compression: xz\n"
      ++ codes "FileHash: sha256:0f54iihf02azn24vm6gky7xxpadq5693qrjzkaavbnd68shvgbd7\n"
      ++ codes "FileSize: 1\n"
      ++ codes "NarHash: sha256:0f54iihf02azn24vm6gky7xxpadq5693qrjzkaavbnd68shvgbd7\n"
      ++ codes "NarSize: 1\n"
      ++ codes "References: 00000000000000000000000000000000-some\n"
      ++ codes "Deriver: r92m816zcm8v9zjr55lmgy4pdibjbyjp-foo.drv\n"
unfolding marshal
marshal-sample = refl

-- `TestNarinfoValidate`: the first field that does not fit is named.
validate-blank : validate blank ≡ err (invalid Key.store_path)
unfolding validate match_string valid_nix_store_path
validate-blank = refl

-- `TestNarinfoSanitizeNar`.
sanitize-sample :
    (sanitize_nar sample).url ≡ codes "nar/0000000000000000000000000000000000000000000000000000.nar"
unfolding sanitize_nar
sanitize-sample = refl

pub sample-IsValid : IsValid sample
sample-IsValid = validate-IsValid sample validate-sample

pub sample-IsWritable : IsWritable sample
unfolding join
sample-IsWritable = record {
  valid = sample-IsValid;
  compression_set = λ e. cc;
  file_size_range = omega arith;
  nar_size_range = omega arith;
  store_path_fits = omega arith;
  references_apart = omega arith;
  references_fit = omega arith;
  deriver_fits = omega arith;
  sig_lines = tt;
}

unmarshal-marshal_example :
    unmarshal blank (some (record { content = marshal sample; failed = false }))
    ≡ ok (read_back sample)
unmarshal-marshal_example = unmarshal-marshal sample sample-IsWritable

validate_iff_example : (validate sample ≡ ok tt) ↔ IsValid sample
validate_iff_example = validate_iff sample

sanitize_nar-IsValid_iff_example : IsValid (sanitize_nar sample) ↔ IsPacked sample.url
sanitize_nar-IsValid_iff_example = sanitize_nar-IsValid_iff sample sample-IsValid (λ e. cc)
