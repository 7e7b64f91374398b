-- ===== src/Tests/Samples.antt =====
-- The data of narinfo_test.go, and a signature scheme that meets the laws.
use spongix.Base.{
  ◌≡◌, refl, Bool, true, [], ◌∷◌, ◌++◌, some, Bytes, codes, pos, take, length, length-take_of_le,
  arith,
}
use spongix.Strings.{equal}
use spongix.Strings.Parts.{equal_self}
use spongix.Narinfo.{Narinfo}
use spongix.Narinfo.Signatures.{Crypto, Keys}

abbrev pub some_hash : Bytes
some_hash = codes "sha256:0f54iihf02azn24vm6gky7xxpadq5693qrjzkaavbnd68shvgbd7"

-- `validNarinfo`.
abbrev pub sample : Narinfo
sample = record {
  name = [];
  store_path = codes "/nix/store/00000000000000000000000000000000-some";
  url = codes "nar/0000000000000000000000000000000000000000000000000000.nar.xz";
  compression = codes "xz";
  file_hash = some_hash;
  file_size = pos 1;
  nar_hash = some_hash;
  nar_size = pos 1;
  references = codes "00000000000000000000000000000000-some" ∷ [];
  deriver = codes "r92m816zcm8v9zjr55lmgy4pdibjbyjp-foo.drv";
  sig = [];
  ca = [];
}

-- The key is copied into the signature.
abbrev toy_verify : Bytes → Bytes → Bytes → Bool
toy_verify key msg signature = equal (key ++ msg) signature

pub toy_public_length : (key : Bytes) → length key ≡ 64 → length (take 32 key) ≡ 32
toy_public_length key h = length-take_of_le 32 key (omega arith)

pub toy_verifies :
    (key msg : Bytes) → length key ≡ 64 → toy_verify (take 32 key) msg (take 32 key ++ msg) ≡ true
toy_verifies key msg h = equal_self (take 32 key ++ msg)

pub toy_decode : (b : Bytes) → some b ≡ some b
toy_decode b = refl

abbrev pub toy : Crypto
toy = record {
  sign_with = λ key msg. take 32 key ++ msg;
  verify_with = toy_verify;
  public_key = take 32;
  encode = λ b. b;
  decode = some;
  public_key_length = toy_public_length;
  verify_signed = toy_verifies;
  decode-encode = toy_decode;
}

-- A private key of 64 bytes, and the map that trusts its public half.
abbrev pub some_secret : Bytes
some_secret = codes "0123456789abcdef0123456789abcdef0123456789abcdef0123456789abcdef"

abbrev pub secret_keys : Keys
secret_keys = (codes "test", some_secret) ∷ []

abbrev pub trusted_keys : Keys
trusted_keys = (codes "test", take 32 some_secret) ∷ []
