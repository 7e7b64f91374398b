-- ===== src/Narinfo/Signatures.antt =====
-- The signatures of a narinfo. `crypto/ed25519` and `encoding/base64` are parameters, with the laws that
-- their documentation gives; the tests of the key lengths, on which ed25519 panics, are written out.
-- `none` is a panic.
pub mod Kept
pub mod Total
pub use spongix.Base.Options.{◌>>=◌}
use spongix.Base.{
  ℕ, ◌≡◌, Bool, true, false, List, [], ◌∷◌, ◌++◌, Option, none, some, Bytes, codes, map, length,
  ◌==◌, if◌then◌else◌, ◌||◌,
}
use spongix.Strings.{equal, split_pair, join}
use spongix.Decimal.{format_int}
use spongix.Narinfo.{Narinfo}

-- The keys are bytes: a public key has 32, a private key 64.
pub record Crypto : Type 0 where
  pub sign_with : Bytes → Bytes → Bytes
  pub verify_with : Bytes → Bytes → Bytes → Bool
  pub public_key : Bytes → Bytes
  pub encode : Bytes → Bytes
  pub decode : Bytes → Option Bytes
  pub public_key_length : (key : Bytes) → length key ≡ 64 → length (public_key key) ≡ 32
  pub verify_signed :
      (key msg : Bytes)
      → length key ≡ 64
      → verify_with (public_key key) msg (sign_with key msg) ≡ true
  pub decode-encode : (b : Bytes) → decode (encode b) ≡ some b

-- A map from names to keys, as the list of its entries in the order of iteration.
abbrev pub Keys : Type 0
Keys = List (Bytes × Bytes)

unfoldable pub find_key : Bytes → Keys → Option Bytes
unfolding equal
find_key name [] = none
find_key name ((n, key) ∷ keys) = if equal n name then some key else find_key name keys

unfoldable pub sign_msg : Narinfo → Bytes
unfolding join format_int
sign_msg info =
    codes "1;"
    ++ (info.store_path
        ++ (codes ";"
            ++ (info.nar_hash
                ++ (codes ";"
                    ++ (format_int info.nar_size
                        ++ (codes ";"
                            ++ join (codes ",")
                                (map (λ ref. codes "/nix/store/" ++ ref) info.references)))))))

-- Where a signature goes. One of an unknown name goes to neither list.
pub data Verdict : Type 0 where
  valid invalid dropped : Verdict

abbrev Split : Type 0
Split = List Bytes × List Bytes

add_verdict : Verdict → Bytes → Split → Split
add_verdict valid s (v, i) = (v ++ s ∷ [], i)
add_verdict invalid s (v, i) = (v, i ++ s ∷ [])
add_verdict dropped s split = split

-- The loop that looks for the signature.
unfoldable pub is_missing : Bytes → List Bytes → Bool
unfolding equal
is_missing s [] = true
is_missing s (t ∷ sigs) = if equal t s then false else is_missing s sigs

module _ (c : Crypto) where
  open c use {sign_with, verify_with, encode, decode}

  -- `ed25519.Verify` and `ed25519.Sign`.
  abbrev pub verify : Bytes → Bytes → Bytes → Option Bool
  verify key msg signature = if length key == 32 then some (verify_with key msg signature) else none

  abbrev pub sign_bytes : Bytes → Bytes → Option Bytes
  sign_bytes key msg = if length key == 64 then some (sign_with key msg) else none

  abbrev judge : Bytes → Bytes → Option Bytes → Option Verdict
  judge msg signature none = some dropped
  judge msg signature (some key) = do
    good ← verify key msg signature
    some (if good then valid else invalid)

  abbrev judge_decoded : Keys → Bytes → Bytes → Option Bytes → Option Verdict
  judge_decoded keys msg name none = some invalid
  judge_decoded keys msg name (some signature) = judge msg signature (find_key name keys)

  -- The body of the loop; the slice `sig[0:i]` panics if there is no colon.
  unfoldable pub classify : Keys → Bytes → Bytes → Option Verdict
  unfolding find_key split_pair
  classify keys msg s = do
    (name, encoded) ← split_pair (codes ":") s
    judge_decoded keys msg name (decode encoded)

  unfoldable pub classify_all : Keys → Bytes → List Bytes → Split → Option Split
  unfolding classify add_verdict
  classify_all keys msg [] split = some split
  classify_all keys msg (s ∷ sigs) split = do
    v ← classify keys msg s
    classify_all keys msg sigs (add_verdict v s split)

  unfoldable pub valid_invalid_signatures : Keys → Narinfo → Option Split
  unfolding classify_all sign_msg
  valid_invalid_signatures keys info = classify_all keys (sign_msg info) info.sig ([], [])

  unfoldable pub sanitize_signatures : Keys → Narinfo → Option Narinfo
  unfolding valid_invalid_signatures
  sanitize_signatures keys info = do
    split ← valid_invalid_signatures keys info
    some (record info { sig = split.0 })

  unfoldable pub signature : Bytes → Bytes → Narinfo → Option Bytes
  unfolding sign_msg
  signature name key info = do
    signed ← sign_bytes key (sign_msg info)
    some (name ++ (codes ":" ++ encode signed))

  unfoldable pub sign : Bytes → Bytes → Narinfo → Option Narinfo
  unfolding signature is_missing
  sign name key info = do
    s ← signature name key info
    some (if is_missing s info.sig then record info { sig = info.sig ++ s ∷ [] } else info)
