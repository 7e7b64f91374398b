-- ===== src/Tests/KeyFiles.antt =====
-- The loading of keys, with an encoding that is the identity.
use spongix.Base.{Bytes, [], ◌∷◌, Option, none, some, ◌≡◌, refl, codes, arith}
use spongix.Keys.{refused, no_name, load_nix_public_keys, load_nix_private_keys}
use spongix.Keys.Finds.{Finds, last_value, load_nix_public_keys-Finds, load_nix_private_keys-Finds}

abbrev same : Bytes → Bytes
same b = b

decode-same : (b : Bytes) → some (same b) ≡ some b
decode-same b = refl

-- A key of no name is refused.
no_name-run : load_nix_public_keys some (codes ":value" ∷ []) ≡ refused no_name
unfolding load_nix_public_keys
no_name-run = refl

load_nix_public_keys-Finds_example :
    Finds
      (load_nix_public_keys some (codes "a:1" ∷ codes "a:2" ∷ []))
      (λ j. last_value j none ((codes "a", codes "1") ∷ (codes "a", codes "2") ∷ []))
load_nix_public_keys-Finds_example =
    load_nix_public_keys-Finds same some decode-same
      ((codes "a", codes "1") ∷ (codes "a", codes "2") ∷ [])
      ((λ e. cc, (omega arith, tt)), ((λ e. cc, (omega arith, tt)), tt))

-- Every path is a file with the same key.
abbrev read_file : Bytes → Option Bytes
read_file path = some (codes "b:1")

load_nix_private_keys-Finds_example :
    Finds
      (load_nix_private_keys some read_file (codes "/key" ∷ []))
      (λ j. last_value j none ((codes "b", codes "1") ∷ []))
load_nix_private_keys-Finds_example =
    load_nix_private_keys-Finds same some decode-same read_file
      ((codes "/key", (codes "b", codes "1")) ∷ []) ((refl, (λ e. cc, (omega arith, tt))), tt)
