-- ===== src/Keys.antt =====
-- helpers.go: the keys of the proxy, read from the text `name:base64`. The decoder of base64 and the
-- contents of the files are parameters. A map of keys is an association list.
pub mod Finds
use spongix.Base.{
  ℕ, Bytes, List, [], ◌∷◌, ◌++◌, Option, none, some, Bool, true, false, null, if◌then◌else◌,
}
use spongix.Strings.{split_pair}
use spongix.Assoc.{Assoc, insert}

pub data KeyError : Type 0 where
  no_name decoding_failed unreadable : KeyError

pub data Loaded {ℓ} (A : Type ℓ) : Type ℓ where
  loaded : A → Loaded A
  refused : KeyError → Loaded A

infixl 5 ◌>>=◌
abbrev pub ◌>>=◌ {ℓ κ} : {A : Type ℓ} {B : Type κ} → Loaded A → (A → Loaded B) → Loaded B
loaded a >>= f = f a
refused e >>= f = refused e

module _ (decode : Bytes → Option Bytes) where
  abbrev pub decoded : Bytes → Option Bytes → Loaded (Bytes × Bytes)
  decoded name none = refused decoding_failed
  decoded name (some value) = loaded (name, value)

  -- The index of the colon is 1 at least: there is one, and something stands in front of it.
  abbrev pub pair_of : Option (Bytes × Bytes) → Loaded (Bytes × Bytes)
  pair_of none = refused no_name
  pair_of (some (name, encoded)) =
      if null name then refused no_name else decoded name (decode encoded)

  unfoldable pub parse_nix_pair : Bytes → Loaded (Bytes × Bytes)
  unfolding split_pair
  parse_nix_pair input = pair_of (split_pair (b':' ∷ []) input)

  -- The loop, with the map that is filled.
  unfoldable pub load_public : Assoc Bytes → List Bytes → Loaded (Assoc Bytes)
  unfolding parse_nix_pair insert
  load_public keys [] = loaded keys
  load_public keys (raw ∷ rest) = do
    pair ← parse_nix_pair raw
    load_public (insert pair.0 pair.1 keys) rest

  unfoldable pub load_nix_public_keys : List Bytes → Loaded (Assoc Bytes)
  unfolding load_public
  load_nix_public_keys raw_keys = load_public [] raw_keys

  module _ (read_file : Bytes → Option Bytes) where
    abbrev pub readable : Option Bytes → Loaded Bytes
    readable none = refused unreadable
    readable (some raw) = loaded raw

    unfoldable pub read_pairs : Assoc Bytes → List Bytes → Loaded (Assoc Bytes)
    unfolding parse_nix_pair insert
    read_pairs keys [] = loaded keys
    read_pairs keys (path ∷ rest) = do
      raw ← readable (read_file path)
      pair ← parse_nix_pair raw
      read_pairs (insert pair.0 pair.1 keys) rest

    -- The second loop copies the map.
    unfoldable pub load_nix_private_keys : List Bytes → Loaded (Assoc Bytes)
    unfolding read_pairs
    load_nix_private_keys paths = read_pairs [] paths
