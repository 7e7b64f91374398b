-- ===== src/Keys/Finds.antt =====
-- The keys that are loaded are those of the texts.
use spongix.Base.{
  Bytes, List, [], ◌∷◌, ◌++◌, Option, none, some, if◌then◌else◌, ◌≡◌, ◌≢◌, refl, ap, ◌∙◌, All,
  Lacks, map,
}
use spongix.Strings.{equal}
use spongix.Strings.Parts.{split_pair-append}
use spongix.Assoc.{Assoc, lookup, insert, lookup-insert}
use spongix.Keys.{
  Loaded, loaded, parse_nix_pair, load_public, load_nix_public_keys, load_nix_private_keys,
  read_pairs,
}

-- The text of a key, for an encoder.
abbrev pub key_text : (Bytes → Bytes) → Bytes × Bytes → Bytes
key_text encode (name, value) = name ++ b':' ∷ encode value

-- The name is not empty and has no colon.
abbrev pub IsName : Bytes × Bytes → Type 0
IsName (name, value) = (name ≢ []) × Lacks b':' name

-- The value of the last pair of a name, or the one given.
abbrev pub last_value : Bytes → Option Bytes → List (Bytes × Bytes) → Option Bytes
last_value j found [] = found
last_value j found ((name, value) ∷ pairs) =
    last_value j (if equal name j then some value else found) pairs

-- The map was loaded, and each name has the value of the last pair of this name.
abbrev pub Finds : Loaded (Assoc Bytes) → (Bytes → Option Bytes) → Type 0
Finds result values =
    (m : Assoc Bytes) × (result ≡ loaded m) × ((j : Bytes) → lookup j m ≡ values j)

module _ (encode : Bytes → Bytes) (decode : Bytes → Option Bytes)
    (decode-encode : (b : Bytes) → decode (encode b) ≡ some b) where
  parse_nix_pair-key_text :
      (name value : Bytes)
      → IsName (name, value)
      → parse_nix_pair decode (key_text encode (name, value)) ≡ loaded (name, value)
  unfolding parse_nix_pair
  parse_nix_pair-key_text [] value (ne, h) = absurd (ne refl)
  parse_nix_pair-key_text (c ∷ name) value (ne, h) =
      rw (split_pair-append b':' (c ∷ name) (encode value) h, decode-encode value) refl

  load_public-Finds :
      (keys : Assoc Bytes) (pairs : List (Bytes × Bytes))
      → All IsName pairs
      → Finds
          (load_public decode keys (map (key_text encode) pairs))
          (λ j. last_value j (lookup j keys) pairs)
  unfolding load_public
  load_public-Finds keys [] h = (keys, refl, λ j. refl)
  load_public-Finds keys ((name, value) ∷ pairs) (hp, h) =
      let (m, e, finds) = load_public-Finds (insert name value keys) pairs h in
      rw (parse_nix_pair-key_text name value hp)
        (m, e, λ j. finds j ∙ ap (λ z. last_value j z pairs) (lookup-insert name j value keys))

  -- The public keys of texts `name:key` with non-empty names are all loaded; for a name that occurs
  -- more than once the last key counts.
  pub load_nix_public_keys-Finds :
      (pairs : List (Bytes × Bytes))
      → All IsName pairs
      → Finds
          (load_nix_public_keys decode (map (key_text encode) pairs))
          (λ j. last_value j none pairs)
  unfolding load_nix_public_keys lookup
  load_nix_public_keys-Finds pairs h = load_public-Finds [] pairs h

  module _ (read_file : Bytes → Option Bytes) where
    -- Each path with the pair whose text the file holds.
    abbrev pub Holds : Bytes × (Bytes × Bytes) → Type 0
    Holds (path, pair) = (read_file path ≡ some (key_text encode pair)) × IsName pair

    read_pairs-Finds :
        (keys : Assoc Bytes) (files : List (Bytes × (Bytes × Bytes)))
        → All Holds files
        → Finds
            (read_pairs decode read_file keys (map (λ f. f.0) files))
            (λ j. last_value j (lookup j keys) (map (λ f. f.1) files))
    unfolding read_pairs
    read_pairs-Finds keys [] h = (keys, refl, λ j. refl)
    read_pairs-Finds keys ((path, (name, value)) ∷ files) ((found, hp), h) =
        let (m, e, finds) = read_pairs-Finds (insert name value keys) files h in
        rw (found, parse_nix_pair-key_text name value hp)
          (
            m,
            e,
            λ j.
                finds j
                ∙ ap (λ z. last_value j z (map (λ f. f.1) files)) (lookup-insert name j value keys),
          )

    -- The private keys of files that hold such texts are all loaded, the last file of a name counting.
    pub load_nix_private_keys-Finds :
        (files : List (Bytes × (Bytes × Bytes)))
        → All Holds files
        → Finds
            (load_nix_private_keys decode read_file (map (λ f. f.0) files))
            (λ j. last_value j none (map (λ f. f.1) files))
    unfolding load_nix_private_keys lookup
    load_nix_private_keys-Finds files h = read_pairs-Finds [] files h
