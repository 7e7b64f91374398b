-- ===== src/Assoc.antt =====
-- Go's maps with string keys, as association lists, and their laws.
use spongix.Base.{◌≡◌, refl, List, [], ◌∷◌, Option, none, some, Bytes, arith, if◌then◌else◌}
use spongix.Strings.{equal}
use spongix.Strings.Parts.{equal_iff}

abbrev pub Assoc {ℓ} : Type ℓ → Type ℓ
Assoc V = List (Bytes × V)

module _ {ℓ} {V : Type ℓ} where
  -- m[k], with `none` for the missing key.
  unfoldable pub lookup : Bytes → Assoc V → Option V
  unfolding equal
  lookup k [] = none
  lookup k ((j, v) ∷ m) = if equal j k then some v else lookup k m

  -- m[k] = v
  unfoldable pub insert : Bytes → V → Assoc V → Assoc V
  unfolding equal
  insert name value [] = (name, value) ∷ []
  insert name value ((first, held) ∷ entries) =
      let rest = insert name value entries in
      if equal first name then (first, value) ∷ entries else (first, held) ∷ rest

  -- delete(m, k)
  unfoldable pub remove : Bytes → Assoc V → Assoc V
  unfolding equal
  remove k [] = []
  remove k ((j, w) ∷ m) = let rest = remove k m in if equal j k then rest else (j, w) ∷ rest

  -- What a key finds after a write, and after a delete.
  pub lookup-insert :
      (name other : Bytes) (value : V) (entries : Assoc V)
      → lookup other (insert name value entries)
        ≡ (if equal name other then some value else lookup other entries)
  unfolding insert lookup
  lookup-insert name other value ((first, held) ∷ entries) = ground (
    arith,
    lookup-insert name other value entries,
    equal_iff first name,
    equal_iff first other,
    equal_iff name other,
  )
  lookup-insert name other value [] = refl

  pub lookup-remove :
      (name other : Bytes) (entries : Assoc V)
      → lookup other (remove name entries)
        ≡ (if equal name other then none else lookup other entries)
  unfolding remove lookup
  lookup-remove name other ((first, held) ∷ entries) = ground (
    arith,
    lookup-remove name other entries,
    equal_iff first name,
    equal_iff first other,
    equal_iff name other,
  )
  lookup-remove name other [] = ground arith
