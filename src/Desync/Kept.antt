-- ===== src/Desync/Kept.antt =====
-- Data that is kept in the store under the name of an index.
use spongix.Base.{Bytes, List, [], ◌∷◌, some, ◌≡◌, ◌∙◌}
use spongix.Desync.{Desync, Index, Has, Pieces, Laws}

module _ (d : Desync) where
  -- The bytes are kept under the name.
  abbrev pub Stored : d.World → Bytes → Bytes → Type 0
  Stored w k bytes = (idx : Index) × (d.get_index k w ≡ some idx) × Pieces d w idx.chunks bytes

  pub Pieces-keep :
      (w w' : d.World)
      → ((id piece : Bytes) → Has d w id piece → Has d w' id piece)
      → (ids : List Bytes) (bytes : Bytes) → Pieces d w ids bytes
      → Pieces d w' ids bytes
  Pieces-keep w w' same [] bytes e = e
  Pieces-keep w w' same (id ∷ ids) bytes (piece, rest, e, (has, more)) =
      (piece, rest, e, (same id piece has, Pieces-keep w w' same ids rest more))

  pub stored-Pieces :
      (laws : Laws d) (k : Bytes) (idx : Index) (w : d.World) (ids : List Bytes) (bytes : Bytes)
      → Pieces d w ids bytes
      → Pieces d (d.store_index k idx w).0 ids bytes
  stored-Pieces laws k idx w =
      Pieces-keep w (d.store_index k idx w).0
        (λ id piece (c, found, has). (c, laws.keeps_chunks k idx w id ∙ found, has))
