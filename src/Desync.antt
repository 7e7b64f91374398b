-- ===== src/Desync.antt =====
-- What the program sees of the desync library, which is no part of the repository: its calls are the
-- fields of a record, the laws of the local store that the program relies on are another.
pub mod Kept
use spongix.Base.{
  ℕ, Bytes, List, [], ◌∷◌, ◌++◌, Option, none, some, Bool, true, false, ◌≡◌, ◌≢◌, Input,
}

-- The ids of the chunks in order, and the answer of the method `Length`.
pub record Index : Type 0 where
  pub chunks : List Bytes
  pub index_length : ℕ

-- A state of the chunk store and of the index store, and the calls. `none` and `false` are errors.
pub record Desync : Type 1 where
  pub World : Type 0
  pub Chunker : Type 0
  pub Chunk : Type 0
  pub new_chunker : Input → Option Chunker
  pub chunk_stream : Chunker → World → World × Option Index
  pub store_index : Bytes → Index → World → World × Bool
  pub get_index : Bytes → World → Option Index
  pub get_chunk : Bytes → World → Option Chunk
  pub chunk_data : Chunk → Option Bytes

module _ (d : Desync) where
  -- The store has the bytes as the chunk of this id.
  abbrev pub Has : d.World → Bytes → Bytes → Type 0
  Has w id piece = (c : d.Chunk) × (d.get_chunk id w ≡ some c) × (d.chunk_data c ≡ some piece)

  -- The chunks of these ids are the pieces of the bytes.
  abbrev pub Pieces : d.World → List Bytes → Bytes → Type 0
  Pieces w [] bytes = bytes ≡ []
  Pieces w (id ∷ ids) bytes =
      (piece : Bytes) × (rest : Bytes) × (bytes ≡ piece ++ rest)
      × (Has w id piece × Pieces w ids rest)

  -- `ChunkStream` cuts a stream into chunks that it stores, keeps the chunks of before, and touches no
  -- index; `StoreIndex` writes what `GetIndex` reads, under the one name, and touches no chunk.
  pub record Laws : Type 0 where
    pub cuts :
        (input : Bytes) (ch : d.Chunker) (w w' : d.World) (idx : Index)
        → d.new_chunker (record { content = input; failed = false }) ≡ some ch
        → d.chunk_stream ch w ≡ (w', some idx)
        → Pieces w' idx.chunks input
    pub adds :
        (ch : d.Chunker) (w : d.World) (id piece : Bytes)
        → Has w id piece
        → Has (d.chunk_stream ch w).0 id piece
    pub keeps_index :
        (ch : d.Chunker) (w : d.World) (name : Bytes)
        → d.get_index name (d.chunk_stream ch w).0 ≡ d.get_index name w
    pub stores :
        (name : Bytes) (idx : Index) (w w' : d.World)
        → d.store_index name idx w ≡ (w', true)
        → d.get_index name w' ≡ some idx
    pub stores_there :
        (name other : Bytes) (idx : Index) (w : d.World)
        → name ≢ other
        → d.get_index other (d.store_index name idx w).0 ≡ d.get_index other w
    pub keeps_chunks :
        (name : Bytes) (idx : Index) (w : d.World) (id : Bytes)
        → d.get_chunk id (d.store_index name idx w).0 ≡ d.get_chunk id w
