-- ===== src/Fakes.antt =====
-- fake.go: the stores in memory that the tests put in place of those of desync. The chunks, and the
-- format of an index, are desync's and parameters.
pub mod Meets
use spongix.Base.{
  ℕ, Bytes, List, [], ◌∷◌, Option, none, some, Bool, true, false, Input, ◌≡◌, ◌≢◌, refl, sym, ap,
  ◌∙◌, subst, arith, if◌then◌else◌, inl, inr, Option-cases,
}
use mathlib.Core.Option.{some-injective}
use spongix.Strings.{equal}
use spongix.Strings.Parts.{equal_iff, equal_self}
use spongix.Assoc.{Assoc, lookup, insert, lookup-insert}
use spongix.Desync.{Desync, Index}

-- `NewChunk`, the methods `Data` and `ID`, and the two forms of an index.
pub record Formats : Type 1 where
  pub Chunk : Type 0
  pub new_chunk : Bytes → Chunk
  pub data_of : Chunk → Option Bytes
  pub id_of : Chunk → Bytes
  pub write_to : Index → Option Bytes
  pub index_from_reader : Bytes → Option Index

pub record Fakes : Type 0 where
  pub chunks : Assoc Bytes
  pub indices : Assoc Bytes

abbrev pub new_fakes : Fakes
new_fakes = record { chunks = []; indices = [] }

module _ (f : Formats) where
  abbrev pub chunk_of : Option Bytes → Option f.Chunk
  chunk_of none = none
  chunk_of (some found) = some (f.new_chunk found)

  unfoldable pub fake_get_chunk : Bytes → Fakes → Option f.Chunk
  unfolding lookup
  fake_get_chunk id s = chunk_of (lookup id s.chunks)

  abbrev pub is_there : Option Bytes → Bool
  is_there none = false
  is_there (some found) = true

  unfoldable pub fake_has_chunk : Bytes → Fakes → Bool
  unfolding lookup
  fake_has_chunk id s = is_there (lookup id s.chunks)

  unfoldable pub store_data : Bytes → Option Bytes → Fakes → Fakes × Bool
  unfolding insert
  store_data id none s = (s, false)
  store_data id (some content) s = (record s { chunks = insert id content s.chunks }, true)

  unfoldable pub fake_store_chunk : f.Chunk → Fakes → Fakes × Bool
  unfolding store_data
  fake_store_chunk chunk s = store_data (f.id_of chunk) (f.data_of chunk) s

  unfoldable pub store_written : Bytes → Option Bytes → Fakes → Fakes × Bool
  unfolding insert
  store_written name none s = (s, false)
  store_written name (some content) s = (record s { indices = insert name content s.indices }, true)

  unfoldable pub fake_store_index : Bytes → Index → Fakes → Fakes × Bool
  unfolding store_written
  fake_store_index name idx s = store_written name (f.write_to idx) s

  abbrev pub index_of : Option Bytes → Option Index
  index_of none = none
  index_of (some content) = f.index_from_reader content

  unfoldable pub fake_get_index : Bytes → Fakes → Option Index
  unfolding lookup
  fake_get_index name s = index_of (lookup name s.indices)

  -- The stores as the handlers see them. The chunker and `ChunkStream` are desync's own.
  abbrev pub over_fakes :
      (Chunker : Type 0)
      → (Input → Option Chunker)
      → (Chunker → Fakes → Fakes × Option Index)
      → Desync
  over_fakes Chunker new_chunker chunk_stream = record {
    World = Fakes;
    Chunker = Chunker;
    Chunk = f.Chunk;
    new_chunker = new_chunker;
    chunk_stream = chunk_stream;
    store_index = fake_store_index;
    get_index = fake_get_index;
    get_chunk = fake_get_chunk;
    chunk_data = f.data_of;
  }
