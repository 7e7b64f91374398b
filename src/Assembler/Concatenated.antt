-- ===== src/Assembler/Concatenated.antt =====
-- What a copy of an index must give: its chunks, one after the other.
use spongix.Base.{
  ℕ, ◌+◌, List, [], ◌∷◌, ◌++◌, Option, none, some, Bytes, length, ◌==◌, if◌then◌else◌,
}
use spongix.Assembler.{no_chunk, no_data, wrong_length, Copied, copied, stopped}

abbrev pub data_then : (Bytes → Copied) → Bytes → Option Bytes → Copied
data_then rest out none = stopped out no_data
data_then rest out (some bytes) = rest (out ++ bytes)

abbrev pub data_size : Option Bytes → ℕ
data_size none = 0
data_size (some bytes) = length bytes

module _ {Chunk : Type 0} (get_chunk : Bytes → Option Chunk)
    (chunk_data : Chunk → Option Bytes) where
  abbrev pub chunk_then : (Bytes → Copied) → Bytes → Option Chunk → Copied
  chunk_then rest out none = stopped out no_chunk
  chunk_then rest out (some chunk) = data_then rest out (chunk_data chunk)

  -- The chunks one after the other behind `out`, up to the first that cannot be read; then the length is
  -- compared with that of the index.
  unfoldable pub concatenated : ℕ → List Bytes → Bytes → Copied
  concatenated total [] out = if length out == total then copied out else stopped out wrong_length
  concatenated total (id ∷ ids) out = chunk_then (concatenated total ids) out (get_chunk id)

  abbrev pub chunk_size : Option Chunk → ℕ
  chunk_size none = 0
  chunk_size (some chunk) = data_size (chunk_data chunk)

  -- The bytes of the chunks that can be read.
  unfoldable pub stored_size : List Bytes → ℕ
  stored_size [] = 0
  stored_size (id ∷ ids) = chunk_size (get_chunk id) + stored_size ids
