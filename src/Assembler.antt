-- ===== src/Assembler.antt =====
-- assemble.go: a reader over the chunks of an index. The store's `GetChunk` and the chunk's `Data` are
-- parameters; `none` is an error. The counters of int64 are kept as bit patterns of 64 bits.
pub mod Concatenated
pub mod Copies
pub mod Narinfos
use spongix.Base.{
  ℕ, zero, suc, ◌+◌, ◌%◌, ◌^◌, Bool, true, false, not, List, [], ◌∷◌, ◌++◌, Option, none, some,
  Bytes, length, get_elem?, take, drop, null, leb, ◌==◌, if◌then◌else◌,
}
use spongix.Desync.{Index}

pub record Assembler : Type 0 where
  pub index : Index
  pub idx : ℕ
  pub unread : Bytes
  pub read_bytes : ℕ
  pub wrote_bytes : ℕ

unfoldable pub new_assembler : Index → Assembler
new_assembler index = record {
  index = index;
  idx = 0;
  unread = [];
  read_bytes = 0;
  wrote_bytes = 0;
}

unfoldable pub assemble : Index → Assembler
unfolding new_assembler
assemble index = new_assembler index

pub data ReadError : Type 0 where
  no_chunk no_data wrong_length bytes_differ : ReadError

-- The bytes that a call of `Read` puts into the buffer with no error, the end, or an error.
pub data Read : Type 0 where
  got : Bytes → Read
  eof : Read
  failed : ReadError → Read

abbrev pub wrap : ℕ → ℕ
wrap n = n % 2 ^ 64

-- `a.data.Read(p)` into a buffer of `n` bytes, with its count.
abbrev hand_out : ℕ → Assembler → Assembler × Read
hand_out n a = (
  record a {
    unread = drop n a.unread;
    wrote_bytes = wrap (a.wrote_bytes + length (take n a.unread));
  },
  got (take n a.unread),
)

-- Behind the last chunk.
abbrev at_end : Assembler → Read
at_end a =
    if not (a.wrote_bytes == a.index.index_length)
    then failed wrong_length
    else if not (a.wrote_bytes == a.read_bytes)
    then failed bytes_differ
    else eof

-- What a copy of the reader ends with; `running` means that the fuel ran out.
pub data Copied : Type 0 where
  copied : Bytes → Copied
  stopped : Bytes → ReadError → Copied
  running : Copied

abbrev copy_step : (Assembler → Bytes → Copied) → Bytes → Assembler × Read → Copied
copy_step rest out (a, got bytes) = rest a (out ++ bytes)
copy_step rest out (a, eof) = copied out
copy_step rest out (a, failed e) = stopped out e

module _ {Chunk : Type 0} (get_chunk : Bytes → Option Chunk)
    (chunk_data : Chunk → Option Bytes) where
  abbrev load_data : ℕ → Assembler → Option Bytes → Assembler × Read
  load_data n a none = (a, failed no_data)
  load_data n a (some bytes) =
      let (a', out) = hand_out n (record a {
        unread = a.unread ++ bytes;
        read_bytes = wrap (a.read_bytes + length bytes);
      }) in
      (record a' { idx = a.idx + 1 }, out)

  abbrev load_chunk : ℕ → Assembler → Option Chunk → Assembler × Read
  load_chunk n a none = (a, failed no_chunk)
  load_chunk n a (some chunk) = load_data n a (chunk_data chunk)

  abbrev next_chunk : ℕ → Assembler → Option Bytes → Assembler × Read
  next_chunk n a none = (a, at_end a)
  next_chunk n a (some id) = load_chunk n a (get_chunk id)

  -- `Read(p)` with `n` the length of `p`.
  unfoldable pub read : ℕ → Assembler → Assembler × Read
  read n a =
      if not (null a.unread)
      then hand_out n a
      else if leb (length a.index.chunks) a.idx
      then (a, at_end a)
      else next_chunk n a (get_elem? a.index.chunks a.idx)

  -- The loop of `io.Copy` over the reader, with a buffer of `n` bytes.
  unfoldable pub copy_all : ℕ → ℕ → Assembler → Bytes → Copied
  unfolding read
  copy_all zero n a out = running
  copy_all (suc fuel) n a out = copy_step (copy_all fuel n) out (read n a)
