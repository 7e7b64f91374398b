-- ===== src/Assembler/Narinfos.antt =====
-- assemble.go: `assembleNarinfo`. The scanner reads the assembler to its end or to its error; the fuel is
-- enough for that, and the size of the buffer does not matter. Left out: bufio.Scanner gives up with
-- io.ErrNoProgress after 100 reads in a row that had no bytes, which takes as many empty chunks in a row.
-- A chunker makes none.
use spongix.Base.{
  ℕ, ◌+◌, ◌^◌, ◌<◌, ◌≡◌, refl, sym, ap, ◌∙◌, arith, true, false, List, [], ◌∷◌, ◌++◌, Bytes, Option,
  some, length, length-append, append_assoc, append-nil, Input, ==_iff,
}
use spongix.Desync.{Desync, Index, Pieces}
use spongix.Narinfo.{Narinfo, Result, ok, blank}
use spongix.Narinfo.Unmarshal.{unmarshal, capacity}
use spongix.Narinfo.Marshal.{marshal}
use spongix.Narinfo.RoundTrip.{IsWritable, read_back, unmarshal-marshal}
use spongix.Assembler.{Copied, copied, stopped, running, assemble, copy_all}
use spongix.Assembler.Concatenated.{concatenated, stored_size}
use spongix.Assembler.Copies.{copy_all-concatenated}

abbrev pub input_of : Copied → Input
input_of (copied bytes) = record { content = bytes; failed = false }
input_of (stopped bytes e) = record { content = bytes; failed = true }
input_of running = record { content = []; failed = true }

module _ (d : Desync) (w : d.World) where
  abbrev get_chunk : Bytes → Option d.Chunk
  get_chunk id = d.get_chunk id w

  -- What a reader gets of `assemble(store, index)`.
  unfoldable pub assembled : Index → Copied
  unfolding copy_all stored_size assemble
  assembled index =
      let fuel = length index.chunks + stored_size get_chunk d.chunk_data index.chunks + 1 in
      copy_all get_chunk d.chunk_data fuel capacity (assemble index) []

  unfoldable pub assemble_narinfo : Index → Result Narinfo
  unfolding assembled unmarshal
  assemble_narinfo index = unmarshal blank (some (input_of (assembled index)))

  Pieces-size :
      (ids : List Bytes) (bytes : Bytes)
      → Pieces d w ids bytes
      → stored_size get_chunk d.chunk_data ids ≡ length bytes
  unfolding stored_size
  Pieces-size [] bytes e = ap length (sym e)
  Pieces-size (id ∷ ids) bytes (piece, rest, e, ((c, found, has), more)) =
      rw (found, has, Pieces-size ids rest more, e, length-append piece rest) refl

  length_nil : (bytes : Bytes) → bytes ≡ [] → length bytes ≡ 0
  length_nil bytes e = ap length e

  concatenated-Pieces :
      (ids : List Bytes) (bytes out : Bytes) (total : ℕ)
      → Pieces d w ids bytes
      → length (out ++ bytes) ≡ total
      → concatenated get_chunk d.chunk_data total ids out ≡ copied (out ++ bytes)
  unfolding concatenated
  concatenated-Pieces [] bytes out total e h =
      rw (e, append-nil out)
        (ground (arith, ==_iff (length out) total, length-append out bytes, length_nil bytes e))
  concatenated-Pieces (id ∷ ids) bytes out total (piece, rest, e, ((c, found, has), more)) h =
      rw (found, has)
        (concatenated-Pieces ids rest (out ++ piece) total more
            (ap length (append_assoc out piece rest) ∙ ap (λ z. length (out ++ z)) (sym e) ∙ h)
          ∙ ap copied (append_assoc out piece rest ∙ ap (λ z. out ++ z) (sym e)))

  -- An index of the right length whose chunks are in the store is read as the bytes that were cut.
  pub assembled-Pieces :
      (index : Index) (bytes : Bytes)
      → Pieces d w index.chunks bytes
      → index.index_length ≡ length bytes
      → length bytes < 2 ^ 64
      → assembled index ≡ copied bytes
  unfolding assembled assemble
  assembled-Pieces index bytes pieces e small =
      copy_all-concatenated get_chunk d.chunk_data
        (length index.chunks + stored_size get_chunk d.chunk_data index.chunks + 1) capacity index
        (omega arith) (omega (arith, Pieces-size index.chunks bytes pieces)) (omega arith)
      ∙ concatenated-Pieces index.chunks bytes [] index.index_length pieces (sym e)

  -- A narinfo that can be written and whose text is kept in the store, under an index of the right
  -- length, is assembled.
  pub assemble_narinfo-marshal :
      (index : Index) (info : Narinfo)
      → IsWritable info
      → Pieces d w index.chunks (marshal info)
      → index.index_length ≡ length (marshal info)
      → length (marshal info) < 2 ^ 64
      → assemble_narinfo index ≡ ok (read_back info)
  unfolding assemble_narinfo
  assemble_narinfo-marshal index info writable pieces e small =
      ap (λ z. unmarshal blank (some (input_of z)))
        (assembled-Pieces index (marshal info) pieces e small)
      ∙ unmarshal-marshal info writable
