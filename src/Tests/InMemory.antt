-- ===== src/Tests/InMemory.antt =====
-- The fakes, with chunks that are their own ids, and the theorem on them.
use spongix.Base.{
  ℕ, Bytes, codes, inl, inr, List, [], ◌∷◌, ◌++◌, Option, none, some, Input, ◌≢◌, refl, ap, arith,
}
use spongix.Desync.{Index}
use spongix.Desync.Kept.{Stored}
use spongix.Fakes.{Formats, Fakes, new_fakes}
use spongix.Fakes.Meets.{StoreCall, put_chunk, put_index, run, ChunkLaws, fakes, run-Stored}

-- Only an index of one chunk is written: the length, and the id.
abbrev written_form : ℕ → List Bytes → Option Bytes
written_form n (id ∷ []) = some (n ∷ id)
written_form n [] = none
written_form n (id ∷ more ∷ ids) = none

abbrev read_form : Bytes → Option Index
read_form [] = none
read_form (n ∷ id) = some (record { chunks = id ∷ []; index_length = n })

abbrev formats : Formats
formats = record {
  Chunk = Bytes;
  new_chunk = λ b. b;
  data_of = some;
  id_of = λ c. c;
  write_to = λ idx. written_form idx.index_length idx.chunks;
  index_from_reader = read_form;
}

abbrev formats_ChunkLaws : ChunkLaws formats
formats_ChunkLaws = record { has_data = λ content. refl; same_data = λ c c' e. ap some e }

abbrev no_stream : Bytes → Fakes → Fakes × Option Index
no_stream content w = (w, none)

abbrev no_chunker : Input → Option Bytes
no_chunker i = none

abbrev index_of_hello : Index
index_of_hello = record { chunks = codes "hello" ∷ []; index_length = 5 }

abbrev index_of_other : Index
index_of_other = record { chunks = codes "other" ∷ []; index_length = 5 }

-- The chunk between two others, then its index, then another chunk under another name.
abbrev calls_before : List (StoreCall formats)
calls_before = put_chunk (codes "some") ∷ put_chunk (codes "hello") ∷ []

abbrev calls_after : List (StoreCall formats)
calls_after = put_chunk (codes "other") ∷ put_index (codes "b") index_of_other ∷ []

names_differ : codes "b" ≢ codes "a"
names_differ = ground arith

run-Stored_example :
    Stored
      (fakes formats Bytes no_chunker no_stream)
      (run formats (calls_before ++ put_index (codes "a") index_of_hello ∷ calls_after) new_fakes)
      (codes "a")
      (codes "hello")
run-Stored_example =
    run-Stored formats Bytes no_chunker no_stream formats_ChunkLaws (codes "hello" ∷ [])
      (codes "hello") (codes "a") (5 ∷ codes "hello") index_of_hello calls_before calls_after
      new_fakes (codes "hello", [], refl, (refl, refl)) (inr (inl refl), tt) refl refl refl
      (tt, (names_differ, tt))
