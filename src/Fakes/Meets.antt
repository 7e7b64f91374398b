-- ===== src/Fakes/Meets.antt =====
-- The stores in memory keep what is stored in them: any calls in any order.
use spongix.Base.{
  List, [], ◌∷◌, ◌++◌, Bool-cases, inl, inr, sym, ◌∙◌, In, In-append_left, All, map, Bytes, Option,
  none, some, Bool, true, false, Input, ◌≡◌, ◌≢◌, refl, ap, subst, arith, if◌then◌else◌,
}
use spongix.Strings.{equal}
use spongix.Strings.Parts.{equal_iff, equal_self}
use spongix.Assoc.{lookup, lookup-insert}
use spongix.Desync.{Desync, Index, Pieces}
use spongix.Desync.Kept.{Stored}
use spongix.Fakes.{
  Formats, Fakes, chunk_of, fake_get_chunk, fake_has_chunk, store_data, fake_store_chunk,
  store_written, fake_store_index, fake_get_index, over_fakes,
}

module _ (f : Formats) where
  chunk_of-if :
      (b : Bool) (content : Bytes) (other : Option Bytes)
      → chunk_of f (if b then some content else other)
        ≡ (if b then some (f.new_chunk content) else chunk_of f other)
  chunk_of-if true content other = refl
  chunk_of-if false content other = refl

  -- A chunk whose data is known is had again under its id, and every other id has what it had; all
  -- indices are kept.
  pub fake_store_chunk-fake_get_chunk :
      (chunk : f.Chunk) (content id : Bytes) (s : Fakes)
      → f.data_of chunk ≡ some content
      → ((fake_get_chunk f id (fake_store_chunk f chunk s).0 ≡ (
            if equal (f.id_of chunk) id then some (f.new_chunk content) else fake_get_chunk f id s))
          × (fake_has_chunk f (f.id_of chunk) (fake_store_chunk f chunk s).0 ≡ true))
        × ((fake_store_chunk f chunk s).0.indices ≡ s.indices)
  unfolding fake_get_chunk fake_has_chunk fake_store_chunk store_data
  fake_store_chunk-fake_get_chunk chunk content id s h =
      rw
        (
          h,
          lookup-insert (f.id_of chunk) id content s.chunks,
          lookup-insert (f.id_of chunk) (f.id_of chunk) content s.chunks,
          equal_self (f.id_of chunk),
        )
        ((chunk_of-if (equal (f.id_of chunk) id) content (lookup id s.chunks), refl), refl)

  -- The calls that change the stores, with their arguments.
  pub data StoreCall : Type 0 where
    put_chunk : f.Chunk → StoreCall
    put_index : Bytes → Index → StoreCall

  unfoldable pub called : StoreCall → Fakes → Fakes
  unfolding fake_store_chunk fake_store_index
  called (put_chunk chunk) s = (fake_store_chunk f chunk s).0
  called (put_index name idx) s = (fake_store_index f name idx s).0

  unfoldable pub run : List StoreCall → Fakes → Fakes
  unfolding called
  run [] s = s
  run (call ∷ calls) s = run calls (called call s)

  run-append : (xs ys : List StoreCall) (s : Fakes) → run (xs ++ ys) s ≡ run ys (run xs s)
  unfolding run
  run-append [] ys s = refl
  run-append (x ∷ xs) ys s = run-append xs ys (called x s)

  -- The data of the chunks, put together.
  abbrev pub CutsInto : List f.Chunk → Bytes → Type 0
  CutsInto [] bytes = bytes ≡ []
  CutsInto (chunk ∷ chunks) bytes =
      (piece : Bytes) × (rest : Bytes) × (bytes ≡ piece ++ rest)
      × ((f.data_of chunk ≡ some piece) × CutsInto chunks rest)

  -- No call stores an index under the name.
  abbrev pub Spares : Bytes → StoreCall → Type 0
  Spares name (put_chunk chunk) = Unit
  Spares name (put_index other idx) = other ≢ name

  -- What the source relies on of chunks: a chunk that was made of bytes has them, and chunks of one id
  -- have the same data, since the id is a hash of the data.
  pub record ChunkLaws : Type 0 where
    pub has_data : (content : Bytes) → f.data_of (f.new_chunk content) ≡ some content
    pub same_data : (c c' : f.Chunk) → f.id_of c ≡ f.id_of c' → f.data_of c ≡ f.data_of c'

  -- The chunk is in the map with its data.
  abbrev Kept : f.Chunk → Bytes → Fakes → Type 0
  Kept chunk piece s = lookup (f.id_of chunk) s.chunks ≡ some piece

  store_data-Kept :
      (laws : ChunkLaws) (chunk c : f.Chunk) (piece : Bytes) (o : Option Bytes) (s : Fakes)
      → f.data_of chunk ≡ some piece
      → f.data_of c ≡ o
      → Kept chunk piece s
      → Kept chunk piece (store_data f (f.id_of c) o s).0
  unfolding store_data
  store_data-Kept laws chunk c piece none s h e k = k
  store_data-Kept laws chunk c piece (some content) s h e k =
      elim (Bool-cases (equal (f.id_of c) (f.id_of chunk))) [
        | inl y ↦
            let same = laws.same_data c chunk ((equal_iff (f.id_of c) (f.id_of chunk)).0 y) in
            rw (lookup-insert (f.id_of c) (f.id_of chunk) content s.chunks, y) (sym e ∙ same ∙ h)
        | inr n ↦ rw (lookup-insert (f.id_of c) (f.id_of chunk) content s.chunks, n) k
      ]

  store_written-chunks :
      (name : Bytes) (o : Option Bytes) (s : Fakes) → (store_written f name o s).0.chunks ≡ s.chunks
  unfolding store_written
  store_written-chunks name none s = refl
  store_written-chunks name (some content) s = refl

  run-Kept :
      (laws : ChunkLaws) (chunk : f.Chunk) (piece : Bytes) (calls : List StoreCall) (s : Fakes)
      → f.data_of chunk ≡ some piece
      → Kept chunk piece s
      → Kept chunk piece (run calls s)
  unfolding run called fake_store_chunk fake_store_index
  run-Kept laws chunk piece [] s h k = k
  run-Kept laws chunk piece (put_chunk c ∷ calls) s h k =
      run-Kept laws chunk piece calls (fake_store_chunk f c s).0 h
        (store_data-Kept laws chunk c piece (f.data_of c) s h refl k)
  run-Kept laws chunk piece (put_index name idx ∷ calls) s h k =
      run-Kept laws chunk piece calls (fake_store_index f name idx s).0 h
        (ap (lookup (f.id_of chunk)) (store_written-chunks name (f.write_to idx) s) ∙ k)

  store_data-here :
      (id piece : Bytes) (o : Option Bytes) (s : Fakes)
      → o ≡ some piece
      → lookup id (store_data f id o s).0.chunks ≡ some piece
  unfolding store_data
  store_data-here id piece none s h = cc
  store_data-here id piece (some content) s h =
      rw (lookup-insert id id content s.chunks, equal_self id) h

  stored_chunk-Kept :
      (laws : ChunkLaws) (chunk : f.Chunk) (piece : Bytes) (calls : List StoreCall) (s : Fakes)
      → f.data_of chunk ≡ some piece
      → In (put_chunk chunk) calls
      → Kept chunk piece (run calls s)
  unfolding run called fake_store_chunk
  stored_chunk-Kept laws chunk piece [] s h i = elim i [ ]
  stored_chunk-Kept laws chunk piece (call ∷ calls) s h (inl e) =
      run-Kept laws chunk piece calls (called call s) h (
        subst (λ z. Kept chunk piece (called z s)) e
          (store_data-here (f.id_of chunk) piece (f.data_of chunk) s h))
  stored_chunk-Kept laws chunk piece (call ∷ calls) s h (inr i) =
      stored_chunk-Kept laws chunk piece calls (called call s) h i

  -- What a name finds in the indices is changed by the stores of that name only.
  store_written-here :
      (name form : Bytes) (o : Option Bytes) (s : Fakes)
      → o ≡ some form
      → lookup name (store_written f name o s).0.indices ≡ some form
  unfolding store_written
  store_written-here name form none s h = cc
  store_written-here name form (some content) s h =
      rw (lookup-insert name name content s.indices, equal_self name) h

  store_written-other :
      (other name : Bytes) (o : Option Bytes) (s : Fakes)
      → other ≢ name
      → lookup name (store_written f other o s).0.indices ≡ lookup name s.indices
  unfolding store_written
  store_written-other other name none s ne = refl
  store_written-other other name (some content) s ne =
      let differ : equal other name ≡ false = ground (arith, equal_iff other name) in
      rw (lookup-insert other name content s.indices, differ) refl

  store_data-indices :
      (id : Bytes) (o : Option Bytes) (s : Fakes) → (store_data f id o s).0.indices ≡ s.indices
  unfolding store_data
  store_data-indices id none s = refl
  store_data-indices id (some content) s = refl

  run-Spares :
      (name : Bytes) (calls : List StoreCall) (s : Fakes)
      → All (Spares name) calls
      → lookup name (run calls s).indices ≡ lookup name s.indices
  unfolding run called fake_store_chunk fake_store_index
  run-Spares name [] s h = refl
  run-Spares name (put_chunk c ∷ calls) s (_, h) =
      run-Spares name calls (fake_store_chunk f c s).0 h
      ∙ ap (lookup name) (store_data-indices (f.id_of c) (f.data_of c) s)
  run-Spares name (put_index other idx ∷ calls) s (ne, h) =
      run-Spares name calls (fake_store_index f other idx s).0 h
      ∙ store_written-other other name (f.write_to idx) s ne

  module _ (Chunker : Type 0) (new_chunker : Input → Option Chunker)
      (chunk_stream : Chunker → Fakes → Fakes × Option Index) where
    abbrev pub fakes : Desync
    fakes = over_fakes f Chunker new_chunker chunk_stream

    chunks-Pieces :
        (laws : ChunkLaws) (chunks : List f.Chunk) (bytes : Bytes) (s : Fakes)
        → CutsInto chunks bytes
        → ((chunk : f.Chunk) (piece : Bytes)
            → In chunk chunks
            → f.data_of chunk ≡ some piece
            → Kept chunk piece s)
        → Pieces fakes s (map f.id_of chunks) bytes
    unfolding fake_get_chunk
    chunks-Pieces laws [] bytes s e kept = e
    chunks-Pieces laws (chunk ∷ chunks) bytes s (piece, rest, e, (has, more)) kept = (
      piece,
      rest,
      e,
      (
        (f.new_chunk piece, rw (kept chunk piece (inl refl) has) refl, laws.has_data piece),
        chunks-Pieces laws chunks rest s more (λ c p i. kept c p (inr i)),
      ),
    )

    -- Let chunks have the data that they were made of, and chunks of one id the same data. From any state,
    -- once every chunk of a content was stored, in any order and among any other stores, and then an index
    -- of their ids under a name, in a form that is written and read back, the content is had under the
    -- name: its index is found there, and each chunk of the index, whose data give the content. This is so
    -- for as long as no other index is stored under the name, whatever else is stored.
    pub run-Stored :
        (laws : ChunkLaws) (chunks : List f.Chunk) (bytes name form : Bytes) (idx : Index)
        (before after : List StoreCall) (s : Fakes)
        → CutsInto chunks bytes
        → All (λ chunk. In (put_chunk chunk) before) chunks
        → idx.chunks ≡ map f.id_of chunks
        → f.write_to idx ≡ some form
        → f.index_from_reader form ≡ some idx
        → All (Spares name) after
        → Stored fakes (run (before ++ put_index name idx ∷ after) s) name bytes
    unfolding run called fake_store_index fake_get_index
    run-Stored laws chunks bytes name form idx before after s cuts stored ids writes reads spared =
        let calls = before ++ put_index name idx ∷ after in
        let found : lookup name (run calls s).indices ≡ some form =
          ap (λ z. lookup name z.indices) (run-append before (put_index name idx ∷ after) s)
          ∙ run-Spares name after (fake_store_index f name idx (run before s)).0 spared
          ∙ store_written-here name form (f.write_to idx) (run before s) writes in
        (
          idx,
          rw found reads,
          subst (λ z. Pieces fakes (run calls s) z bytes) (sym ids)
              (chunks-Pieces laws chunks bytes (run calls s) cuts (λ chunk piece i has.
                stored_chunk-Kept laws chunk piece calls s has (
                  In-append_left (put_chunk chunk) before (put_index name idx ∷ after)
                    (All-In chunks stored chunk i)))),
        )
      where
        All-In :
            (cs : List f.Chunk)
            → All (λ chunk. In (put_chunk chunk) before) cs
            → (chunk : f.Chunk) → In chunk cs
            → In (put_chunk chunk) before
        All-In (c ∷ cs) (h, hs) chunk (inl e) = subst (λ z. In (put_chunk z) before) (sym e) h
        All-In (c ∷ cs) (h, hs) chunk (inr i) = All-In cs hs chunk i
        All-In [] h chunk i = elim i [ ]
