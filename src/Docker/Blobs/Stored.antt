-- ===== src/Docker/Blobs/Stored.antt =====
-- A blob that was stored is read back.
use spongix.Base.{
  Bytes, List, [], ◌∷◌, ◌++◌, Option, none, some, Bool, true, false, ◌≡◌, refl, ap, ◌∙◌,
  append_assoc, append-nil, ◌≢◌, subst,
}
use spongix.Desync.{Desync, Index, Pieces, Laws}
use spongix.Desync.Kept.{Stored, Pieces-keep, stored-Pieces}
use spongix.Docker.Blobs.{
  answered, whole, read_chunks, blob_set, blob_get, set_blob, get_blob, head_blob, key,
  chunk_answer, store_answer, stored_answer,
}

module _ (d : Desync) where
  read_chunks-Pieces :
      (w : d.World) (ids : List Bytes) (buf bytes : Bytes)
      → Pieces d w ids bytes
      → read_chunks d w ids buf ≡ answered (buf ++ bytes)
  unfolding read_chunks
  read_chunks-Pieces w [] buf bytes e = rw (e, append-nil buf) refl
  read_chunks-Pieces w (id ∷ ids) buf bytes (piece, rest, e, ((c, found, has), more)) =
      rw
        (
          found,
          has,
          read_chunks-Pieces w ids (buf ++ piece) rest more,
          e,
          append_assoc buf piece rest,
        )
        refl

  pub get_blob-Stored :
      (name digest bytes : Bytes) (w : d.World)
      → Stored d w (key name digest) bytes
      → get_blob d name digest w ≡ (bytes, none)
  unfolding get_blob blob_get
  get_blob-Stored name digest bytes w (idx, e, pieces) =
      rw (e, read_chunks-Pieces w idx.chunks [] bytes pieces) refl

  module _ (laws : Laws d) where
    stored_answer-Stored :
        (k blob : Bytes) (idx : Index) (w : d.World) (p : d.World × Bool)
        → d.store_index k idx w ≡ p
        → Pieces d w idx.chunks blob
        → (stored_answer d p).1.err ≡ none
        → Stored d (stored_answer d p).0 k blob
    stored_answer-Stored k blob idx w (w', true) e pieces h = (
      idx,
      laws.stores k idx w w' e,
      subst (λ p. Pieces d p.0 idx.chunks blob) e
          (stored-Pieces d laws k idx w idx.chunks blob pieces),
    )
    stored_answer-Stored k blob idx w (w', false) e pieces h = cc

    store_answer-Stored :
        (k blob : Bytes) (ch : d.Chunker) (w : d.World) (p : d.World × Option Index)
        → d.new_chunker (whole blob) ≡ some ch
        → d.chunk_stream ch w ≡ p
        → (store_answer d k p).1.err ≡ none
        → Stored d (store_answer d k p).0 k blob
    store_answer-Stored k blob ch w (w', none) made e h = cc
    store_answer-Stored k blob ch w (w', some idx) made e h =
        stored_answer-Stored k blob idx w' (d.store_index k idx w') refl
          (laws.cuts blob ch w w' idx made e) h

    chunk_answer-Stored :
        (k blob : Bytes) (w : d.World) (o : Option d.Chunker)
        → d.new_chunker (whole blob) ≡ o
        → (chunk_answer d k o w).1.err ≡ none
        → Stored d (chunk_answer d k o w).0 k blob
    chunk_answer-Stored k blob w none made h = cc
    chunk_answer-Stored k blob w (some ch) made h =
        store_answer-Stored k blob ch w (d.chunk_stream ch w) made refl h

    pub set_blob-Stored :
        (name digest blob : Bytes) (w : d.World)
        → (set_blob d name digest blob w).1 ≡ none
        → Stored d (set_blob d name digest blob w).0 (key name digest) blob
    unfolding set_blob blob_set
    set_blob-Stored name digest blob w h =
        chunk_answer-Stored (key name digest) blob w (d.new_chunker (whole blob)) refl h

    -- A blob that `set` stored with no error is what `get` returns for the same name and digest.
    pub set_blob-get_blob :
        (name digest blob : Bytes) (w : d.World)
        → (set_blob d name digest blob w).1 ≡ none
        → get_blob d name digest (set_blob d name digest blob w).0 ≡ (blob, none)
    set_blob-get_blob name digest blob w h =
        get_blob-Stored name digest blob (set_blob d name digest blob w).0
          (set_blob-Stored name digest blob w h)

    streamed-Stored :
        (k bytes : Bytes) (ch : d.Chunker) (w : d.World)
        → Stored d w k bytes
        → Stored d (d.chunk_stream ch w).0 k bytes
    streamed-Stored k bytes ch w (idx, e, pieces) = (
      idx,
      laws.keeps_index ch w k ∙ e,
      Pieces-keep d w (d.chunk_stream ch w).0 (laws.adds ch w) idx.chunks bytes pieces,
    )

    indexed-Stored :
        (k bytes other : Bytes) (idx : Index) (w : d.World)
        → other ≢ k
        → Stored d w k bytes
        → Stored d (d.store_index other idx w).0 k bytes
    indexed-Stored k bytes other idx w ne (jdx, e, pieces) = (
      jdx,
      laws.stores_there other k idx w ne ∙ e,
      stored-Pieces d laws other idx w jdx.chunks bytes pieces,
    )

    stored_answer-world : (p : d.World × Bool) → (stored_answer d p).0 ≡ p.0
    stored_answer-world (w, true) = refl
    stored_answer-world (w, false) = refl

    store_answer-keeps :
        (k bytes other : Bytes) (p : d.World × Option Index)
        → other ≢ k
        → Stored d p.0 k bytes
        → Stored d (store_answer d other p).0 k bytes
    store_answer-keeps k bytes other (w, none) ne st = st
    store_answer-keeps k bytes other (w, some idx) ne st =
        rw (stored_answer-world (d.store_index other idx w))
          (indexed-Stored k bytes other idx w ne st)

    chunk_answer-keeps :
        (k bytes other : Bytes) (o : Option d.Chunker) (w : d.World)
        → other ≢ k
        → Stored d w k bytes
        → Stored d (chunk_answer d other o w).0 k bytes
    chunk_answer-keeps k bytes other none w ne st = st
    chunk_answer-keeps k bytes other (some ch) w ne st =
        store_answer-keeps k bytes other (d.chunk_stream ch w) ne (streamed-Stored k bytes ch w st)

    -- Whether it succeeds or fails, a `set` under another key leaves a blob that is stored readable as it
    -- was.
    pub get_blob-set_blob_other :
        (name digest bytes name' digest' blob : Bytes) (w : d.World)
        → key name' digest' ≢ key name digest
        → Stored d w (key name digest) bytes
        → get_blob d name digest (set_blob d name' digest' blob w).0 ≡ (bytes, none)
    unfolding set_blob blob_set
    get_blob-set_blob_other name digest bytes name' digest' blob w ne st =
        get_blob-Stored name digest bytes (set_blob d name' digest' blob w).0 (
          chunk_answer-keeps (key name digest) bytes (key name' digest')
            (d.new_chunker (whole blob)) w ne st)

  -- A blob that is stored, in chunks that the store has, has no error as its head.
  pub head_blob-Stored :
      (name digest bytes : Bytes) (w : d.World)
      → Stored d w (key name digest) bytes
      → head_blob d name digest w ≡ none
  unfolding head_blob get_blob
  head_blob-Stored name digest bytes w st = ap (λ p. p.1) (get_blob-Stored name digest bytes w st)
