-- ===== src/Docker/Blobs.antt =====
-- blob_manager.go: the blobs of the registry. A blob is kept as the chunks of an index under the name of
-- the image and the digest. The errors are named for the messages that the source wraps them in.
pub mod Stored
use spongix.Base.{Bytes, List, [], ◌∷◌, ◌++◌, Option, none, some, Bool, true, false, codes, Input}
use spongix.Desync.{Desync, Index}

pub data BlobError : Type 0 where
  making_chunker chunking_blob storing_index getting_index getting_chunk chunk_data : BlobError

pub record BlobResponse : Type 0 where
  pub blob : Bytes
  pub err : Option BlobError

-- An answer with no error; `blobResponse{}` has no bytes.
abbrev pub answered : Bytes → BlobResponse
answered bytes = record { blob = bytes; err = none }

abbrev refused : BlobError → BlobResponse
refused e = record { blob = []; err = some e }

-- The messages: the name and the digest, and for `set` the blob.
pub data BlobMsg : Type 0 where
  msg_set : Bytes → Bytes → Bytes → BlobMsg
  msg_get msg_head : Bytes → Bytes → BlobMsg

unfoldable pub key : Bytes → Bytes → Bytes
key name digest = name ++ codes "_" ++ digest

-- A buffer in memory, as a reader.
abbrev pub whole : Bytes → Input
whole bytes = record { content = bytes; failed = false }

module _ (d : Desync) where
  abbrev pub stored_answer : d.World × Bool → d.World × BlobResponse
  stored_answer (w, true) = (w, answered [])
  stored_answer (w, false) = (w, refused storing_index)

  abbrev pub store_answer : Bytes → d.World × Option Index → d.World × BlobResponse
  store_answer name (w, none) = (w, refused chunking_blob)
  store_answer name (w, some idx) = stored_answer (d.store_index name idx w)

  abbrev pub chunk_answer : Bytes → Option d.Chunker → d.World → d.World × BlobResponse
  chunk_answer name none w = (w, refused making_chunker)
  chunk_answer name (some chunker) w = store_answer name (d.chunk_stream chunker w)

  unfoldable pub blob_set : Bytes → Bytes → d.World → d.World × BlobResponse
  blob_set name blob w = chunk_answer name (d.new_chunker (whole blob)) w

  abbrev data_answer : (Bytes → BlobResponse) → Bytes → Option Bytes → BlobResponse
  data_answer rest buf none = refused chunk_data
  data_answer rest buf (some bytes) = rest (buf ++ bytes)

  abbrev get_answer : (Bytes → BlobResponse) → Bytes → Option d.Chunk → BlobResponse
  get_answer rest buf none = refused getting_chunk
  get_answer rest buf (some chunk) = data_answer rest buf (d.chunk_data chunk)

  -- The loop over the chunks of the index.
  unfoldable pub read_chunks : d.World → List Bytes → Bytes → BlobResponse
  read_chunks w [] buf = answered buf
  read_chunks w (id ∷ ids) buf = get_answer (read_chunks w ids) buf (d.get_chunk id w)

  abbrev index_answer : d.World → Option Index → BlobResponse
  index_answer w none = refused getting_index
  index_answer w (some idx) = read_chunks w idx.chunks []

  unfoldable pub blob_get : Bytes → d.World → BlobResponse
  unfolding read_chunks
  blob_get name w = index_answer w (d.get_index name w)

  abbrev head_answer : Option Index → BlobResponse
  head_answer none = refused getting_index
  head_answer (some idx) = answered []

  unfoldable pub blob_head : Bytes → d.World → BlobResponse
  blob_head name w = head_answer (d.get_index name w)

  -- The body of the loop.
  unfoldable pub blob_step : BlobMsg → d.World → d.World × BlobResponse
  unfolding blob_set blob_get blob_head key
  blob_step (msg_set name digest blob) w = blob_set (key name digest) blob w
  blob_step (msg_get name digest) w = (w, blob_get (key name digest) w)
  blob_step (msg_head name digest) w = (w, blob_head (key name digest) w)

  -- The methods of the manager.
  unfoldable pub set_blob : Bytes → Bytes → Bytes → d.World → d.World × Option BlobError
  unfolding blob_step
  set_blob name digest blob w = let (w', r) = blob_step (msg_set name digest blob) w in (w', r.err)

  unfoldable pub get_blob : Bytes → Bytes → d.World → Bytes × Option BlobError
  unfolding blob_step
  get_blob name digest w = let r = (blob_step (msg_get name digest) w).1 in (r.blob, r.err)

  -- `head` sends the message of `get`.
  unfoldable pub head_blob : Bytes → Bytes → d.World → Option BlobError
  unfolding blob_step
  head_blob name digest w = (blob_step (msg_get name digest) w).1.err
