-- ===== src/Router.antt =====
-- router.go: the handlers of an archive and of a narinfo, with `withCacheHandler` of cache.go. A handler
-- takes the state to a new one and an answer; `none` is a panic, or the wait for a place in the channel
-- of URLs. The patterns of mux are not modelled: a request is one that mux has matched.
pub mod Chain
use spongix.Base.{
  ℕ, Bytes, List, [], ◌∷◌, Option, none, some, Bool, true, false, codes, Input, null, ◌&&◌,
  if◌then◌else◌,
}
use spongix.Desync.{Desync, Index}
use spongix.Http.{Response, fresh}
use spongix.Narinfo.Signatures.{Crypto}
use spongix.Startup.{Proxy}
use spongix.Cache.Handlers.{Request, Texts, serve_http, serve_not_found}
use spongix.Cache.Upstream.{Client}
use spongix.Cache.Remote.{Urls, serve_remote}

abbrev pub Handler : Type 0 → Type 0
Handler S = S → Option (S × Response)

-- The flags tell that the store and the index are not nil.
abbrev pub with_cache_handler :
    {S : Type 0} → Bool → Bool → (Handler S → Handler S) → Handler S → Handler S
with_cache_handler store index cache h = if store && index then cache h else h

-- `notAllowed` writes nothing.
abbrev pub not_allowed : Response
not_allowed = fresh

-- The stores beside the queue of the URLs that are to be cached.
abbrev pub queued : Desync → Desync
queued d = record {
  World = d.World × List Bytes;
  Chunker = d.Chunker;
  Chunk = d.Chunk;
  new_chunker = d.new_chunker;
  chunk_stream = λ ch (w, queue). let (w', idx) = d.chunk_stream ch w in ((w', queue), idx);
  store_index = λ name idx (w, queue). let (w', ok) = d.store_index name idx w in ((w', queue), ok);
  get_index = λ name (w, queue). d.get_index name w;
  get_chunk = λ id (w, queue). d.get_chunk id w;
  chunk_data = d.chunk_data;
}

-- The endings that the routes try.
abbrev pub narinfo_exts : List Bytes
narinfo_exts = [] ∷ []

abbrev pub nar_exts : List Bytes
nar_exts = [] ∷ codes ".xz" ∷ []

module _ (d : Desync) (t : Texts) (c : Crypto) (client : Client) (urls : Urls) where
  abbrev pub State : Type 0
  State = (queued d).World

  abbrev pub not_found : Handler State
  unfolding serve_not_found
  not_found s = some (s, serve_not_found)

  abbrev pub with_queue : d.World → Option (List Bytes × Response) → Option (State × Response)
  with_queue w none = none
  with_queue w (some (queue, a)) = some ((w, queue), a)

  -- The handler behind the remote one is `serveNotFound`.
  unfoldable pub remote : List Bytes → List Bytes → Option ℕ → Request → Handler State
  unfolding serve_remote serve_not_found
  remote substituters exts pick r (w, queue) =
      with_queue w (serve_remote t client urls r substituters exts pick serve_not_found queue)

  -- The cache in the bucket is an argument.
  unfoldable pub route :
      Proxy
      → (Request → Handler State → Handler State)
      → List Bytes
      → Option ℕ
      → Request
      → Handler State
  unfolding serve_http remote
  route p s3_cache exts pick r =
      with_cache_handler p.local_store p.local_index
        (serve_http (queued d) t c p.trusted_keys p.secret_keys r)
        (with_cache_handler p.s3_store p.s3_index (s3_cache r) (remote p.substituters exts pick r))
