-- ===== src/Cache/Handlers.antt =====
-- cache.go: the handler of the binary cache, and `serveNotFound` and `nixCacheInfo` of router.go. A
-- handler gives the state of the store and the answer; `none` is a panic. Log lines are left out, and a
-- write to the client never fails. The xz library and the text of an error are parameters.
use spongix.Base.{
  ℕ, Bytes, List, [], ◌∷◌, ◌++◌, Option, none, some, Bool, true, false, codes, Input, if◌then◌else◌,
}
use spongix.Strings.{equal, ext}
use spongix.Decimal.{format_uint}
use spongix.Desync.{Desync, Index}
use spongix.Http.{Response, fresh, set_header, write_header, write_body}
use spongix.Narinfo.{Narinfo, Error, Result, ok, err, blank}
use spongix.Narinfo.Unmarshal.{unmarshal}
use spongix.Narinfo.Signatures.{Crypto, Keys}
use spongix.Narinfo.Storage.{prepare_for_storage}
use spongix.Cache.Names.{url_to_mime, url_to_index_name, mime_text}

pub record Request : Type 0 where
  pub method : Bytes
  pub url : Bytes
  pub escaped_path : Bytes
  pub body : Input

-- The compressor, the reader that decompresses another, and what an error says.
pub record Texts : Type 0 where
  pub compress : Bytes → Bytes
  pub decompress : Input → Input
  pub error_text : Error → Bytes

unfoldable pub cache_hit : Response → Response
unfolding set_header
cache_hit w = set_header (codes "X-Cache") (codes "HIT") w

unfoldable pub answer : ℕ → Bytes → Bytes → Response → Response
unfolding set_header write_header write_body
answer status mime msg w =
    write_body msg (write_header status (set_header (codes "Content-Type") mime w))

unfoldable pub serve_not_found : Response
unfolding set_header write_header write_body
serve_not_found = write_body (codes "not found") (
    write_header 404 (
      set_header (codes "X-Cache") (codes "MISS")
        (set_header (codes "Content-Type") mime_text fresh)))

unfoldable pub nix_cache_info : ℕ → Response
unfolding answer
nix_cache_info priority =
    answer 200 (codes "text/x-nix-cache-info")
      (codes "StoreDir: /nix/store\nWantMassQuery: 1\nPriority: " ++ format_uint priority) fresh

module _ (d : Desync) where
  abbrev pub index_named : d.World → Option Bytes → Option Index
  index_named w none = none
  index_named w (some name) = d.get_index name w

  unfoldable pub get_index : Request → d.World → Option Index
  unfolding url_to_index_name
  get_index r w = index_named w (url_to_index_name r.escaped_path)

  abbrev pub store_named : Index → d.World → Option Bytes → d.World × Bool
  store_named idx w none = (w, false)
  store_named idx w (some name) = d.store_index name idx w

  unfoldable pub store_index : Request → Index → d.World → d.World × Bool
  unfolding url_to_index_name
  store_index r idx w = store_named idx w (url_to_index_name r.escaped_path)

  -- The loop over the chunks, which stops at the first that is not to be had.
  abbrev data_then : Bytes → Option Bytes → Bytes
  data_then rest none = []
  data_then rest (some bytes) = bytes ++ rest

  abbrev chunk_then : Bytes → Option d.Chunk → Bytes
  chunk_then rest none = []
  chunk_then rest (some chunk) = data_then rest (d.chunk_data chunk)

  unfoldable pub written : d.World → List Bytes → Bytes
  written w [] = []
  written w (id ∷ ids) = chunk_then (written w ids) (d.get_chunk id w)

  unfoldable pub head_hit : Request → Index → Response
  unfolding url_to_mime cache_hit set_header write_header
  head_hit r idx = write_header 200 (
      set_header (codes "Content-Type") (url_to_mime r.url)
        (cache_hit (set_header (codes "Content-Length") (format_uint idx.index_length) fresh)))

  unfoldable pub head_answer :
      Request
      → (d.World → Option (d.World × Response))
      → d.World
      → Option Index
      → Option (d.World × Response)
  unfolding head_hit
  head_answer r next w none = next w
  head_answer r next w (some idx) = some (w, head_hit r idx)

  unfoldable pub head :
      Request → (d.World → Option (d.World × Response)) → d.World → Option (d.World × Response)
  unfolding get_index
  head r next w = head_answer r next w (get_index r w)

  module _ (t : Texts) where
    -- A compressed archive goes through the writer of xz, which is closed at the end.
    unfoldable pub get_hit : Request → d.World → Index → Response
    unfolding ext equal url_to_mime cache_hit set_header write_body written
    get_hit r w idx =
        if equal (ext r.url) (codes ".xz")
        then write_body (t.compress (written w idx.chunks))
            (set_header (codes "Content-Type") (url_to_mime r.url) (cache_hit fresh))
        else write_body (written w idx.chunks) (
            set_header (codes "Content-Type") (url_to_mime r.url) (
              cache_hit (set_header (codes "Content-Length") (format_uint idx.index_length) fresh)))

    unfoldable pub get_answer :
        Request
        → (d.World → Option (d.World × Response))
        → d.World
        → Option Index
        → Option (d.World × Response)
    unfolding get_hit
    get_answer r next w none = next w
    get_answer r next w (some idx) = some (w, get_hit r w idx)

    unfoldable pub get :
        Request → (d.World → Option (d.World × Response)) → d.World → Option (d.World × Response)
    unfolding get_index
    get r next w = get_answer r next w (get_index r w)

  unfoldable pub failed_put : Bytes → Response
  unfolding answer
  failed_put msg = answer 500 mime_text msg fresh

  unfoldable pub indexed : d.World × Bool → d.World × Response
  unfolding failed_put answer
  indexed (w, false) = (w, failed_put (codes "storing index"))
  indexed (w, true) = (w, answer 200 mime_text (codes "ok\n") fresh)

  unfoldable pub streamed : Request → d.World × Option Index → d.World × Response
  unfolding store_index indexed failed_put
  streamed r (w, none) = (w, failed_put (codes "chunking body"))
  streamed r (w, some idx) = indexed (store_index r idx w)

  abbrev pub chunked : Request → d.World → Option d.Chunker → d.World × Response
  chunked r w none = (w, failed_put (codes "making chunker"))
  chunked r w (some chunker) = streamed r (d.chunk_stream chunker w)

  unfoldable pub put_common : Request → Input → d.World → d.World × Response
  unfolding streamed failed_put
  put_common r rd w = chunked r w (d.new_chunker rd)

  module _ (t : Texts) (c : Crypto) (trusted secret : Keys) where
    unfoldable pub put_text : Request → d.World → Option Bytes → Option (d.World × Response)
    unfolding put_common
    put_text r w none = none
    put_text r w (some text) = some (put_common r (record { content = text; failed = false }) w)

    unfoldable pub put_narinfo : Request → d.World → Result Narinfo → Option (d.World × Response)
    unfolding prepare_for_storage answer
    put_narinfo r w (err e) = some (w, answer 400 mime_text (t.error_text e) fresh)
    put_narinfo r w (ok info) = put_text r w (prepare_for_storage c trusted secret info)

    unfoldable pub put : Request → d.World → Option (d.World × Response)
    unfolding ext equal unmarshal put_common answer
    put r w =
        if equal (ext r.url) (codes ".narinfo")
        then put_narinfo r w (unmarshal blank (some r.body))
        else if equal (ext r.url) (codes ".nar")
        then some (put_common r r.body w)
        else if equal (ext r.url) (codes ".xz")
        then some (put_common r (t.decompress r.body) w)
        else some (w, answer 400 mime_text (codes "compression is not supported\n") fresh)

    unfoldable pub serve_http :
        Request → (d.World → Option (d.World × Response)) → d.World → Option (d.World × Response)
    unfolding equal head get put
    serve_http r next w =
        if equal r.method (codes "HEAD")
        then head r next w
        else if equal r.method (codes "GET")
        then get t r next w
        else if equal r.method (codes "PUT")
        then put r w
        else next w
