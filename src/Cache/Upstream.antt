-- ===== src/Cache/Upstream.antt =====
-- cache.go: `cacheUrl` and `startCache`, which fetch what a substituter served into the local store. The
-- parsing of URLs and the HTTP client are parameters. `false` is an error.
pub mod Local
use spongix.Base.{
  ℕ, ◌+◌, ◌/◌, ◌==◌, Bytes, List, [], ◌∷◌, Option, none, some, Bool, true, false, not, ◌||◌, codes,
  Input, if◌then◌else◌,
}
use spongix.Desync.{Desync, Index}
use spongix.Cache.Names.{has_suffix, url_to_index_name}
use spongix.Cache.Handlers.{Texts, store_named}

-- The answer of another server, with the URL of the last request, behind the redirections.
pub record Reply : Type 0 where
  pub status : ℕ
  pub url : Bytes
  pub body : Input

-- The escaped path of a URL, and a request with a method.
pub record Client : Type 0 where
  pub parse_url : Bytes → Option Bytes
  pub fetch : Bytes → Bytes → Option Reply

-- `StatusCode/100 == 2`.
abbrev pub is_success : Reply → Bool
is_success reply = reply.status / 100 == 2

module _ (d : Desync) (t : Texts) (client : Client) where
  abbrev pub index_stored : Bytes → d.World × Option Index → d.World × Bool
  index_stored path (w, none) = (w, false)
  index_stored path (w, some idx) = store_named d idx w (url_to_index_name path)

  abbrev pub chunks_stored : Bytes → d.World → Option d.Chunker → d.World × Bool
  chunks_stored path w none = (w, false)
  chunks_stored path w (some chunker) = index_stored path (d.chunk_stream chunker w)

  -- The three calls of desync, which stand in both branches.
  unfoldable pub store_reader : Bytes → Input → d.World → d.World × Bool
  unfolding url_to_index_name
  store_reader path rd w = chunks_stored path w (d.new_chunker rd)

  -- A status that is no success is wrapped around an error that is nil there, and `WithMessagef` of nil is
  -- nil.
  unfoldable pub store_reply : Bytes → Bytes → Reply → d.World → d.World × Bool
  unfolding has_suffix store_reader
  store_reply url path reply w =
      if not (is_success reply)
      then (w, true)
      else if has_suffix url (codes ".nar") || has_suffix url (codes ".narinfo")
      then store_reader path reply.body w
      else if has_suffix url (codes ".nar.xz")
      then store_reader path (t.decompress reply.body) w
      else (w, false)

  unfoldable pub reply_stored : Bytes → Bytes → Option Reply → d.World → d.World × Bool
  unfolding store_reply
  reply_stored url path none w = (w, false)
  reply_stored url path (some reply) w = store_reply url path reply w

  unfoldable pub parsed_stored : Bytes → Option Bytes → d.World → d.World × Bool
  unfolding reply_stored
  parsed_stored url none w = (w, false)
  parsed_stored url (some path) w = reply_stored url path (client.fetch (codes "GET") url) w

  unfoldable pub cache_url : Bytes → d.World → d.World × Bool
  unfolding parsed_stored
  cache_url url w = parsed_stored url (client.parse_url url) w

  -- The world, and the two counters.
  pub record Cacher : Type 0 where
    pub world : d.World
    pub remote_cached_ok : ℕ
    pub remote_cached_fail : ℕ

  abbrev counted : Cacher → d.World × Bool → Cacher
  counted s (w, true) = record s { world = w; remote_cached_ok = s.remote_cached_ok + 1 }
  counted s (w, false) = record s { world = w; remote_cached_fail = s.remote_cached_fail + 1 }

  -- The loop over the URLs that the channel delivers.
  unfoldable pub start_cache : List Bytes → Cacher → Cacher
  unfolding cache_url
  start_cache [] s = s
  start_cache (url ∷ urls) s = start_cache urls (counted s (cache_url url s.world))
