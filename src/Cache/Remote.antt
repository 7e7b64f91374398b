-- ===== src/Cache/Remote.antt =====
-- cache.go: `remoteHandler`, which asks the substituters. All requests run at once; which good answer
-- comes first, or that none does in time, is an argument. The queue is the channel to `startCache`.
-- `none` is no answer: a panic, or the wait for a place in the channel.
pub mod Sound
pub mod Kept
use spongix.Base.{
  ℕ, Bytes, List, [], ◌∷◌, ◌++◌, Option, none, some, Bool, true, false, ◌&&◌, ◌||◌, codes, Input,
  get_elem?, if◌then◌else◌, ltb, length,
}
use spongix.Base.Options.{◌>>=◌}
use spongix.Strings.{equal, ext}
use spongix.Http.{Response, fresh, set_header, write_body}
use spongix.Cache.Names.{has_suffix, url_to_mime}
use spongix.Cache.Handlers.{Request, Texts}
use spongix.Cache.Upstream.{Reply, Client, is_success}

-- `substituter.Parse(ref)`, and whether `http.NewRequestWithContext` makes a request of a method and a URL.
pub record Urls : Type 0 where
  pub resolve : Bytes → Bytes → Option Bytes
  pub can_request : Bytes → Bytes → Bool

-- The places of the channel that `NewProxy` makes.
abbrev pub cache_chan_size : ℕ
cache_chan_size = 10000

-- The endings that are tried, or `none` where the request is passed on at once.
unfoldable pub exts_for : Bytes → List Bytes → Option (List Bytes)
unfolding ext equal
exts_for url exts =
    if equal (ext url) (codes ".nar")
    then some exts
    else if equal (ext url) (codes ".xz") || equal (ext url) (codes ".narinfo")
    then some ([] ∷ [])
    else if equal (ext url) []
    then none
    else some exts

module _ (t : Texts) (client : Client) (urls : Urls) (r : Request) where
  -- The error of `http.NewRequest` is logged with the URL of the request, which is nil then: a panic.
  abbrev pub one_target : List Bytes → Option Bytes → Option (List Bytes)
  one_target rest none = some rest
  one_target rest (some url) = if urls.can_request r.method url then some (url ∷ rest) else none

  unfoldable pub targets_of : Bytes → List Bytes → Option (List Bytes)
  targets_of substituter [] = some []
  targets_of substituter (e ∷ exts) = do
    rest ← targets_of substituter exts
    one_target rest (urls.resolve substituter (r.url ++ e))

  unfoldable pub targets : List Bytes → List Bytes → Option (List Bytes)
  unfolding targets_of
  targets [] exts = some []
  targets (substituter ∷ substituters) exts = do
    some_urls ← targets_of substituter exts
    more ← targets substituters exts
    some (some_urls ++ more)

  abbrev pub if_good : List Reply → Option Reply → List Reply
  if_good rest none = rest
  if_good rest (some reply) = if is_success reply then reply ∷ rest else rest

  -- The answers that the goroutines send to the channel of results.
  unfoldable pub good_replies : List Bytes → List Reply
  good_replies [] = []
  good_replies (url ∷ rest) = if_good (good_replies rest) (client.fetch r.method url)

  unfoldable pub remote_body : Reply → Input
  unfolding has_suffix
  remote_body reply =
      if has_suffix r.url (codes ".nar") && has_suffix reply.url (codes ".xz")
      then t.decompress reply.body
      else reply.body

  unfoldable pub remote_response : Reply → Response
  unfolding url_to_mime set_header write_body remote_body
  remote_response reply = write_body (remote_body reply).content (
      set_header (codes "X-Cache-Upstream") reply.url (
        set_header (codes "Content-Type") (url_to_mime reply.url)
          (set_header (codes "X-Cache") (codes "REMOTE") fresh)))

  -- The send waits while the channel is full: then there is no answer.
  abbrev pub answer_first : Response → List Bytes → Option Reply → Option (List Bytes × Response)
  answer_first next queue none = some (queue, next)
  answer_first next queue (some reply) =
      if ltb (length queue) cache_chan_size
      then some (queue ++ reply.url ∷ [], remote_response reply)
      else none

  abbrev pub pick_of : Option ℕ → List Reply → Option Reply
  pick_of none replies = none
  pick_of (some i) replies = get_elem? replies i

  abbrev pub serve_exts :
      List Bytes
      → Option ℕ
      → Response
      → List Bytes
      → Option (List Bytes)
      → Option (List Bytes × Response)
  serve_exts substituters pick next queue none = some (queue, next)
  serve_exts substituters pick next queue (some exts) = do
    urls ← targets substituters exts
    answer_first next queue (pick_of pick (good_replies urls))

  unfoldable pub serve_remote :
      List Bytes → List Bytes → Option ℕ → Response → List Bytes → Option (List Bytes × Response)
  unfolding exts_for targets good_replies remote_response
  serve_remote substituters exts pick next queue =
      serve_exts substituters pick next queue (exts_for r.url exts)
