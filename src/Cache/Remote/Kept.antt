-- ===== src/Cache/Remote/Kept.antt =====
-- The remote handler and the local cache together: the answer of a substituter, and the hits after it.
use mathlib.Core.List.{reverse-append}
use spongix.Strings.{strip_prefix}
use spongix.Base.{
  Bytes, [], ◌++◌, Option, some, Bool, true, false, codes, Input, if◌then◌else◌, ◌≡◌, refl, ap, ◌∙◌,
  Lacks, append_assoc,
}
use spongix.Desync.{Desync, Laws}
use spongix.Http.{Response}
use spongix.Cache.Names.{has_suffix}
use spongix.Cache.Agree.{nar_path}
use spongix.Cache.Handlers.{Texts, get}
use spongix.Cache.Serves.{IsHit}
use spongix.Cache.Archives.{nar_request, received}
use spongix.Cache.Upstream.{Reply, Client, is_success, cache_url}
use spongix.Cache.Upstream.Local.{
  upstream_nar, has_suffix-nar, packed, packed-spells, cache_url-get,
}
use spongix.Cache.Remote.{Urls, remote_body, remote_response}

plain-xz : (prefix hash : Bytes) → has_suffix (upstream_nar prefix false hash) (codes ".xz") ≡ false
unfolding has_suffix strip_prefix
plain-xz prefix hash =
    rw
      (
        ← append_assoc prefix (codes "/nar/" ++ hash) (codes ".nar"),
        reverse-append (prefix ++ (codes "/nar/" ++ hash)) (codes ".nar"),
      )
      refl

packed-xz : (prefix hash : Bytes) → has_suffix (packed prefix hash) (codes ".xz") ≡ true
unfolding has_suffix strip_prefix
packed-xz prefix hash =
    rw
      (
        packed-spells prefix hash,
        reverse-append (prefix ++ (codes "/nar/" ++ hash)) (codes ".nar.xz"),
      )
      refl

module _ (d : Desync) (t : Texts) (client : Client) (urls : Urls) where
  remote_body-received :
      (prefix hash : Bytes) (xz : Bool) (reply : Reply) (none_sent : Input)
      → reply.url ≡ upstream_nar prefix xz hash
      → remote_body t client urls (nar_request (codes "GET") false false hash none_sent) reply
        ≡ received t xz reply.body
  unfolding remote_body
  remote_body-received prefix hash false reply none_sent e =
      rw (has_suffix-nar [] hash, e, plain-xz prefix hash) refl
  remote_body-received prefix hash true reply none_sent e =
      rw (has_suffix-nar [] hash, e, packed-xz prefix hash) refl

  -- A client that asks for an archive without compression gets from a substituter the content that every
  -- later GET of its hash gets as a hit, once the URL that was queued is in the local store: whether the
  -- substituter sent it compressed or not.
  pub remote_response-get :
      (laws : Laws d) (next : d.World → Option (d.World × Response)) (prefix hash : Bytes)
      (xz cached' xz' : Bool) (reply : Reply) (none_sent : Input) (content : Bytes) (w w' : d.World)
      → Lacks b'/' hash
      → Lacks b'.' hash
      → client.parse_url (upstream_nar prefix xz hash) ≡ some (nar_path false xz hash)
      → client.fetch (codes "GET") (upstream_nar prefix xz hash) ≡ some reply
      → is_success reply ≡ true
      → reply.url ≡ upstream_nar prefix xz hash
      → received t xz reply.body ≡ record { content = content; failed = false }
      → cache_url d t client (upstream_nar prefix xz hash) w ≡ (w', true)
      → ((remote_response t client urls
            (nar_request (codes "GET") false false hash none_sent)
            reply).body
          ≡ content)
        × ((g : Response) × (get d t (nar_request (codes "GET") cached' xz' hash none_sent) next w'
              ≡ some (w', g))
            × IsHit g (if xz' then t.compress content else content))
  unfolding remote_response
  remote_response-get laws next prefix hash xz cached' xz' reply none_sent content w w' slash dot p
        f ok same e h =
      (
        ap (λ i. i.content) (remote_body-received prefix hash xz reply none_sent same)
            ∙ ap (λ i. i.content) e,
        cache_url-get d t client laws next prefix hash xz cached' xz' reply none_sent content w w'
            slash dot p f ok e h,
      )
