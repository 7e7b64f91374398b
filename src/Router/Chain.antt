-- ===== src/Router/Chain.antt =====
-- The chain of the local cache, the bucket and the substituters.
use spongix.Base.{
  ℕ, Bytes, List, [], ◌∷◌, ◌++◌, Option, none, some, Bool, true, false, codes, Input, if◌then◌else◌,
  ◌≡◌, refl, ap, ◌∙◌, Lacks,
}
use spongix.Strings.{equal}
use spongix.Desync.{Desync, Pieces, Laws}
use spongix.Http.{Response}
use spongix.Narinfo.Signatures.{Crypto}
use spongix.Cache.Agree.{nar_path, url_to_index_name-nar}
use spongix.Cache.Handlers.{Request, Texts, serve_http, serve_not_found, get, get_index, get_answer}
use spongix.Cache.Serves.{IsHit}
use spongix.Cache.Archives.{nar_request, received}
use spongix.Cache.Upstream.{Reply, Client, is_success, cache_url}
use spongix.Cache.Upstream.Local.{upstream_nar}
use spongix.Cache.Remote.{Urls, serve_remote, remote_response}
use spongix.Cache.Remote.Kept.{remote_response-get}
use spongix.Startup.{Proxy, Host, setup}
use spongix.Startup.Dirs.{HostLaws}
use spongix.Startup.Ready.{setup-IsReady}
use spongix.Router.{Handler, with_cache_handler, queued, remote, route, nar_exts}

Pieces-queued :
    (d : Desync) (w : d.World) (queue : List Bytes) (ids : List Bytes) (bytes : Bytes)
    → Pieces d w ids bytes
    → Pieces (queued d) (w, queue) ids bytes
Pieces-queued d w queue [] bytes h = h
Pieces-queued d w queue (id ∷ ids) bytes (piece, rest, e, (has, more)) =
    (piece, rest, e, (has, Pieces-queued d w queue ids rest more))

queued-Laws : (d : Desync) → Laws d → Laws (queued d)
queued-Laws d laws = record {
  cuts = λ input ch (w, queue) (w', queue') idx made e.
      Pieces-queued d w' queue' idx.chunks input
        (laws.cuts input ch w w' idx made (ap (λ p. (p.0.0, p.1)) e));
  adds = λ ch (w, queue) id piece has. laws.adds ch w id piece has;
  keeps_index = λ ch (w, queue) name. laws.keeps_index ch w name;
  stores =
      λ name idx (w, queue) (w', queue') e. laws.stores name idx w w' (ap (λ p. (p.0.0, p.1)) e);
  stores_there = λ name other idx (w, queue) ne. laws.stores_there name other idx w ne;
  keeps_chunks = λ name idx (w, queue) id. laws.keeps_chunks name idx w id;
}

module _ (host : Host) (laws : HostLaws host) (d : Desync) (t : Texts) (c : Crypto)
    (client : Client) (urls : Urls) where
  with_cache_handler-nil :
      (store : Bool) (cache : Handler (queued d).World → Handler (queued d).World)
      (h : Handler (queued d).World)
      → with_cache_handler store false cache h ≡ h
  with_cache_handler-nil true cache h = refl
  with_cache_handler-nil false cache h = refl

  -- However the program is configured, if it gets through its set-up from a proxy whose index of
  -- the bucket is nil, as NewProxy leaves it, no request reaches a cache in the bucket: every route
  -- is the local cache, with the keys that were loaded, and behind it the substituters.
  pub setup-route :
      (p p' : Proxy) (files files' : host.Files)
      (s3_cache : Request → Handler (queued d).World → Handler (queued d).World) (exts : List Bytes)
      (pick : Option ℕ) (r : Request)
      → p.s3_index ≡ false
      → setup host p files ≡ some (files', p')
      → route d t c client urls p' s3_cache exts pick r
        ≡ serve_http
            (queued d)
            t
            c
            p'.trusted_keys
            p'.secret_keys
            r
            (remote d t c client urls p.substituters exts pick r)
  unfolding route
  setup-route p p' files files' s3_cache exts pick r nil h =
      let ready = setup-IsReady host laws p p' files files' h in
      let off : p'.s3_index ≡ false = ready.s3_index ∙ nil in
      rw (ready.local_store, ready.local_index, off, ready.substituters)
        (ap (serve_http (queued d) t c p'.trusted_keys p'.secret_keys r) (
          with_cache_handler-nil p'.s3_store (s3_cache r)
            (remote d t c client urls p.substituters exts pick r)))

  route-get :
      (p p' : Proxy) (files files' : host.Files)
      (s3_cache : Request → Handler (queued d).World → Handler (queued d).World) (exts : List Bytes)
      (pick : Option ℕ) (r : Request) (s : (queued d).World)
      → p.s3_index ≡ false
      → setup host p files ≡ some (files', p')
      → r.method ≡ codes "GET"
      → route d t c client urls p' s3_cache exts pick r s
        ≡ get (queued d) t r (remote d t c client urls p.substituters exts pick r) s
  unfolding serve_http equal
  route-get p p' files files' s3_cache exts pick r s nil h is_get =
      ap (λ f. f s) (setup-route p p' files files' s3_cache exts pick r nil h) ∙ rw is_get refl

  -- The server from a miss to a hit, once it is set up from a proxy whose index of the bucket is
  -- nil, as NewProxy leaves it. A GET for an archive, without compression, that the local cache
  -- does not have and a substituter answers under the URL that was asked is answered with the
  -- content of the archive, and its URL is queued; once that URL was fetched and stored without an
  -- error, every GET of the hash is a hit with the same content, with or without /cache, compressed
  -- if its URL ends in .xz, and queues nothing.
  pub route-fetched :
      (d_laws : Laws d) (p p' : Proxy) (files files' : host.Files)
      (s3_cache : Request → Handler (queued d).World → Handler (queued d).World)
      (pick pick' : Option ℕ) (prefix hash content : Bytes) (xz cached' xz' : Bool) (reply : Reply)
      (none_sent : Input) (w : d.World) (queue : List Bytes) (s : (queued d).World)
      → p.s3_index ≡ false
      → setup host p files ≡ some (files', p')
      → Lacks b'/' hash
      → Lacks b'.' hash
      → d.get_index (codes "nar/" ++ (hash ++ codes ".nar")) w ≡ none
      → reply.url ≡ upstream_nar prefix xz hash
      → serve_remote t client urls
          (nar_request (codes "GET") false false hash none_sent)
          p.substituters
          nar_exts
          pick
          serve_not_found
          queue
        ≡ some (
          queue ++ reply.url ∷ [],
          remote_response t client urls
              (nar_request (codes "GET") false false hash none_sent)
              reply,
        )
      → client.parse_url (upstream_nar prefix xz hash) ≡ some (nar_path false xz hash)
      → client.fetch (codes "GET") (upstream_nar prefix xz hash) ≡ some reply
      → is_success reply ≡ true
      → received t xz reply.body ≡ record { content = content; failed = false }
      → cache_url (queued d) t client (upstream_nar prefix xz hash) (w, queue ++ reply.url ∷ [])
        ≡ (s, true)
      → (a : Response) × (g : Response) × (route d t c client urls p' s3_cache nar_exts pick
            (nar_request (codes "GET") false false hash none_sent)
            (w, queue)
          ≡ some ((w, queue ++ reply.url ∷ []), a))
        × ((a.body ≡ content)
            × ((route d t c client urls p' s3_cache nar_exts pick'
                    (nar_request (codes "GET") cached' xz' hash none_sent)
                    s
                  ≡ some (s, g))
                × IsHit g (if xz' then t.compress content else content)))
  unfolding get get_index get_answer remote
  route-fetched d_laws p p' files files' s3_cache pick pick' prefix hash content xz cached' xz'
        reply none_sent w queue s nil started slash dot missing same asked at f ok e h =
      let r = nar_request (codes "GET") false false hash none_sent in
      let r' = nar_request (codes "GET") cached' xz' hash none_sent in
      let (body, (g, got, hit)) =
        remote_response-get (queued d) t client urls (queued-Laws d d_laws)
          (remote d t c client urls p.substituters nar_exts pick' r') prefix hash xz cached' xz'
          reply none_sent content (w, queue ++ reply.url ∷ []) s slash dot at f ok same e h in
      (
        remote_response t client urls r reply,
        g,
        route-get p p' files files' s3_cache nar_exts pick r (w, queue) nil started refl
            ∙ rw (url_to_index_name-nar false false hash slash dot, missing, asked) refl,
        (
          body,
          (route-get p p' files files' s3_cache nar_exts pick' r' s nil started refl ∙ got, hit),
        ),
      )
