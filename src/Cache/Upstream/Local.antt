-- ===== src/Cache/Upstream/Local.antt =====
-- What was fetched from a substituter is served by the local cache.
use mathlib.Core.List.{reverse-append}
use spongix.Base.{
  Bytes, ◌++◌, Option, none, some, Bool, true, false, codes, Input, if◌then◌else◌, ◌≡◌, refl, sym,
  ap, ◌∙◌, subst, Lacks, Option-cases, inl, inr, append_assoc,
}
use spongix.Strings.{strip_prefix}
use spongix.Desync.{Desync, Index, Laws}
use spongix.Http.{Response, status_of, set_header, write_header, write_body}
use spongix.Cache.Names.{has_suffix}
use spongix.Cache.Agree.{nar_path, url_to_index_name-nar}
use spongix.Cache.Handlers.{
  Request, Texts, get, put_common, streamed, indexed, failed_put, answer, store_index,
}
use spongix.Cache.Serves.{IsHit, put_common-get}
use spongix.Cache.Archives.{nar_request, received, served-nar}
use spongix.Cache.Upstream.{
  Reply, Client, is_success, store_reader, index_stored, store_reply, reply_stored, parsed_stored,
  cache_url,
}

not_ok : false ≡ true → ⊥
not_ok e = cc

-- The URL of an archive of a substituter.
abbrev pub upstream_nar : Bytes → Bool → Bytes → Bytes
upstream_nar prefix xz hash = prefix ++ nar_path false xz hash

pub has_suffix-nar :
    (prefix hash : Bytes) → has_suffix (upstream_nar prefix false hash) (codes ".nar") ≡ true
unfolding has_suffix strip_prefix
has_suffix-nar prefix hash =
    rw
      (
        ← append_assoc prefix (codes "/nar/" ++ hash) (codes ".nar"),
        reverse-append (prefix ++ (codes "/nar/" ++ hash)) (codes ".nar"),
      )
      refl

module _ (prefix hash : Bytes) where
  abbrev pub packed : Bytes
  packed = upstream_nar prefix true hash

  pub packed-spells : packed ≡ (prefix ++ (codes "/nar/" ++ hash)) ++ codes ".nar.xz"
  packed-spells = sym (append_assoc prefix (codes "/nar/" ++ hash) (codes ".nar.xz"))

  pub has_suffix-xz :
      (has_suffix packed (codes ".nar") ≡ false)
      × ((has_suffix packed (codes ".narinfo") ≡ false)
          × (has_suffix packed (codes ".nar.xz") ≡ true))
  unfolding has_suffix strip_prefix
  has_suffix-xz =
      rw (packed-spells, reverse-append (prefix ++ (codes "/nar/" ++ hash)) (codes ".nar.xz"))
        (refl, (refl, refl))

module _ (d : Desync) (t : Texts) (client : Client) where
  -- The same calls as those of PUT: the same state, and no error where PUT answers 200.
  abbrev Agrees : d.World × Bool → d.World × Response → Type 0
  Agrees (w, b) (w', a) = (w ≡ w') × (b ≡ true → status_of a ≡ 200)

  indexed-Agrees : (p : d.World × Bool) → Agrees p (indexed d p)
  unfolding indexed failed_put answer write_header write_body set_header
  indexed-Agrees (w, true) = (refl, λ h. refl)
  indexed-Agrees (w, false) = (refl, λ h. absurd (not_ok h))

  index_stored-Agrees :
      (r : Request) (p : d.World × Option Index)
      → Agrees (index_stored d t client r.escaped_path p) (streamed d r p)
  unfolding streamed store_index failed_put answer write_header write_body set_header
  index_stored-Agrees r (w, none) = (refl, λ h. absurd (not_ok h))
  index_stored-Agrees r (w, some idx) = indexed-Agrees (store_index d r idx w)

  store_reader-Agrees :
      (r : Request) (rd : Input) (w : d.World)
      → Agrees (store_reader d t client r.escaped_path rd w) (put_common d r rd w)
  unfolding store_reader put_common
  store_reader-Agrees r rd w = elim (Option-cases (d.new_chunker rd)) [
    | inl e ↦ rw e (refl, λ h. absurd (not_ok h))
    | inr (ch, e) ↦ rw e (index_stored-Agrees r (d.chunk_stream ch w))
  ]

  store_reply-nar :
      (prefix hash path : Bytes) (xz : Bool) (reply : Reply) (w : d.World)
      → is_success reply ≡ true
      → store_reply d t client (upstream_nar prefix xz hash) path reply w
        ≡ store_reader d t client path (received t xz reply.body) w
  unfolding store_reply
  store_reply-nar prefix hash path false reply w ok = rw (ok, has_suffix-nar prefix hash) refl
  store_reply-nar prefix hash path true reply w ok =
      let (a, (b, c)) = has_suffix-xz prefix hash in rw (ok, a, b, c) refl

  -- An archive that was fetched from a substituter with success, and stored without an error, is served as
  -- a hit to every GET of its hash, as one that was put: with the content that was fetched, decompressed
  -- if its URL ended in .xz, and compressed for a client whose URL ends in .xz.
  pub cache_url-get :
      (laws : Laws d) (next : d.World → Option (d.World × Response)) (prefix hash : Bytes)
      (xz cached' xz' : Bool) (reply : Reply) (none_sent : Input) (content : Bytes) (w w' : d.World)
      → Lacks b'/' hash
      → Lacks b'.' hash
      → client.parse_url (upstream_nar prefix xz hash) ≡ some (nar_path false xz hash)
      → client.fetch (codes "GET") (upstream_nar prefix xz hash) ≡ some reply
      → is_success reply ≡ true
      → received t xz reply.body ≡ record { content = content; failed = false }
      → cache_url d t client (upstream_nar prefix xz hash) w ≡ (w', true)
      → (g : Response) × (get d t (nar_request (codes "GET") cached' xz' hash none_sent) next w'
          ≡ some (w', g))
        × IsHit g (if xz' then t.compress content else content)
  unfolding cache_url parsed_stored reply_stored
  cache_url-get laws next prefix hash xz cached' xz' reply none_sent content w w' slash dot p f ok e
        h =
      let q = nar_request (codes "GET") false xz hash none_sent in
      let r = nar_request (codes "GET") cached' xz' hash none_sent in
      let url = upstream_nar prefix xz hash in
      let same =
        url_to_index_name-nar cached' xz' hash slash dot
        ∙ sym (url_to_index_name-nar false xz hash slash dot) in
      let stored : store_reader d t client (nar_path false xz hash)
            (record { content = content; failed = false }) w
          ≡ (w', true) =
        ap (λ z. store_reader d t client (nar_path false xz hash) z w) (sym e)
        ∙ sym (store_reply-nar prefix hash (nar_path false xz hash) xz reply w ok)
        ∙ rw (p, f) at h in
      let (worlds, fine) = store_reader-Agrees q (record { content = content; failed = false }) w in
      let put_world : (put_common d q (record { content = content; failed = false }) w).0 ≡ w' =
        sym worlds ∙ ap (λ z. z.0) stored in
      let (g, got, hit) =
        put_common-get d laws t q r next content w same (fine (ap (λ z. z.1) stored)) in
      (
        g,
        subst (λ z. get d t r next z ≡ some (z, g)) put_world got,
        subst (IsHit g) (served-nar t cached' xz' hash content) hit,
      )

  -- An answer of a substituter that is no success is counted as cached, though nothing is stored: the
  -- error is lost.
  pub cache_url-no_success :
      (url path : Bytes) (reply : Reply) (w : d.World)
      → client.parse_url url ≡ some path
      → client.fetch (codes "GET") url ≡ some reply
      → is_success reply ≡ false
      → cache_url d t client url w ≡ (w, true)
  unfolding cache_url parsed_stored reply_stored store_reply
  cache_url-no_success url path reply w p f bad = rw (p, f, bad) refl
