-- ===== src/Cache/Archives.antt =====
-- An archive that was put is served under each of its URLs.
use mathlib.Core.Option.{some-injective}
use spongix.Narinfo.Signatures.{Crypto, Keys}
use spongix.Base.{
  Bytes, [], ◌++◌, Option, some, Bool, true, false, codes, Input, if◌then◌else◌, ◌≡◌, refl, sym, ap,
  ◌∙◌, subst, arith, Lacks, append_assoc,
}
use spongix.Strings.{equal, ext}
use spongix.Strings.Paths.{ext-append}
use spongix.Desync.{Desync, Laws}
use spongix.Http.{Response, status_of}
use spongix.Cache.Agree.{nar_path, url_to_index_name-nar}
use spongix.Cache.Handlers.{Request, Texts, get, put_common, serve_http, put}
use spongix.Cache.Serves.{IsHit, served, put_common-get}

ext-nar_path :
    (cached xz : Bool) (hash : Bytes)
    → ext (nar_path cached xz hash) ≡ (if xz then codes ".xz" else codes ".nar")
ext-nar_path cached true hash =
    let start = if cached then codes "/cache" else [] in
    ap ext (
      sym (
        append_assoc start (codes "/nar/" ++ (hash ++ codes ".nar")) (codes ".xz")
        ∙ ap (λ z. start ++ (codes "/nar/" ++ z)) (append_assoc hash (codes ".nar") (codes ".xz"))))
    ∙ ext-append (start ++ (codes "/nar/" ++ (hash ++ codes ".nar"))) (codes "xz")
        (omega arith, (omega arith, tt)) (omega arith, (omega arith, tt))
ext-nar_path cached false hash =
    let start = if cached then codes "/cache" else [] in
    ap ext (sym (append_assoc start (codes "/nar/" ++ hash) (codes ".nar")))
    ∙ ext-append (start ++ (codes "/nar/" ++ hash)) (codes "nar")
        (omega arith, (omega arith, (omega arith, tt)))
        (omega arith, (omega arith, (omega arith, tt)))

pub served-nar :
    (t : Texts) (cached xz : Bool) (hash content : Bytes)
    → served t (nar_path cached xz hash) content ≡ (if xz then t.compress content else content)
unfolding equal
served-nar t cached true hash content = rw (ext-nar_path cached true hash) refl
served-nar t cached false hash content = rw (ext-nar_path cached false hash) refl

-- A request for the archive of a hash.
abbrev pub nar_request : Bytes → Bool → Bool → Bytes → Input → Request
nar_request method cached xz hash body = record {
  method = method;
  url = nar_path cached xz hash;
  escaped_path = nar_path cached xz hash;
  body = body;
}

-- What the handler reads of the body of a PUT.
abbrev pub received : Texts → Bool → Input → Input
received t xz body = if xz then t.decompress body else body

module _ (d : Desync) (t : Texts) (c : Crypto) (trusted secret : Keys) where
  put-nar :
      (cached xz : Bool) (hash : Bytes) (body : Input) (w : d.World)
      → let q = nar_request (codes "PUT") cached xz hash body in
        put d t c trusted secret q w ≡ some (put_common d q (received t xz body) w)
  unfolding put equal
  put-nar cached true hash body w = rw (ext-nar_path cached true hash) refl
  put-nar cached false hash body w = rw (ext-nar_path cached false hash) refl

  -- An archive that was put with the answer 200 is served as a hit to every GET of its hash: with or
  -- without the prefix /cache on either side, and compressed or not on either side, with the content
  -- that the handler read, which is compressed for an URL that ends in .xz.
  pub serve_http-nar :
      (laws : Laws d) (next : d.World → Option (d.World × Response)) (hash : Bytes)
      (cached xz cached' xz' : Bool) (body none_sent : Input) (content : Bytes) (w w' : d.World)
      (a : Response)
      → Lacks b'/' hash
      → Lacks b'.' hash
      → received t xz body ≡ record { content = content; failed = false }
      → serve_http d t c trusted secret (nar_request (codes "PUT") cached xz hash body) next w
        ≡ some (w', a)
      → status_of a ≡ 200
      → (g : Response) × (serve_http d t c trusted secret
            (nar_request (codes "GET") cached' xz' hash none_sent)
            next
            w'
          ≡ some (w', g))
        × IsHit g (if xz' then t.compress content else content)
  unfolding serve_http equal
  serve_http-nar laws next hash cached xz cached' xz' body none_sent content w w' a slash dot e h
        ok =
      let q = nar_request (codes "PUT") cached xz hash body in
      let r = nar_request (codes "GET") cached' xz' hash none_sent in
      let done =
        some-injective (put_common d q (received t xz body) w) (w', a)
          (sym (put-nar cached xz hash body w) ∙ h) in
      let same =
        url_to_index_name-nar cached' xz' hash slash dot
        ∙ sym (url_to_index_name-nar cached xz hash slash dot) in
      let all = ap (λ z. put_common d q z w) (sym e) ∙ done in
      subst (λ z. (g : Response) × (get d t r next w' ≡ some (w', g)) × IsHit g z)
        (served-nar t cached' xz' hash content)
        (subst
          (λ p.
            status_of p.1 ≡ 200
            → (g : Response) × (get d t r next p.0 ≡ some (p.0, g))
              × IsHit g (served t r.url content))
          all (put_common-get d laws t q r next content w same) ok)
