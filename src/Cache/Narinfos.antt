-- ===== src/Cache/Narinfos.antt =====
-- A narinfo that was put is served with signatures that verify.
use spongix.Base.{
  Bytes, false, [], Option, some, codes, ◌≡◌, ◌≢◌, sym, subst, All, Option-cases, inl, inr,
}
use mathlib.Core.Option.{some-injective, none-ne-some}
use spongix.Strings.{equal, ext}
use spongix.Desync.{Desync, Laws}
use spongix.Http.{Response, status_of}
use spongix.Narinfo.{Narinfo, ok, blank}
use spongix.Narinfo.Unmarshal.{unmarshal}
use spongix.Narinfo.Marshal.{marshal}
use spongix.Narinfo.Signatures.{Crypto, Keys, sign_msg}
use spongix.Narinfo.Signatures.Kept.{Verifies}
use spongix.Narinfo.Sanitize.{sanitize_nar}
use spongix.Narinfo.Storage.{prepared, prepare_for_storage}
use spongix.Narinfo.Storage.Signed.{IsTrusted, prepared_signed}
use spongix.Cache.Names.{url_to_index_name}
use spongix.Cache.Handlers.{Request, Texts, put, put_narinfo, put_text, put_common, get}
use spongix.Cache.Serves.{IsHit, served, put_common-get}

module _ (d : Desync) (t : Texts) (c : Crypto) (trusted secret : Keys) where
  prepare-prepared :
      (info : Narinfo) (text : Bytes)
      → prepare_for_storage c trusted secret info ≡ some text
      → (r : Narinfo) × (prepared c trusted secret info ≡ some r) × (text ≡ marshal r)
  unfolding prepare_for_storage
  prepare-prepared info text h = elim (Option-cases (prepared c trusted secret info)) [
    | inl e ↦ absurd (let k = rw e at h in cc)
    | inr (r, e) ↦ (r, e, sym (some-injective (marshal r) text (rw e at h)))
  ]

  put-narinfo :
      (q : Request) (info : Narinfo) (w w' : d.World) (a : Response)
      → ext q.url ≡ codes ".narinfo"
      → unmarshal blank (some q.body) ≡ ok info
      → put d t c trusted secret q w ≡ some (w', a)
      → (text : Bytes) × (prepare_for_storage c trusted secret info ≡ some text)
        × (put_common d q (record { content = text; failed = false }) w ≡ (w', a))
  unfolding put equal put_narinfo put_text
  put-narinfo q info w w' a e u h =
      elim (Option-cases (prepare_for_storage c trusted secret info)) [
        | inl n ↦ absurd (none-ne-some (w', a) (rw (e, u, n) at h))
        | inr (text, s) ↦ (
          text,
          s,
          some-injective (put_common d q (record { content = text; failed = false }) w) (w', a)
              (rw (e, u, s) at h),
        )
      ]

  -- Let every secret key be trusted, and let there be one. If PUT answers 200 for the text of a narinfo,
  -- then every GET of the same index name is a hit that serves the text of a narinfo: the one that was
  -- read with the URL sanitized and with signatures, of which there is one at least and each verifies.
  pub put-get_signed :
      (laws : Laws d) (q r : Request) (info : Narinfo)
      (next : d.World → Option (d.World × Response)) (w w' : d.World) (a : Response)
      → All (IsTrusted c trusted) secret
      → secret ≢ []
      → ext q.url ≡ codes ".narinfo"
      → ext r.url ≡ codes ".narinfo"
      → url_to_index_name r.escaped_path ≡ url_to_index_name q.escaped_path
      → unmarshal blank (some q.body) ≡ ok info
      → put d t c trusted secret q w ≡ some (w', a)
      → status_of a ≡ 200
      → (g : Response) × (get d t r next w' ≡ some (w', g))
        × ((stored : Narinfo) × IsHit g (marshal stored)
            × ((stored ≡ record (sanitize_nar info) { sig = stored.sig })
                × ((stored.sig ≢ []) × All (Verifies c trusted (sign_msg info)) stored.sig)))
  unfolding equal
  put-get_signed laws q r info next w w' a trust some_key eq er same u h ok200 =
      let (text, s, done) = put-narinfo q info w w' a eq u h in
      let (stored, p, is_text) = prepare-prepared info text s in
      let (g, got, hit) =
        subst
          (λ p.
            status_of p.1 ≡ 200
            → (g : Response) × (get d t r next p.0 ≡ some (p.0, g)) × IsHit g (served t r.url text))
          done (put_common-get d laws t q r next text w same) ok200 in
      let plain : served t r.url text ≡ marshal stored = rw er is_text in
      let (x, y, z) = prepared_signed c trusted secret info trust some_key p in
      (g, got, (stored, subst (IsHit g) plain hit, (x, (y, z))))
