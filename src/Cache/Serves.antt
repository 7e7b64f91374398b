-- ===== src/Cache/Serves.antt =====
-- What was put into the cache is served.
use spongix.Base.{
  Bytes, List, [], ◌∷◌, Option, none, some, Bool, true, false, codes, if◌then◌else◌, ◌≡◌, refl, sym,
  ap, ◌∙◌, subst, arith, Bool-cases, Option-cases, inl, inr,
}
use spongix.Strings.{equal, ext}
use spongix.Assoc.{lookup, insert}
use spongix.Desync.{Desync, Index, Pieces, Laws}
use spongix.Desync.Kept.{Stored, stored-Pieces}
use spongix.Http.{Response, status_of, sent_headers, set_header, write_header, write_body}
use spongix.Cache.Names.{url_to_index_name}
use spongix.Cache.Handlers.{
  Request, Texts, get_index, store_index, written, get, get_hit, get_answer, cache_hit, put_common,
  chunked, streamed, indexed, answer, failed_put,
}

-- The answer is 200, a hit, and has these bytes.
abbrev pub IsHit : Response → Bytes → Type 0
IsHit g bytes =
    (status_of g ≡ 200)
    × ((lookup (codes "X-Cache") (sent_headers g) ≡ some (codes "HIT")) × (g.body ≡ bytes))

-- What a client gets for the content: an URL that ends in .xz is answered compressed.
abbrev pub served : Texts → Bytes → Bytes → Bytes
served t url content = if equal (ext url) (codes ".xz") then t.compress content else content

module _ (d : Desync) where
  written-Pieces :
      (w : d.World) (ids : List Bytes) (bytes : Bytes)
      → Pieces d w ids bytes
      → written d w ids ≡ bytes
  unfolding written
  written-Pieces w [] bytes e = sym e
  written-Pieces w (id ∷ ids) bytes (piece, rest, e, ((c, found, has), more)) =
      rw (found, has, written-Pieces w ids rest more, e) refl

  get_hit-IsHit :
      (t : Texts) (r : Request) (w : d.World) (idx : Index)
      → IsHit (get_hit d t r w idx) (served t r.url (written d w idx.chunks))
  unfolding get_hit cache_hit set_header write_body lookup insert
  get_hit-IsHit t r w idx = elim (Bool-cases (equal (ext r.url) (codes ".xz"))) [
    | inl y ↦ rw y (refl, (refl, refl))
    | inr n ↦ rw n (refl, (refl, refl))
  ]

  get-Stored :
      (t : Texts) (r : Request) (next : d.World → Option (d.World × Response)) (w : d.World)
      (name bytes : Bytes)
      → url_to_index_name r.escaped_path ≡ some name
      → Stored d w name bytes
      → (g : Response) × (get d t r next w ≡ some (w, g)) × IsHit g (served t r.url bytes)
  unfolding get get_index get_answer
  get-Stored t r next w name bytes e (idx, found, pieces) = (
    get_hit d t r w idx,
    rw (e, found) refl,
    subst (λ z. IsHit (get_hit d t r w idx) (served t r.url z))
        (written-Pieces w idx.chunks bytes pieces) (get_hit-IsHit t r w idx),
  )

  module _ (laws : Laws d) where
    abbrev Kept : Request → Bytes → d.World × Response → Type 0
    Kept r bytes (w, a) =
        status_of a ≡ 200
        → (name : Bytes) × (url_to_index_name r.escaped_path ≡ some name) × Stored d w name bytes

    indexed-Kept :
        (r : Request) (bytes : Bytes) (idx : Index) (w : d.World) (p : d.World × Bool)
        → store_index d r idx w ≡ p
        → Pieces d w idx.chunks bytes
        → Kept r bytes (indexed d p)
    unfolding store_index indexed failed_put answer write_header write_body set_header
    indexed-Kept r bytes idx w (w', false) e pieces h = absurd (omega arith)
    indexed-Kept r bytes idx w (w', true) e pieces h =
        elim (Option-cases (url_to_index_name r.escaped_path)) [
          | inl none_named ↦ (let f : false ≡ true = ap (λ p. p.1) (rw none_named at e) in cc)
          | inr (name, named) ↦ (
            name,
            named,
            (
              idx,
              laws.stores name idx w w' (rw named at e),
              subst (λ p. Pieces d p.0 idx.chunks bytes) (rw named at e)
                  (stored-Pieces d laws name idx w idx.chunks bytes pieces),
            ),
          )
        ]

    streamed-Kept :
        (r : Request) (bytes : Bytes) (ch : d.Chunker) (w : d.World) (p : d.World × Option Index)
        → d.new_chunker (record { content = bytes; failed = false }) ≡ some ch
        → d.chunk_stream ch w ≡ p
        → Kept r bytes (streamed d r p)
    unfolding streamed failed_put answer write_header write_body set_header
    streamed-Kept r bytes ch w (w', none) made e h = absurd (omega arith)
    streamed-Kept r bytes ch w (w', some idx) made e h =
        indexed-Kept r bytes idx w' (store_index d r idx w') refl
          (laws.cuts bytes ch w w' idx made e) h

    chunked-Kept :
        (r : Request) (bytes : Bytes) (w : d.World) (o : Option d.Chunker)
        → d.new_chunker (record { content = bytes; failed = false }) ≡ o
        → Kept r bytes (chunked d r w o)
    unfolding failed_put answer write_header write_body set_header
    chunked-Kept r bytes w none made h = absurd (omega arith)
    chunked-Kept r bytes w (some ch) made h =
        streamed-Kept r bytes ch w (d.chunk_stream ch w) made refl h

    put_common-Kept :
        (r : Request) (bytes : Bytes) (w : d.World)
        → Kept r bytes (put_common d r (record { content = bytes; failed = false }) w)
    unfolding put_common
    put_common-Kept r bytes w =
        chunked-Kept r bytes w (d.new_chunker (record { content = bytes; failed = false })) refl

    -- What PUT stored with the answer 200 is what GET serves as a hit, by any URL of the same index name.
    pub put_common-get :
        (t : Texts) (q r : Request) (next : d.World → Option (d.World × Response)) (bytes : Bytes)
        (w : d.World)
        → url_to_index_name r.escaped_path ≡ url_to_index_name q.escaped_path
        → status_of (put_common d q (record { content = bytes; failed = false }) w).1 ≡ 200
        → let w' = (put_common d q (record { content = bytes; failed = false }) w).0 in
          (g : Response) × (get d t r next w' ≡ some (w', g)) × IsHit g (served t r.url bytes)
    put_common-get t q r next bytes w same h =
        let (name, named, st) = put_common-Kept q bytes w h in
        get-Stored t r next (put_common d q (record { content = bytes; failed = false }) w).0 name
          bytes (same ∙ named) st
