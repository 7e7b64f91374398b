-- ===== src/Docker/Handlers.antt =====
-- docker.go: the handlers of blobs and of uploads. A handler takes what it reads of the request and a
-- fresh answer, and gives the state and the answer; the log is left out. The body of the request is the
-- bytes that `io.Copy` reads of it, and a uuid that could not be made is `none`.
pub mod Sessions
pub mod Headers
pub mod Uploaded
use spongix.Base.{
  Bytes, List, [], ◌∷◌, ◌++◌, ℕ, Option, none, some, Bool, true, false, codes, length, null,
  if◌then◌else◌,
}
use spongix.Decimal.{format_uint}
use spongix.Desync.{Desync}
use spongix.Http.{Response, fresh, set_header, write_header, write_body}
use spongix.Docker.Uploads.{Uploads, new_upload, get_upload, del_upload, content, append_content}
use spongix.Docker.Blobs.{BlobError, set_blob, get_blob, head_blob}

pub record Request : Type 0 where
  pub url_host : Bytes
  pub url_path : Bytes
  pub body : Bytes
  pub name : Bytes
  pub digest : Bytes
  pub uuid : Bytes

abbrev pub mime_json : Bytes
mime_json = codes "application/json; charset=utf-8"

abbrev pub upload_unknown : Bytes
upload_unknown = codes "{\"errors\": [{\"code\": \"BLOB_UPLOAD_UNKNOWN\"}]}"

-- "0-%d" of the length of the buffer.
abbrev pub range_of : Bytes → Bytes
range_of bytes = codes "0-" ++ format_uint (length bytes)

unfoldable pub ping : Response
unfolding set_header write_header write_body
ping =
    write_body (codes "{}") (write_header 200 (set_header (codes "Content-Type") mime_json fresh))

-- No upload of the uuid.
unfoldable pub unknown_upload : Response
unfolding set_header write_header write_body
unknown_upload =
    write_body upload_unknown (write_header 404 (set_header (codes "Content-Type") mime_json fresh))

unfoldable pub post_answer : Request → Bytes → Response
unfolding set_header write_header
post_answer r u = write_header 202 (
    set_header (codes "Docker-Upload-UUID") u (
      set_header (codes "Range") (codes "0-0") (
        set_header (codes "Location") (r.url_host ++ r.url_path ++ u)
          (set_header (codes "Content-Length") (codes "0") fresh))))

-- The argument stands for `uuid.GenerateUUID`.
unfoldable pub blob_upload_post : Request → Option Bytes → Uploads → Uploads × Response
unfolding new_upload write_header
blob_upload_post r none s = (s, write_header 500 fresh)
blob_upload_post r (some u) s = (new_upload u s, post_answer r u)

unfoldable pub upload_answer : Request → Uploads × Option ℕ → Uploads × Response
unfolding content set_header write_header
upload_answer r (s, none) = (s, write_header 404 fresh)
upload_answer r (s, some p) = (
  s,
  set_header (codes "Docker-Upload-UUID") r.uuid (
      set_header (codes "Range") (range_of (content p s))
        (set_header (codes "Content-Length") (codes "0") (write_header 204 fresh))),
)

unfoldable pub blob_upload_get : Request → Uploads → Uploads × Response
unfolding get_upload
blob_upload_get r s = upload_answer r (get_upload r.uuid s)

unfoldable pub patched : Request → ℕ → Uploads → Uploads × Response
unfolding content set_header write_header
patched r p s = (
  s,
  write_header 204 (
      set_header (codes "Docker-Upload-UUID") r.uuid (
        set_header (codes "Range") (range_of (content p s)) (
          set_header (codes "Location") (r.url_host ++ r.url_path)
            (set_header (codes "Content-Length") (codes "0") fresh)))),
)

unfoldable pub patch_answer : Request → Uploads × Option ℕ → Uploads × Response
unfolding append_content patched unknown_upload
patch_answer r (s, none) = (s, unknown_upload)
patch_answer r (s, some p) = patched r p (append_content p r.body s)

unfoldable pub blob_upload_patch : Request → Uploads → Uploads × Response
unfolding get_upload
blob_upload_patch r s = patch_answer r (get_upload r.uuid s)

module _ (d : Desync) where
  -- What `PUT` has written when the blob is set: an error is answered, and the handler goes on.
  unfoldable pub set_response : Option BlobError → Response
  unfolding write_header write_body
  set_response none = fresh
  set_response (some e) = write_body upload_unknown (write_header 500 fresh)

  unfoldable pub finish : Request → ℕ → Uploads → Response → Uploads × Response
  unfolding content del_upload set_header write_header
  finish r p s w = (
    (del_upload r.uuid s).0,
    write_header 201 (
        set_header (codes "Docker-Upload-UUID") r.uuid (
          set_header (codes "Range") (range_of (content p s))
            (set_header (codes "Content-Length") (codes "0") w))),
  )

  unfoldable pub put_blob : Request → ℕ → Uploads → d.World → (Uploads × d.World) × Response
  unfolding content set_blob finish set_response
  put_blob r p s w =
      let (w', e) = set_blob d r.name r.digest (content p s) w in
      let (s', answer) = finish r p s (set_response e) in ((s', w'), answer)

  unfoldable pub put_answer :
      Request → d.World → Uploads × Option ℕ → (Uploads × d.World) × Response
  unfolding append_content put_blob
  put_answer r w (s, none) = ((s, w), unknown_upload)
  put_answer r w (s, some p) = put_blob r p (append_content p r.body s) w

  unfoldable pub blob_upload_put : Request → Uploads × d.World → (Uploads × d.World) × Response
  unfolding get_upload
  blob_upload_put r (s, w) = put_answer r w (get_upload r.uuid s)

  -- An empty blob is the nil slice: the buffer that `get` fills has no array when nothing was written.
  unfoldable pub get_response : Bytes × Option BlobError → Response
  unfolding write_header write_body
  get_response (blob, some e) = write_header 404 fresh
  get_response (blob, none) =
      if null blob then write_header 404 fresh else write_body blob (write_header 200 fresh)

  unfoldable pub handle_blob_get : Request → d.World → Response
  unfolding get_blob
  handle_blob_get r w = get_response (get_blob d r.name r.digest w)

  unfoldable pub head_response : Option BlobError → Response
  unfolding write_header
  head_response (some e) = write_header 404 fresh
  head_response none = write_header 200 fresh

  unfoldable pub handle_blob_head : Request → d.World → Response
  unfolding head_blob
  handle_blob_head r w = head_response (head_blob d r.name r.digest w)
