-- ===== src/Docker/Handlers/Headers.antt =====
-- The status and the headers that the handlers of uploads send.
use spongix.Base.{Bytes, [], ◌++◌, some, ◌≡◌, refl, ap, ◌∙◌, codes}
use spongix.Assoc.{lookup, insert}
use spongix.Http.{status_of, sent_headers, set_header, write_header}
use spongix.Docker.Uploads.{Uploads, get_upload}
use spongix.Docker.Uploads.View.{view, Inv, content-append_self}
use spongix.Docker.Handlers.{
  Request, blob_upload_post, blob_upload_get, blob_upload_patch, patch_answer, patched,
  upload_answer, range_of, post_answer,
}
use spongix.Docker.Handlers.Sessions.{view-lookup}

-- POST answers 202 with the uuid and with the path of the upload.
pub blob_upload_post-headers :
    (r : Request) (u : Bytes) (s : Uploads)
    → let w = (blob_upload_post r (some u) s).1 in
      (status_of w ≡ 202)
      × ((lookup (codes "Docker-Upload-UUID") (sent_headers w) ≡ some u)
          × (lookup (codes "Location") (sent_headers w) ≡ some (r.url_host ++ r.url_path ++ u)))
unfolding blob_upload_post post_answer write_header set_header lookup insert
blob_upload_post-headers r u s = (refl, (refl, refl))

module _ (r : Request) (s : Uploads) (inv : Inv s) (c : Bytes) (here : view r.uuid s ≡ some c) where
  -- PATCH of an upload answers 204, and the header Range ends at the number of bytes received so far.
  pub blob_upload_patch-headers :
      let w = (blob_upload_patch r s).1 in
      (status_of w ≡ 204)
      × (lookup (codes "Range") (sent_headers w) ≡ some (range_of (c ++ r.body)))
  unfolding blob_upload_patch get_upload patch_answer patched write_header set_header lookup insert
  blob_upload_patch-headers =
      let (p, there, is_c) = view-lookup r.uuid c s here in
      rw there (
        refl,
        ap (λ z. some (range_of z))
            (content-append_self r.uuid p r.body s inv there ∙ ap (λ z. z ++ r.body) is_c),
      )

  -- GET of an upload answers 204 with no header at all: it sets the header Range, to the number of
  -- bytes received so far, after the headers are sent.
  pub blob_upload_get-headers :
      let w = (blob_upload_get r s).1 in
      (status_of w ≡ 204)
      × ((sent_headers w ≡ []) × (lookup (codes "Range") w.headers ≡ some (range_of c)))
  unfolding blob_upload_get get_upload upload_answer write_header set_header lookup insert
  blob_upload_get-headers =
      let (p, there, is_c) = view-lookup r.uuid c s here in
      rw there (refl, (refl, ap (λ z. some (range_of z)) is_c))
