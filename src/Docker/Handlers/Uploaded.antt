-- ===== src/Docker/Handlers/Uploaded.antt =====
-- A whole session of an upload, and the blob that is served afterwards.
use spongix.Base.{
  Bytes, ℕ, List, [], ◌∷◌, ◌++◌, Option, none, some, ◌≡◌, refl, ap, ◌∙◌, sym, if◌then◌else◌, null,
  arith,
}
use spongix.Strings.Parts.{equal_self}
use spongix.Desync.{Desync, Laws}
use spongix.Http.{Response, status_of, write_header, write_body}
use spongix.Docker.Uploads.{Uploads}
use spongix.Docker.Uploads.View.{view, Inv, new_upload-Inv, view-new}
use spongix.Docker.Blobs.{BlobError, set_blob}
use spongix.Docker.Blobs.Stored.{set_blob-get_blob}
use spongix.Docker.Handlers.{
  Request, blob_upload_post, blob_upload_put, handle_blob_get, get_response,
}
use spongix.Docker.Handlers.Sessions.{
  with_body, patch_all, joined, put_status, put-world, put-status, Grows, patch_all-Grows,
}

-- What GET answers for a blob of these bytes: the nil slice of an empty blob counts as missing.
abbrev pub blob_answer : Bytes → ℕ × Bytes
blob_answer bytes = if null bytes then (404, []) else (200, bytes)

abbrev pub answer_of : Response → ℕ × Bytes
answer_of w = (status_of w, w.body)

get_response-answer :
    (d : Desync) (bytes : Bytes) → answer_of (get_response d (bytes, none)) ≡ blob_answer bytes
unfolding get_response write_header write_body
get_response-answer d [] = refl
get_response-answer d (b ∷ bytes) = refl

put_status-created : (e : Option BlobError) → put_status e ≡ 201 → e ≡ none
put_status-created none h = refl
put_status-created (some e) h = absurd (omega arith)

-- The uploads after POST made the uuid and every body but the last was patched.
unfoldable pub uploaded : Request → Bytes → List Bytes → Uploads → Uploads
unfolding blob_upload_post patch_all
uploaded r u bodies s = patch_all (record r { uuid = u }) bodies (blob_upload_post r (some u) s).0

-- The session, which the PUT of the last body ends.
unfoldable pub upload_session :
    (d : Desync)
    → Request
    → Bytes
    → List Bytes
    → Bytes
    → Uploads × d.World
    → (Uploads × d.World) × Response
unfolding uploaded blob_upload_put
upload_session d r u bodies last (s, w) =
    blob_upload_put d (with_body (record r { uuid = u }) last) (uploaded r u bodies s, w)

module _ (r : Request) (u : Bytes) (bodies : List Bytes) (s : Uploads) (inv : Inv s) where
  uploaded-Grows : Grows u (joined bodies) (blob_upload_post r (some u) s).0 (uploaded r u bodies s)
  unfolding uploaded blob_upload_post
  uploaded-Grows =
      patch_all-Grows (record r { uuid = u }) bodies (blob_upload_post r (some u) s).0
        (new_upload-Inv u s inv) [] (view-new u s inv u ∙ rw (equal_self u) refl)

  uploaded-view : view u (uploaded r u bodies s) ≡ some (joined bodies)
  unfolding blob_upload_post
  uploaded-view = uploaded-Grows.grown [] (view-new u s inv u ∙ rw (equal_self u) refl)

-- Let POST make a uuid, PATCH requests send bodies and PUT send the last one. If the PUT answers 201,
-- then GET of the blob of its name and digest answers 200 with the bodies in order, or 404 if they are
-- empty together.
pub upload_session-handle_blob_get :
    (d : Desync) (laws : Laws d) (r : Request) (u : Bytes) (bodies : List Bytes) (last : Bytes)
    (s : Uploads) (w : d.World)
    → Inv s
    → status_of (upload_session d r u bodies last (s, w)).1 ≡ 201
    → answer_of (handle_blob_get d r (upload_session d r u bodies last (s, w)).0.1)
      ≡ blob_answer (joined bodies ++ last)
unfolding upload_session handle_blob_get
upload_session-handle_blob_get d laws r u bodies last s w inv h =
    let q = with_body (record r { uuid = u }) last in
    let s' = uploaded r u bodies s in
    let seen = uploaded-view r u bodies s inv in
    let inv' = (uploaded-Grows r u bodies s inv).inv in
    let all = joined bodies ++ last in
    let ok =
      put_status-created (set_blob d r.name r.digest all w).1
        (sym (put-status d q s' w inv' (joined bodies) seen) ∙ h) in
    rw (put-world d q s' w inv' (joined bodies) seen) (
      ap (λ z. answer_of (get_response d z)) (set_blob-get_blob d laws r.name r.digest all w ok)
      ∙ get_response-answer d all)
