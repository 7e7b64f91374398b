-- ===== src/Tests/Registry.antt =====
-- The registry of blobs: runs, and the theorems in sessions.
use spongix.Base.{[], ◌∷◌, none, some, ◌≡◌, ◌≢◌, refl, codes, arith}
use spongix.Strings.{equal}
use spongix.Assoc.{lookup}
use spongix.Http.{status_of, sent_headers, set_header, write_header, write_body}
use spongix.Docker.Uploads.{Uploads, no_uploads, new_upload}
use spongix.Docker.Uploads.View.{view, Inv, no_uploads-Inv, new_upload-Inv, view-new}
use spongix.Docker.Blobs.{set_blob, get_blob, key}
use spongix.Docker.Blobs.Stored.{set_blob-get_blob, set_blob-Stored, get_blob-set_blob_other}
use spongix.Docker.Handlers.{
  Request, blob_upload_get, blob_upload_put, handle_blob_get, range_of, patch_answer, put_answer,
  put_blob, finish, set_response,
}
use spongix.Docker.Handlers.Sessions.{
  Grows, patch_all, patch_all-Grows, blob_upload_put_lem, put_status,
}
use spongix.Docker.Handlers.Headers.{blob_upload_get-headers}
use spongix.Docker.Handlers.Uploaded.{
  upload_session, uploaded, upload_session-handle_blob_get, answer_of,
}
use spongix.Tests.Stores.{toy_store, toy_store-Laws}

abbrev request : Request
request = record {
  url_host = [];
  url_path = codes "/v2/spongix/img/blobs/uploads/u1";
  body = codes "lo";
  name = codes "spongix/img";
  digest = codes "sha256:00";
  uuid = codes "u1";
}

-- One upload that has no bytes yet.
abbrev opened : Uploads
opened = new_upload (codes "u1") no_uploads

opened-Inv : Inv opened
opened-Inv = new_upload-Inv (codes "u1") no_uploads no_uploads-Inv

opened-view : view (codes "u1") opened ≡ some []
unfolding equal
opened-view = view-new (codes "u1") no_uploads no_uploads-Inv (codes "u1")

patch_all-Grows_example :
    Grows
      (codes "u1")
      (codes "hello")
      opened
      (patch_all request (codes "he" ∷ codes "llo" ∷ []) opened)
patch_all-Grows_example =
    patch_all-Grows request (codes "he" ∷ codes "llo" ∷ []) opened opened-Inv [] opened-view

blob_upload_put_lem_example :
    (status_of (blob_upload_put toy_store request (opened, [])).1
      ≡ put_status (set_blob toy_store (codes "spongix/img") (codes "sha256:00") (codes "lo") []).1)
    × (view (codes "u1") (blob_upload_put toy_store request (opened, [])).0.0 ≡ some (codes "lo"))
blob_upload_put_lem_example =
    blob_upload_put_lem toy_store request opened [] opened-Inv [] opened-view

blob_upload_get-headers_example :
    (status_of (blob_upload_get request opened).1 ≡ 204)
    × ((sent_headers (blob_upload_get request opened).1 ≡ [])
        × (lookup (codes "Range") (blob_upload_get request opened).1.headers ≡ some (range_of [])))
blob_upload_get-headers_example = blob_upload_get-headers request opened opened-Inv [] opened-view

session-created :
    status_of
      (upload_session toy_store request
        (codes "u1")
        (codes "he" ∷ [])
        (codes "llo")
        (no_uploads, [])).1
    ≡ 201
unfolding upload_session uploaded patch_answer put_answer put_blob finish set_response set_header
    write_header write_body
session-created = refl

upload_session-handle_blob_get_example :
    answer_of (
      handle_blob_get toy_store request
        (upload_session toy_store request
          (codes "u1")
          (codes "he" ∷ [])
          (codes "llo")
          (no_uploads, [])).0.1)
    ≡ (200, codes "hello")
upload_session-handle_blob_get_example =
    upload_session-handle_blob_get toy_store toy_store-Laws request (codes "u1") (codes "he" ∷ [])
      (codes "llo") no_uploads [] no_uploads-Inv session-created

blob_is_set : (set_blob toy_store (codes "a") (codes "1") (codes "hello") []).1 ≡ none
unfolding set_blob
blob_is_set = refl

set_blob-get_blob_example :
    get_blob toy_store
      (codes "a")
      (codes "1")
      (set_blob toy_store (codes "a") (codes "1") (codes "hello") []).0
    ≡ (codes "hello", none)
set_blob-get_blob_example =
    set_blob-get_blob toy_store toy_store-Laws (codes "a") (codes "1") (codes "hello") []
      blob_is_set

keys_differ : key (codes "a") (codes "2") ≢ key (codes "a") (codes "1")
unfolding key
keys_differ = ground arith

get_blob-set_blob_other_example :
    get_blob toy_store
      (codes "a")
      (codes "1")
      (set_blob toy_store
        (codes "a")
        (codes "2")
        (codes "other")
        (set_blob toy_store (codes "a") (codes "1") (codes "hello") []).0).0
    ≡ (codes "hello", none)
get_blob-set_blob_other_example =
    get_blob-set_blob_other toy_store toy_store-Laws (codes "a") (codes "1") (codes "hello")
      (codes "a") (codes "2") (codes "other")
      (set_blob toy_store (codes "a") (codes "1") (codes "hello") []).0 keys_differ
      (set_blob-Stored toy_store toy_store-Laws (codes "a") (codes "1") (codes "hello") []
        blob_is_set)
