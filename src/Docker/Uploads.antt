-- ===== src/Docker/Uploads.antt =====
-- upload_manager.go. The map holds pointers to uploads, which the handlers write through: an upload is an
-- address in a heap of buffers. The time of an upload is never read and is left out.
pub mod View
use spongix.Base.{ℕ, List, [], ◌∷◌, ◌++◌, Option, none, some, Bytes, length, get_elem?, set}
use spongix.Assoc.{Assoc, lookup, insert, remove}

pub record Uploads : Type 0 where
  pub heap : List Bytes
  pub uploads : Assoc ℕ

abbrev pub no_uploads : Uploads
no_uploads = record { heap = []; uploads = [] }

pub data UploadMsg : Type 0 where
  msg_new msg_get msg_del : Bytes → UploadMsg

-- The body of the loop: the new state, and the pointer that is answered (`msg_new` has no answer).
unfoldable pub upload_step : UploadMsg → Uploads → Uploads × Option ℕ
unfolding lookup insert remove
upload_step (msg_new uuid) s =
    (record s { heap = s.heap ++ [] ∷ []; uploads = insert uuid (length s.heap) s.uploads }, none)
upload_step (msg_get uuid) s = (s, lookup uuid s.uploads)
upload_step (msg_del uuid) s = (record s { uploads = remove uuid s.uploads }, none)

-- The methods of the manager.
unfoldable pub new_upload : Bytes → Uploads → Uploads
unfolding upload_step
new_upload uuid s = (upload_step (msg_new uuid) s).0

unfoldable pub get_upload : Bytes → Uploads → Uploads × Option ℕ
unfolding upload_step
get_upload uuid s = upload_step (msg_get uuid) s

-- `del` sends the message of `get`.
unfoldable pub del_upload : Bytes → Uploads → Uploads × Option ℕ
unfolding upload_step
del_upload uuid s = upload_step (msg_get uuid) s

-- The buffer behind a pointer, and `io.Copy(upload.content, …)`.
abbrev content_or : Option Bytes → Bytes
content_or none = []
content_or (some bytes) = bytes

unfoldable pub content : ℕ → Uploads → Bytes
content p s = content_or (get_elem? s.heap p)

unfoldable pub append_content : ℕ → Bytes → Uploads → Uploads
unfolding content
append_content p bytes s = record s { heap = set s.heap p (content p s ++ bytes) }
