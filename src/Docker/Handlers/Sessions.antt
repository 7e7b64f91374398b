-- ===== src/Docker/Handlers/Sessions.antt =====
-- A session of an upload: POST, any number of PATCH, and PUT.
use mathlib.Core.Option.{some-injective}
use spongix.Base.{
  Bytes, ℕ, List, [], ◌∷◌, ◌++◌, Option, none, some, ◌≡◌, ◌≢◌, refl, ap, ◌∙◌, arith, append_assoc,
  append-nil, Option-cases, inl, inr,
}
use spongix.Strings.Parts.{equal_iff}
use spongix.Assoc.{lookup}
use spongix.Desync.{Desync}
use spongix.Http.{status_of, set_header, write_header, write_body}
use spongix.Docker.Uploads.{Uploads, content, append_content, get_upload, del_upload}
use spongix.Docker.Uploads.View.{view, Inv, append_content-Inv, view-append, content-append_self}
use spongix.Docker.Blobs.{BlobError, set_blob}
use spongix.Docker.Handlers.{
  Request, blob_upload_patch, blob_upload_put, patch_answer, patched, put_answer, put_blob, finish,
  set_response,
}

-- The request with another body.
abbrev pub with_body : Request → Bytes → Request
with_body r bytes = record r { body = bytes }

-- One PATCH for each of the bodies.
unfoldable pub patch_all : Request → List Bytes → Uploads → Uploads
unfolding blob_upload_patch
patch_all r [] s = s
patch_all r (bytes ∷ rest) s = patch_all r rest (blob_upload_patch (with_body r bytes) s).0

abbrev pub joined : List Bytes → Bytes
joined [] = []
joined (bytes ∷ rest) = bytes ++ joined rest

-- What a registry may do with the bytes of the uploads: those of one uuid grow, the others stay.
pub record Grows (uuid bytes : Bytes) (s s' : Uploads) : Type 0 where
  pub inv : Inv s'
  pub grown : (c : Bytes) → view uuid s ≡ some c → view uuid s' ≡ some (c ++ bytes)
  pub others : (j : Bytes) → j ≢ uuid → view j s' ≡ view j s

pub view-lookup :
    (uuid c : Bytes) (s : Uploads)
    → view uuid s ≡ some c
    → (p : ℕ) × (lookup uuid s.uploads ≡ some p) × (content p s ≡ c)
view-lookup uuid c s h = elim (Option-cases (lookup uuid s.uploads)) [
  | inl e ↦ cc
  | inr (p, e) ↦ (p, e, some-injective (content p s) c (rw e at h))
]

append-Grows :
    (uuid bytes : Bytes) (p : ℕ) (s : Uploads) (inv : Inv s)
    → lookup uuid s.uploads ≡ some p
    → Grows uuid bytes s (append_content p bytes s)
append-Grows uuid bytes p s inv here = record {
  inv = append_content-Inv uuid p bytes s inv here;
  grown = λ c e.
      let (q, there, is_c) = view-lookup uuid c s e in
      ground (arith, equal_iff uuid uuid, view-append uuid p bytes s inv here uuid);
  others = λ j ne. ground (arith, equal_iff uuid j, view-append uuid p bytes s inv here j);
}

module _ (r : Request) (s : Uploads) (inv : Inv s) (c : Bytes) (here : view r.uuid s ≡ some c) where
  patch-Grows : Grows r.uuid r.body s (blob_upload_patch r s).0
  unfolding blob_upload_patch get_upload append_content patch_answer patched
  patch-Grows =
      let (p, there, is_c) = view-lookup r.uuid c s here in
      rw there (append-Grows r.uuid r.body p s inv there)

  patch-status : status_of (blob_upload_patch r s).1 ≡ 204
  unfolding blob_upload_patch get_upload write_header set_header patch_answer patched
  patch-status = let (p, there, is_c) = view-lookup r.uuid c s here in rw there refl

Grows-trans :
    (uuid a b : Bytes) (s s' s'' : Uploads) (c : Bytes)
    → view uuid s ≡ some c
    → Grows uuid a s s'
    → Grows uuid b s' s''
    → Grows uuid (a ++ b) s s''
Grows-trans uuid a b s s' s'' c here g h = record {
  inv = h.inv;
  grown = λ c' e. h.grown (c' ++ a) (g.grown c' e) ∙ ap some (append_assoc c' a b);
  others = λ j ne. h.others j ne ∙ g.others j ne;
}

-- The PATCH requests of a session append their bodies in order to the upload of their uuid, and leave
-- every other upload as it is.
pub patch_all-Grows :
    (r : Request) (bodies : List Bytes) (s : Uploads) (inv : Inv s) (c : Bytes)
    → view r.uuid s ≡ some c
    → Grows r.uuid (joined bodies) s (patch_all r bodies s)
unfolding patch_all
patch_all-Grows r [] s inv c here = record {
  inv = inv;
  grown = λ c' e. rw (append-nil c') e;
  others = λ j ne. refl;
}
patch_all-Grows r (bytes ∷ rest) s inv c here =
    let g = patch-Grows (with_body r bytes) s inv c here in
    let s' = (blob_upload_patch (with_body r bytes) s).0 in
    Grows-trans r.uuid bytes (joined rest) s s' (patch_all r rest s') c here g
      (patch_all-Grows r rest s' g.inv (c ++ bytes) (g.grown c here))

-- The status of PUT: 201, or 500 when the blob could not be set.
abbrev pub put_status : Option BlobError → ℕ
put_status none = 201
put_status (some e) = 500

module _ (d : Desync) (r : Request) (s : Uploads) (w : d.World) (inv : Inv s) (c : Bytes)
    (here : view r.uuid s ≡ some c) where
  -- A PUT appends its body to the upload and sets the blob to the bytes; the upload stays.
  put-Grows : Grows r.uuid r.body s (blob_upload_put d r (s, w)).0.0
  unfolding blob_upload_put get_upload append_content put_answer put_blob finish del_upload
  put-Grows =
      let (p, there, is_c) = view-lookup r.uuid c s here in
      rw there (append-Grows r.uuid r.body p s inv there)

  received :
      (p : ℕ)
      → lookup r.uuid s.uploads ≡ some p
      → content p s ≡ c
      → content p (append_content p r.body s) ≡ c ++ r.body
  received p there is_c =
      content-append_self r.uuid p r.body s inv there ∙ ap (λ z. z ++ r.body) is_c

  pub put-world : (blob_upload_put d r (s, w)).0.1 ≡ (set_blob d r.name r.digest (c ++ r.body) w).0
  unfolding blob_upload_put get_upload put_answer put_blob
  put-world =
      let (p, there, is_c) = view-lookup r.uuid c s here in
      rw there (ap (λ z. (set_blob d r.name r.digest z w).0) (received p there is_c))

  status-finish :
      (p : ℕ) (s' : Uploads) (e : Option BlobError)
      → status_of (finish d r p s' (set_response d e)).1 ≡ put_status e
  unfolding finish set_header write_header write_body set_response
  status-finish p s' none = refl
  status-finish p s' (some e) = refl

  pub put-status :
      status_of (blob_upload_put d r (s, w)).1
      ≡ put_status (set_blob d r.name r.digest (c ++ r.body) w).1
  unfolding blob_upload_put get_upload put_answer put_blob
  put-status =
      let (p, there, is_c) = view-lookup r.uuid c s here in
      rw there (
        status-finish p (append_content p r.body s)
          (set_blob d r.name r.digest (content p (append_content p r.body s)) w).1
        ∙ ap (λ z. put_status (set_blob d r.name r.digest z w).1) (received p there is_c))

  -- PUT answers 201 when the blob was set, and 500 when it was not. Either way the upload stays
  -- registered, with the body of the PUT appended, so that a second PUT stores these bytes again.
  pub blob_upload_put_lem :
      (status_of (blob_upload_put d r (s, w)).1
        ≡ put_status (set_blob d r.name r.digest (c ++ r.body) w).1)
      × (view r.uuid (blob_upload_put d r (s, w)).0.0 ≡ some (c ++ r.body))
  blob_upload_put_lem = (put-status, put-Grows.grown c here)
