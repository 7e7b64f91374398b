-- ===== src/Tests/Manifests.antt =====
-- The manifests of the registry: files in a map, a decoder that knows one manifest, and the theorems.
use spongix.Base.{
  ◌≤◌, ◌<◌, Bytes, List, [], ◌∷◌, Option, none, some, true, false, codes, pos, if◌then◌else◌, ◌≡◌,
  ◌≢◌, refl, ap, subst, arith, Bool-cases, inl, inr, ◌⊎◌,
}
use spongix.Strings.{equal}
use spongix.Strings.Parts.{equal_iff, equal_self}
use spongix.Assoc.{Assoc, lookup, insert, lookup-insert}
use spongix.Http.{Response, status_of, sent_headers, fresh, write_header}
use spongix.Docker.Blobs.{set_blob}
use spongix.Docker.Manifests.{
  DockerManifest, DockerManifestConfig, Disk, Codec, Opened, not_opened, opened, path_error,
  err_not_exist, manifest_path,
}
use spongix.Docker.Manifests.Kept.{DiskLaws, Holds}
use spongix.Docker.Manifests.History.{
  Value, text, array, object, Fields, empty, field, value_at, diff_ids,
}
use spongix.Docker.Manifests.History.Made.{digests, IsHistory}
use spongix.Docker.Manifests.Handlers.{Request, Json, manifest_put, manifest_get, response_of}
use spongix.Docker.Manifests.Handlers.Answers.{
  ReadsBack, manifest_put-manifest_get, manifest_get-500,
}
use spongix.Docker.Manifests.Handlers.Pulled.{IsConfigured, manifest_get-IsConfigured}
use spongix.Tests.Stores.{toy_store, toy_store-Laws, cut}
use spongix.Tests.Caching.{whole}

abbrev opened_of : Option Bytes → Opened
opened_of none = not_opened path_error
opened_of (some b) = opened (whole b)

-- Directories are not kept.
abbrev disk : Disk
disk = record {
  Files = Assoc Bytes;
  mkdir_all = λ path s. (s, true);
  create = λ path s. (insert path [] s, true);
  write_file = λ path b s. (insert path b s, true);
  open_file = λ path s. opened_of (lookup path s);
}

opened_of-ne : (o : Option Bytes) → opened_of o ≢ not_opened err_not_exist
opened_of-ne none e = cc
opened_of-ne (some b) e = cc

inserted :
    (path other bytes more : Bytes) (s : Assoc Bytes)
    → path ≢ other
    → opened_of (lookup other s) ≡ opened (whole bytes)
    → opened_of (lookup other (insert path more s)) ≡ opened (whole bytes)
inserted path other bytes more s ne h =
    let differ : equal path other ≡ false = ground (arith, equal_iff path other) in
    rw (lookup-insert path other more s, differ) h

disk-DiskLaws : DiskLaws disk
disk-DiskLaws = record {
  open_errors = λ path s. opened_of-ne (lookup path s);
  written = λ path bytes s created s' made wrote.
      subst (λ z. opened_of (lookup path z) ≡ opened (whole bytes)) (ap (λ p. p.0) wrote)
        (rw (lookup-insert path path bytes created, equal_self path) refl);
  mkdir_all_keeps = λ path other bytes s h. h;
  create_keeps = λ path other bytes s ne h. inserted path other bytes [] s ne h;
  write_keeps = λ path other bytes more s ne h. inserted path other bytes more s ne h;
}

abbrev layer : Bytes → DockerManifestConfig
layer digest = record { media_type = codes "tar"; digest = digest; size = pos 1 }

-- An image with two layers.
abbrev image : DockerManifest
image = record {
  schema_version = pos 2;
  config = record { media_type = codes "json"; digest = codes "sha256:c"; size = pos 2 };
  layers = layer (codes "sha256:a") ∷ layer (codes "sha256:b") ∷ [];
}

abbrev codec : Codec
codec = record {
  decode_manifest = λ i. if equal i.content (codes "m") then some image else none;
  encode_manifest = λ m. codes "m";
}

codec-ReadsBack : ReadsBack codec
unfolding equal
codec-ReadsBack i m h = elim (Bool-cases (equal i.content (codes "m"))) [
  | inl y ↦ rw y at h
  | inr n ↦ absurd (lost (rw n at h))
]
  where
    lost : ◌≡◌ {A = Option DockerManifest} none (some m) → ⊥
    lost e = cc

abbrev cfg : List Bytes → Fields
cfg ids =
    field (codes "rootfs") (object (field (codes "diff_ids") (array (digests ids)) empty)) empty

abbrev text_of : Value → Bytes
text_of (text s) = s
text_of _ = []

-- The configuration has these ids; an entry is written as its id.
abbrev json : List Bytes → Json
json ids = record {
  unmarshal_map = λ b. some (cfg ids);
  marshal_map = λ f. some (text_of (value_at (codes "id") f));
  encode_response = λ r. r.tag;
}

abbrev request : Bytes → Bytes → Request
request method body = record {
  method = method;
  name = codes "a/b";
  reference = codes "latest";
  body = whole body;
}

abbrev files : Assoc Bytes
files = (codes "oci/a/b/latest", codes "m") ∷ []

-- The path is cleaned.
path_run :
    manifest_path disk codec (codes "./oci") (codes "a/b") (codes "latest") ≡ codes "oci/a/b/latest"
unfolding manifest_path
path_run = refl

abbrev answer_ok : Response
unfolding write_header
answer_ok = write_header 200 fresh

put_run :
    manifest_put disk codec (codes "./oci") (request (codes "PUT") (codes "m")) []
    ≡ (files, some answer_ok)
unfolding manifest_put answer_ok
put_run = refl

manifest_put-manifest_get_example :
    (m : DockerManifest) × (g : Response) × (some image ≡ some m)
    × ((manifest_get toy_store disk codec
            (codes "./oci")
            (json [])
            (request (codes "HEAD") [])
            files
            []
          ≡ some g)
        × ((status_of g ≡ 200)
            × ((lookup (codes "Content-Type") (sent_headers g) ≡ some m.config.media_type)
                × (lookup (codes "Docker-Content-Digest") (sent_headers g)
                    ≡ some m.config.digest))))
unfolding answer_ok equal
manifest_put-manifest_get_example =
    manifest_put-manifest_get disk codec (codes "./oci") toy_store (json []) disk-DiskLaws
      codec-ReadsBack (request (codes "PUT") (codes "m")) (request (codes "HEAD") []) [] files
      answer_ok [] put_run refl refl refl refl

manifest_get-500_example :
    (g : Response) × (manifest_get toy_store disk codec
        (codes "./oci")
        (json [])
        (request (codes "GET") [])
        []
        []
      ≡ some g)
    × (status_of g ≡ 500)
unfolding lookup
manifest_get-500_example =
    manifest_get-500 disk codec (codes "./oci") toy_store (json []) disk-DiskLaws
      (request (codes "GET") []) [] [] path_error refl

abbrev uploaded : toy_store.World
uploaded = (codes "a/b_sha256:c", cut (codes "{}")) ∷ []

-- The configuration of the image, with these ids.
configured :
    (ids : List Bytes)
    → IsConfigured disk codec
        (codes "./oci")
        toy_store
        (json ids)
        (request (codes "GET") [])
        image
        ids
        uploaded
unfolding set_blob insert diff_ids
configured ids = record {
  blob = codes "{}";
  before = [];
  cfg = cfg ids;
  not_empty = refl;
  stores = refl;
  parses = refl;
  lists = refl;
}

held : Holds disk codec (codes "./oci") (codes "a/b") (codes "latest") image files
unfolding lookup manifest_path
held = refl

abbrev two_ids : List Bytes
two_ids = codes "1" ∷ codes "2" ∷ []

manifest_get-IsConfigured_example :
    ((2 ≤ 2)
      × ((g : Response) × (cs : List Bytes) × (manifest_get toy_store disk codec
              (codes "./oci")
              (json two_ids)
              (request (codes "GET") [])
              files
              uploaded
            ≡ some g)
          × ((status_of g ≡ 200)
              × ((g.body ≡ codes "latest")
                  × IsHistory (json two_ids).marshal_map (cfg two_ids) two_ids 2 0 cs))))
    ⊎ ((2 < 2)
        × (manifest_get toy_store disk codec
              (codes "./oci")
              (json two_ids)
              (request (codes "GET") [])
              files
              uploaded
            ≡ none))
unfolding configured response_of equal
manifest_get-IsConfigured_example =
    manifest_get-IsConfigured disk codec (codes "./oci") toy_store (json two_ids) toy_store-Laws
      codec-ReadsBack (request (codes "GET") []) (whole (codes "m")) image two_ids files uploaded
      refl refl held (configured two_ids) (λ f. (text_of (value_at (codes "id") f), refl))

-- With one id for two layers the handler panics.
panic_run :
    manifest_get toy_store disk codec
      (codes "./oci")
      (json (codes "1" ∷ []))
      (request (codes "GET") [])
      files
      uploaded
    ≡ none
unfolding manifest_get lookup
panic_run = refl
