-- ===== src/Docker/Manifests/Handlers.antt =====
-- docker.go: `manifestPut` and `manifestGet`. `none` is a panic. The log, and what is printed, are left
-- out; a write to the client never fails.
pub mod Answers
pub mod Pulled
use spongix.Base.{
  ℕ, zero, Bytes, List, [], ◌∷◌, ◌++◌, Option, none, some, Bool, true, false, codes, Input, length,
  map, null, if◌then◌else◌,
}
use spongix.Strings.{equal}
use spongix.Http.{Response, fresh, set_header, write_header, write_body}
use spongix.Desync.{Desync}
use spongix.Docker.Blobs.{BlobError, get_blob}
use spongix.Docker.Handlers.{mime_json}
use spongix.Docker.Manifests.{
  DockerManifest, DockerManifestConfig, Disk, Codec, ManifestError, set_manifest, get_manifest,
}
use spongix.Docker.Manifests.History.{
  Fields, Outcome, panic, manifest_invalid, not_encoded, made, history_from,
}

pub record Request : Type 0 where
  pub method : Bytes
  pub name : Bytes
  pub reference : Bytes
  pub body : Input

pub record DockerManifestResponse : Type 0 where
  pub name : Bytes
  pub tag : Bytes
  pub architecture : Bytes
  pub fs_layers : List Bytes
  pub history : List Bytes
  pub schema_version : ℕ
  pub signatures : List Bytes

-- `json.Unmarshal` into a map, `json.Marshal` of a map, and what `Encode` writes of the answer; of the
-- layers and of the history, the answer has one string each.
pub record Json : Type 0 where
  pub unmarshal_map : Bytes → Option Fields
  pub marshal_map : Fields → Option Bytes
  pub encode_response : DockerManifestResponse → Bytes

abbrev pub invalid_text : Bytes
invalid_text = codes "{\"errors\": [{\"code\": \"MANIFEST_INVALID\"}]}"

unfoldable pub invalid : ℕ → Response → Response
unfolding write_header write_body
invalid status w = write_body invalid_text (write_header status w)

module _ (disk : Disk) (codec : Codec) (dir : Bytes) where
  -- What the error of `set` is answered with.
  unfoldable pub set_answer :
      disk.Files × Option (Option ManifestError) → disk.Files × Option Response
  unfolding write_header invalid
  set_answer (s, none) = (s, none)
  set_answer (s, some none) = (s, some (write_header 200 fresh))
  set_answer (s, some (some e)) = (s, some (invalid 400 fresh))

  unfoldable pub put_decoded :
      Request → Option DockerManifest → disk.Files → disk.Files × Option Response
  unfolding set_header invalid equal set_manifest set_answer
  put_decoded r none s = (s, some (invalid 400 (set_header (codes "Content-Type") mime_json fresh)))
  put_decoded r (some m) s =
      if equal m.config.digest []
      then (s, some (invalid 400 fresh))
      else set_answer (set_manifest disk codec dir r.name r.reference m s)

  unfoldable pub manifest_put : Request → disk.Files → disk.Files × Option Response
  unfolding put_decoded
  manifest_put r s = put_decoded r (codec.decode_manifest r.body) s

-- The headers that describe the manifest.
unfoldable pub described : DockerManifest → Response
unfolding set_header
described m = set_header (codes "Etag") (codes "\"" ++ m.config.digest ++ codes "\"") (
    set_header (codes "Docker-Distribution-Api-Version") (codes "registry/2.0") (
      set_header (codes "Docker-Content-Digest") m.config.digest
        (set_header (codes "Content-Type") m.config.media_type fresh)))

module _ (json : Json) (r : Request) (m : DockerManifest) where
  unfoldable pub response_of : List Bytes → DockerManifestResponse
  response_of history = record {
    name = r.name;
    tag = r.reference;
    architecture = codes "amd64";
    fs_layers = map (λ layer. layer.digest) m.layers;
    history = history;
    schema_version = 1;
    signatures = [];
  }

  -- How the outcomes of the loop are answered.
  unfoldable pub history_answer : Outcome (List Bytes) → Option Response
  unfolding set_header write_header write_body invalid response_of described
  history_answer panic = none
  history_answer manifest_invalid =
      some (invalid 500 (set_header (codes "Content-Type") mime_json (described m)))
  history_answer not_encoded =
      some (invalid 400 (set_header (codes "Content-Type") mime_json (described m)))
  history_answer (made history) =
      some
        (write_body (json.encode_response (response_of history)) (write_header 200 (described m)))

  unfoldable pub config_answer : Option Fields → Option Response
  unfolding invalid described history_from history_answer
  config_answer none = some (invalid 400 (described m))
  config_answer (some cfg) =
      history_answer (history_from json.marshal_map cfg (length m.layers) 0 m.layers)

  -- An empty blob is the nil slice.
  unfoldable pub blob_answer : Bytes × Option BlobError → Option Response
  unfolding write_header described config_answer
  blob_answer (blob, some e) = some (write_header 500 (described m))
  blob_answer (blob, none) =
      if null blob
      then some (write_header 404 (described m))
      else config_answer (json.unmarshal_map blob)

module _ (d : Desync) (disk : Disk) (codec : Codec) (dir : Bytes) (json : Json) where
  unfoldable pub found_answer : Request → DockerManifest → d.World → Option Response
  unfolding equal write_header described get_blob blob_answer
  found_answer r m w =
      if equal r.method (codes "HEAD")
      then some (write_header 200 (described m))
      else blob_answer json r m (get_blob d r.name m.config.digest w)

  unfoldable pub got_answer :
      Request → d.World → Option (Option DockerManifest × Option ManifestError) → Option Response
  unfolding write_header found_answer
  got_answer r w none = none
  got_answer r w (some (m, some e)) = some (write_header 500 fresh)
  got_answer r w (some (none, none)) = some (write_header 404 fresh)
  got_answer r w (some (some m, none)) = found_answer r m w

  unfoldable pub manifest_get : Request → disk.Files → d.World → Option Response
  unfolding get_manifest got_answer
  manifest_get r s w = got_answer r w (get_manifest disk codec dir r.name r.reference s)
