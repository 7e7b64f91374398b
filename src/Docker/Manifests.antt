-- ===== src/Docker/Manifests.antt =====
-- manifest_manager.go, with the types of a manifest of docker.go: the manifests of the registry, in
-- files. The file system and `encoding/json` are parameters. The manager is a goroutine that answers one
-- message at a time: a call is a step of the file system.
pub mod Kept
pub mod History
pub mod Handlers
use spongix.Base.{Bytes, List, [], ◌∷◌, Option, none, some, Bool, true, false, Input, ℤ}
use spongix.Strings.Clean.{join_paths}

pub record DockerManifestConfig : Type 0 where
  pub media_type : Bytes
  pub digest : Bytes
  pub size : ℤ

pub record DockerManifest : Type 0 where
  pub schema_version : ℤ
  pub config : DockerManifestConfig
  pub layers : List DockerManifestConfig

-- The errors of `os.Open`, as far as `==` tells them apart: `os.ErrNotExist` itself, or a `*PathError`,
-- which may wrap it.
pub data OpenError : Type 0 where
  err_not_exist path_error : OpenError

pub data Opened : Type 0 where
  not_opened : OpenError → Opened
  opened : Input → Opened

-- The file system. A file that was created is written by its path; `false` is an error.
pub record Disk : Type 1 where
  pub Files : Type 0
  pub mkdir_all : Bytes → Files → Files × Bool
  pub create : Bytes → Files → Files × Bool
  pub write_file : Bytes → Bytes → Files → Files × Bool
  pub open_file : Bytes → Files → Opened

-- `NewDecoder(r).Decode` into a manifest, and what `NewEncoder(w).Encode` writes of one.
pub record Codec : Type 0 where
  pub decode_manifest : Input → Option DockerManifest
  pub encode_manifest : DockerManifest → Bytes

pub data ManifestError : Type 0 where
  opening : OpenError → ManifestError
  decoding making_directory creating encoding : ManifestError

-- The messages: the name and the reference, and for `set` the manifest.
pub data ManifestMsg : Type 0 where
  manifest_msg_get : Bytes → Bytes → ManifestMsg
  manifest_msg_set : Bytes → Bytes → DockerManifest → ManifestMsg

-- The fields of an answer that are read.
pub record ManifestAnswer : Type 0 where
  pub manifest : Option DockerManifest
  pub err : Option ManifestError

abbrev pub failure : ManifestError → Option ManifestAnswer
failure e = some (record { manifest = none; err = some e })

abbrev pub success : Option DockerManifest → Option ManifestAnswer
success m = some (record { manifest = m; err = none })

module _ (disk : Disk) (codec : Codec) (dir : Bytes) where
  unfoldable pub manifest_path : Bytes → Bytes → Bytes
  unfolding join_paths
  manifest_path name reference = join_paths (join_paths (dir ∷ name ∷ []) ∷ reference ∷ [])

  abbrev pub decoded_answer : Option DockerManifest → Option ManifestAnswer
  decoded_answer none = failure decoding
  decoded_answer (some m) = success (some m)

  -- The answer nil is `none`.
  abbrev pub opened_answer : Opened → Option ManifestAnswer
  opened_answer (not_opened err_not_exist) = none
  opened_answer (not_opened path_error) = failure (opening path_error)
  opened_answer (opened i) = decoded_answer (codec.decode_manifest i)

  abbrev pub encoded_answer : disk.Files × Bool → disk.Files × Option ManifestAnswer
  encoded_answer (s, false) = (s, failure encoding)
  encoded_answer (s, true) = (s, success none)

  abbrev pub created_answer :
      Bytes → DockerManifest → disk.Files × Bool → disk.Files × Option ManifestAnswer
  created_answer path m (s, false) = (s, failure creating)
  created_answer path m (s, true) =
      encoded_answer (disk.write_file path (codec.encode_manifest m) s)

  abbrev pub directory_answer :
      Bytes → DockerManifest → disk.Files × Bool → disk.Files × Option ManifestAnswer
  directory_answer path m (s, false) = (s, failure making_directory)
  directory_answer path m (s, true) = created_answer path m (disk.create path s)

  -- The body of the loop.
  unfoldable pub manifest_step : ManifestMsg → disk.Files → disk.Files × Option ManifestAnswer
  unfolding manifest_path join_paths
  manifest_step (manifest_msg_get name reference) s =
      (s, opened_answer (disk.open_file (manifest_path name reference) s))
  manifest_step (manifest_msg_set name reference m) s =
      directory_answer (manifest_path name reference) m
        (disk.mkdir_all (join_paths (dir ∷ name ∷ [])) s)

  -- The fields of an answer that is nil are a panic, `none`.
  abbrev pub err_of : Option ManifestAnswer → Option (Option ManifestError)
  err_of none = none
  err_of (some a) = some a.err

  abbrev pub both_of : Option ManifestAnswer → Option (Option DockerManifest × Option ManifestError)
  both_of none = none
  both_of (some a) = some (a.manifest, a.err)

  -- The methods of the manager.
  unfoldable pub set_manifest :
      Bytes → Bytes → DockerManifest → disk.Files → disk.Files × Option (Option ManifestError)
  unfolding manifest_step
  set_manifest name reference m s =
      let (s', a) = manifest_step (manifest_msg_set name reference m) s in (s', err_of a)

  unfoldable pub get_manifest :
      Bytes → Bytes → disk.Files → Option (Option DockerManifest × Option ManifestError)
  unfolding manifest_step
  get_manifest name reference s = both_of (manifest_step (manifest_msg_get name reference) s).1
