-- ===== src/Docker/Manifests/Kept.antt =====
-- A manifest that was set is got, and none is not found.
use spongix.Base.{Bytes, [], ◌∷◌, Option, none, some, Bool, true, false, ◌≡◌, ◌≢◌, refl, ap}
use spongix.Strings.Clean.{join_paths}
use spongix.Docker.Manifests.{
  DockerManifest, Disk, Codec, err_not_exist, not_opened, opened, ManifestAnswer, manifest_path,
  manifest_step, directory_answer, created_answer, encoded_answer, set_manifest, get_manifest,
  err_of,
}

-- What the source relies on of the file system: the errors of `os.Open` are of type `*PathError`; a
-- file that was created and written is read back; and neither these nor a new directory change what is
-- read of another file.
pub record DiskLaws (disk : Disk) : Type 0 where
  pub open_errors :
      (path : Bytes) (s : disk.Files) → disk.open_file path s ≢ not_opened err_not_exist
  pub written :
      (path bytes : Bytes) (s created : disk.Files) (s' : disk.Files)
      → disk.create path s ≡ (created, true)
      → disk.write_file path bytes created ≡ (s', true)
      → disk.open_file path s' ≡ opened (record { content = bytes; failed = false })
  pub mkdir_all_keeps :
      (path other bytes : Bytes) (s : disk.Files)
      → disk.open_file other s ≡ opened (record { content = bytes; failed = false })
      → disk.open_file other (disk.mkdir_all path s).0
        ≡ opened (record { content = bytes; failed = false })
  pub create_keeps :
      (path other bytes : Bytes) (s : disk.Files)
      → path ≢ other
      → disk.open_file other s ≡ opened (record { content = bytes; failed = false })
      → disk.open_file other (disk.create path s).0
        ≡ opened (record { content = bytes; failed = false })
  pub write_keeps :
      (path other bytes more : Bytes) (s : disk.Files)
      → path ≢ other
      → disk.open_file other s ≡ opened (record { content = bytes; failed = false })
      → disk.open_file other (disk.write_file path more s).0
        ≡ opened (record { content = bytes; failed = false })

module _ (disk : Disk) (codec : Codec) (dir : Bytes) where
  -- The file of the name and the reference has the manifest.
  abbrev pub Holds : Bytes → Bytes → DockerManifest → disk.Files → Type 0
  Holds name reference m s =
      disk.open_file (manifest_path disk codec dir name reference) s
      ≡ opened (record { content = codec.encode_manifest m; failed = false })

  -- The answer of a set that did not fail, in the state `s`.
  abbrev IsWritten : disk.Files → disk.Files × Option ManifestAnswer → Type 0
  IsWritten s p = (p.0 ≡ s) × (err_of disk codec dir p.1 ≡ some none)

  encoded-IsWritten :
      (p : disk.Files × Bool) (s : disk.Files)
      → IsWritten s (encoded_answer disk codec dir p)
      → p ≡ (s, true)
  encoded-IsWritten (s', true) s (e, _) = ap (λ z. (z, true)) e
  encoded-IsWritten (s', false) s (_, e) = cc

  created-IsWritten :
      (laws : DiskLaws disk) (path : Bytes) (m : DockerManifest) (before s : disk.Files)
      (p : disk.Files × Bool)
      → disk.create path before ≡ p
      → IsWritten s (created_answer disk codec dir path m p)
      → disk.open_file path s
        ≡ opened (record { content = codec.encode_manifest m; failed = false })
  created-IsWritten laws path m before s (created, true) same h =
      laws.written path (codec.encode_manifest m) before created s same
        (encoded-IsWritten (disk.write_file path (codec.encode_manifest m) created) s h)
  created-IsWritten laws path m before s (created, false) same (_, e) = cc

  directory-IsWritten :
      (laws : DiskLaws disk) (path : Bytes) (m : DockerManifest) (s : disk.Files)
      (p : disk.Files × Bool)
      → IsWritten s (directory_answer disk codec dir path m p)
      → disk.open_file path s
        ≡ opened (record { content = codec.encode_manifest m; failed = false })
  directory-IsWritten laws path m s (made, true) h =
      created-IsWritten laws path m made s (disk.create path made) refl h
  directory-IsWritten laws path m s (made, false) (_, e) = cc

  pub set_manifest-Holds :
      (laws : DiskLaws disk) (name reference : Bytes) (m : DockerManifest) (s s' : disk.Files)
      → set_manifest disk codec dir name reference m s ≡ (s', some none)
      → Holds name reference m s'
  unfolding set_manifest manifest_step
  set_manifest-Holds laws name reference m s s' h =
      directory-IsWritten laws (manifest_path disk codec dir name reference) m s'
        (disk.mkdir_all (join_paths (dir ∷ name ∷ [])) s) (ap (λ p. p.0) h, ap (λ p. p.1) h)

  -- The file of another path is read as before.
  abbrev Reads : Bytes → Bytes → disk.Files → Type 0
  Reads other bytes s = disk.open_file other s ≡ opened (record { content = bytes; failed = false })

  encoded-Reads :
      (other bytes : Bytes) (p : disk.Files × Bool)
      → Reads other bytes p.0
      → Reads other bytes (encoded_answer disk codec dir p).0
  encoded-Reads other bytes (s, true) h = h
  encoded-Reads other bytes (s, false) h = h

  created-Reads :
      (laws : DiskLaws disk) (path other bytes : Bytes) (m : DockerManifest) (p : disk.Files × Bool)
      → path ≢ other
      → Reads other bytes p.0
      → Reads other bytes (created_answer disk codec dir path m p).0
  created-Reads laws path other bytes m (s, true) ne h =
      encoded-Reads other bytes (disk.write_file path (codec.encode_manifest m) s)
        (laws.write_keeps path other bytes (codec.encode_manifest m) s ne h)
  created-Reads laws path other bytes m (s, false) ne h = h

  directory-Reads :
      (laws : DiskLaws disk) (path other bytes : Bytes) (m : DockerManifest) (p : disk.Files × Bool)
      → path ≢ other
      → Reads other bytes p.0
      → Reads other bytes (directory_answer disk codec dir path m p).0
  directory-Reads laws path other bytes m (s, true) ne h =
      created-Reads laws path other bytes m (disk.create path s) ne
        (laws.create_keeps path other bytes s ne h)
  directory-Reads laws path other bytes m (s, false) ne h = h

  -- Every outcome of a set keeps the manifests of other files.
  pub set_manifest-keeps :
      (laws : DiskLaws disk) (name reference name' reference' : Bytes) (m m' : DockerManifest)
      (s : disk.Files)
      → manifest_path disk codec dir name reference ≢ manifest_path disk codec dir name' reference'
      → Holds name' reference' m' s
      → Holds name' reference' m' (set_manifest disk codec dir name reference m s).0
  unfolding set_manifest manifest_step
  set_manifest-keeps laws name reference name' reference' m m' s ne h =
      let dir' = join_paths (dir ∷ name ∷ []) in
      let other = manifest_path disk codec dir name' reference' in
      directory-Reads laws (manifest_path disk codec dir name reference) other
        (codec.encode_manifest m') m (disk.mkdir_all dir' s) ne
        (laws.mkdir_all_keeps dir' other (codec.encode_manifest m') s h)

  pub get_manifest-Holds :
      (name reference : Bytes) (m : DockerManifest) (s : disk.Files)
      → codec.decode_manifest (record { content = codec.encode_manifest m; failed = false })
        ≡ some m
      → Holds name reference m s
      → get_manifest disk codec dir name reference s ≡ some (some m, none)
  unfolding get_manifest manifest_step
  get_manifest-Holds name reference m s reads h = rw (h, reads) refl

  -- A manifest that was set without an error is got with its name and reference, also after another set
  -- for a name and a reference with another path, whatever its outcome; if the manifest is one that the
  -- decoder reads back.
  pub get_manifest-set_manifest :
      (laws : DiskLaws disk) (name reference name' reference' : Bytes) (m m' : DockerManifest)
      (s s' : disk.Files)
      → codec.decode_manifest (record { content = codec.encode_manifest m; failed = false })
        ≡ some m
      → set_manifest disk codec dir name reference m s ≡ (s', some none)
      → manifest_path disk codec dir name' reference' ≢ manifest_path disk codec dir name reference
      → (get_manifest disk codec dir name reference s' ≡ some (some m, none))
        × (get_manifest disk codec dir name reference
              (set_manifest disk codec dir name' reference' m' s').0
            ≡ some (some m, none))
  get_manifest-set_manifest laws name reference name' reference' m m' s s' reads h ne =
      let held = set_manifest-Holds laws name reference m s s' h in
      (
        get_manifest-Holds name reference m s' reads held,
        get_manifest-Holds name reference m (set_manifest disk codec dir name' reference' m' s').0
            reads (set_manifest-keeps laws name' reference' name reference m' m s' ne held),
      )
