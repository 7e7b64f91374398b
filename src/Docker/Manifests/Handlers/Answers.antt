-- ===== src/Docker/Manifests/Handlers/Answers.antt =====
-- Pushing a manifest and pulling it, and the answers when the manifest or its configuration is not good.
use spongix.Base.{
  ℕ, Bytes, [], Option, none, some, false, codes, Input, ◌≡◌, ◌≢◌, refl, sym, ap, ◌∙◌, arith,
  Bool-cases, inl, inr,
}
use mathlib.Core.Option.{some-injective}
use spongix.Strings.{equal}
use spongix.Assoc.{lookup, insert}
use spongix.Http.{Response, status_of, sent_headers, fresh, set_header, write_header, write_body}
use spongix.Desync.{Desync}
use spongix.Docker.Handlers.{mime_json}
use spongix.Docker.Manifests.{
  DockerManifest, Disk, Codec, ManifestError, OpenError, err_not_exist, path_error, not_opened,
  manifest_path, manifest_step, set_manifest, get_manifest,
}
use spongix.Docker.Manifests.Kept.{DiskLaws, Holds, set_manifest-Holds, get_manifest-Holds}
use spongix.Docker.Manifests.Handlers.{
  Request, Json, invalid, set_answer, put_decoded, manifest_put, described, found_answer,
  got_answer, manifest_get,
}

-- What is encoded of a manifest that was decoded is decoded to the same manifest.
abbrev pub ReadsBack : Codec → Type 0
ReadsBack codec =
    (i : Input) (m : DockerManifest)
    → codec.decode_manifest i ≡ some m
    → codec.decode_manifest (record { content = codec.encode_manifest m; failed = false }) ≡ some m

module _ (disk : Disk) (codec : Codec) (dir : Bytes) where
  -- An answer with another status is not one with the status 200.
  other_status :
      (w a : Response) (s s' : disk.Files) (n : ℕ)
      → ◌≡◌ {A = disk.Files × Option Response} (s, some w) (s', some a)
      → status_of w ≡ n
      → n ≢ 200
      → status_of a ≢ 200
  other_status w a s s' n h same ne ok =
      ne (sym same ∙ ap status_of (some-injective w a (ap (λ z. z.1) h)) ∙ ok)

  set_answer-200 :
      (p : disk.Files × Option (Option ManifestError)) (s : disk.Files) (a : Response)
      → set_answer disk codec dir p ≡ (s, some a)
      → status_of a ≡ 200
      → p ≡ (s, some none)
  unfolding set_answer invalid write_header write_body
  set_answer-200 (s', none) s a h ok = cc
  set_answer-200 (s', some none) s a h ok = ap (λ z. (z, some none)) (ap (λ z. z.0) h)
  set_answer-200 (s', some (some e)) s a h ok =
      absurd (other_status (invalid 400 fresh) a s' s 400 h refl (omega arith) ok)

  -- A PUT that was answered with 200 wrote the manifest of its body.
  put_decoded-200 :
      (r : Request) (o : Option DockerManifest) (s s' : disk.Files) (a : Response)
      → put_decoded disk codec dir r o s ≡ (s', some a)
      → status_of a ≡ 200
      → (m : DockerManifest) × (o ≡ some m)
        × (set_manifest disk codec dir r.name r.reference m s ≡ (s', some none))
  unfolding put_decoded invalid write_header write_body set_header
  put_decoded-200 r none s s' a h ok = absurd (
      other_status (invalid 400 (set_header (codes "Content-Type") mime_json fresh)) a s s' 400 h
        refl (omega arith) ok)
  put_decoded-200 r (some m) s s' a h ok = elim (Bool-cases (equal m.config.digest [])) [
    | inl y ↦ absurd (other_status (invalid 400 fresh) a s s' 400 (rw y at h) refl (omega arith) ok)
    | inr n ↦ (
      m,
      refl,
      set_answer-200 (set_manifest disk codec dir r.name r.reference m s) s' a (rw n at h) ok,
    )
  ]

  pub manifest_put-Holds :
      (laws : DiskLaws disk) (r : Request) (s s' : disk.Files) (a : Response)
      → manifest_put disk codec dir r s ≡ (s', some a)
      → status_of a ≡ 200
      → (m : DockerManifest) × (codec.decode_manifest r.body ≡ some m)
        × Holds disk codec dir r.name r.reference m s'
  unfolding manifest_put
  manifest_put-Holds laws r s s' a h ok =
      let (m, decoded, set) = put_decoded-200 r (codec.decode_manifest r.body) s s' a h ok in
      (m, decoded, set_manifest-Holds disk codec dir laws r.name r.reference m s s' set)

  module _ (d : Desync) (json : Json) where
    pub manifest_get-Holds :
        (reads : ReadsBack codec) (r : Request) (i : Input) (m : DockerManifest) (s : disk.Files)
        (w : d.World)
        → codec.decode_manifest i ≡ some m
        → Holds disk codec dir r.name r.reference m s
        → manifest_get d disk codec dir json r s w ≡ found_answer d disk codec dir json r m w
    unfolding manifest_get got_answer
    manifest_get-Holds reads r i m s w decoded held =
        rw (get_manifest-Holds disk codec dir r.name r.reference m s (reads i m decoded) held) refl

    -- Let the decoder read back the manifests that it made. After a PUT that was answered with 200,
    -- a HEAD for the same name and reference is answered with 200 and the media type and the digest
    -- of the manifest in the body of the PUT.
    pub manifest_put-manifest_get :
        (laws : DiskLaws disk) (reads : ReadsBack codec) (put head : Request) (s s' : disk.Files)
        (a : Response) (w : d.World)
        → manifest_put disk codec dir put s ≡ (s', some a)
        → status_of a ≡ 200
        → head.method ≡ codes "HEAD"
        → head.name ≡ put.name
        → head.reference ≡ put.reference
        → (m : DockerManifest) × (g : Response) × (codec.decode_manifest put.body ≡ some m)
          × ((manifest_get d disk codec dir json head s' w ≡ some g)
              × ((status_of g ≡ 200)
                  × ((lookup (codes "Content-Type") (sent_headers g) ≡ some m.config.media_type)
                      × (lookup (codes "Docker-Content-Digest") (sent_headers g)
                          ≡ some m.config.digest))))
    unfolding found_answer described set_header write_header lookup insert equal
    manifest_put-manifest_get laws reads put head s s' a w h ok is_head same_name same_reference =
        let (m, decoded, held) = manifest_put-Holds laws put s s' a h ok in
        let held' : Holds disk codec dir head.name head.reference m s' =
          rw (same_name, same_reference) held in
        (
          m,
          write_header 200 (described m),
          decoded,
          (
            manifest_get-Holds reads head put.body m s' w decoded held' ∙ rw is_head refl,
            (refl, (refl, refl)),
          ),
        )

    -- Whatever the error of opening the file of a manifest is, a missing file too, GET and HEAD are
    -- answered with 500, and never with 404.
    pub manifest_get-500 :
        (laws : DiskLaws disk) (r : Request) (s : disk.Files) (w : d.World) (e : OpenError)
        → disk.open_file (manifest_path disk codec dir r.name r.reference) s ≡ not_opened e
        → (g : Response) × (manifest_get d disk codec dir json r s w ≡ some g) × (status_of g ≡ 500)
    unfolding manifest_get got_answer get_manifest manifest_step write_header
    manifest_get-500 laws r s w err_not_exist h =
        absurd (laws.open_errors (manifest_path disk codec dir r.name r.reference) s h)
    manifest_get-500 laws r s w path_error h = (write_header 500 fresh, rw h refl, refl)
