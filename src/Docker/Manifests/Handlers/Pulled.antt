-- ===== src/Docker/Manifests/Handlers/Pulled.antt =====
-- Pulling a manifest whose configuration was uploaded.
use spongix.Base.{
  ◌≤◌, ◌<◌, Bytes, List, none, some, false, codes, Input, length, null, ◌≡◌, refl, ap, ◌∙◌, arith,
  subst, ◌⊎◌, inl, inr,
}
use spongix.Strings.{equal}
use spongix.Http.{Response, status_of, set_header, write_header, write_body}
use spongix.Desync.{Desync, Laws}
use spongix.Docker.Blobs.{set_blob, get_blob}
use spongix.Docker.Blobs.Stored.{set_blob-get_blob}
use spongix.Docker.Manifests.{DockerManifest, Disk, Codec}
use spongix.Docker.Manifests.Kept.{Holds}
use spongix.Docker.Manifests.History.{Fields, made, diff_ids, history_from}
use spongix.Docker.Manifests.History.Made.{
  le_cases, digests, IsHistory, history_from-IsHistory, history_from-panic,
}
use spongix.Docker.Manifests.Handlers.{
  Request, Json, described, response_of, history_answer, config_answer, blob_answer, found_answer,
  manifest_get,
}
use spongix.Docker.Manifests.Handlers.Answers.{ReadsBack, manifest_get-Holds}

module _ (disk : Disk) (codec : Codec) (dir : Bytes) (d : Desync) (json : Json) where
  -- The blob of the configuration was stored in `w`, and its `diff_ids` are the digests of these ids.
  pub record IsConfigured (r : Request) (m : DockerManifest) (ids : List Bytes) (w : d.World)
      : Type 0 where
    pub blob : Bytes
    pub before : d.World
    pub cfg : Fields
    pub not_empty : null blob ≡ false
    pub stores : set_blob d r.name m.config.digest blob before ≡ (w, none)
    pub parses : json.unmarshal_map blob ≡ some cfg
    pub lists : diff_ids cfg ≡ made (digests ids)

  found_answer-configured :
      (laws : Laws d) (r : Request) (m : DockerManifest) (ids : List Bytes) (w : d.World)
      (c : IsConfigured r m ids w)
      → r.method ≡ codes "GET"
      → found_answer d disk codec dir json r m w
        ≡ history_answer json r m (history_from json.marshal_map c.cfg (length m.layers) 0 m.layers)
  unfolding found_answer blob_answer config_answer equal
  found_answer-configured laws r m ids w c is_get =
      let same =
        subst (λ z. get_blob d r.name m.config.digest z ≡ (c.blob, none)) (ap (λ p. p.0) c.stores)
          (set_blob-get_blob d laws r.name m.config.digest c.blob c.before
            (ap (λ p. p.1) c.stores)) in
      rw (is_get, same, c.not_empty, c.parses) refl

  manifest_get-IsHistory :
      (laws : Laws d) (reads : ReadsBack codec) (r : Request) (i : Input) (m : DockerManifest)
      (ids : List Bytes) (s : disk.Files) (w : d.World)
      → r.method ≡ codes "GET"
      → codec.decode_manifest i ≡ some m
      → Holds disk codec dir r.name r.reference m s
      → (c : IsConfigured r m ids w) → length m.layers ≤ length ids
      → ((fields : Fields) → (text : Bytes) × (json.marshal_map fields ≡ some text))
      → (g : Response) × (cs : List Bytes) × (manifest_get d disk codec dir json r s w ≡ some g)
        × ((status_of g ≡ 200)
            × ((g.body ≡ json.encode_response (response_of json r m cs))
                × IsHistory json.marshal_map c.cfg ids (length m.layers) 0 cs))
  unfolding history_answer described set_header write_header write_body
  manifest_get-IsHistory laws reads r i m ids s w is_get decoded held c fits total =
      let (cs, run, all) =
        history_from-IsHistory json.marshal_map c.cfg ids (length m.layers) 0 m.layers total c.lists
          (omega arith) fits in
      (
        write_body (json.encode_response (response_of json r m cs))
            (write_header 200 (described m)),
        cs,
        manifest_get-Holds disk codec dir d json reads r i m s w decoded held
            ∙ found_answer-configured laws r m ids w c is_get
            ∙ ap (history_answer json r m) run,
        (refl, (refl, all)),
      )

  manifest_get-panic :
      (laws : Laws d) (reads : ReadsBack codec) (r : Request) (i : Input) (m : DockerManifest)
      (ids : List Bytes) (s : disk.Files) (w : d.World)
      → r.method ≡ codes "GET"
      → codec.decode_manifest i ≡ some m
      → Holds disk codec dir r.name r.reference m s
      → (c : IsConfigured r m ids w) → length ids < length m.layers
      → ((fields : Fields) → (text : Bytes) × (json.marshal_map fields ≡ some text))
      → manifest_get d disk codec dir json r s w ≡ none
  unfolding history_answer
  manifest_get-panic laws reads r i m ids s w is_get decoded held c short total =
      manifest_get-Holds disk codec dir d json reads r i m s w decoded held
      ∙ found_answer-configured laws r m ids w c is_get
      ∙ ap (history_answer json r m) (
          history_from-panic json.marshal_map c.cfg ids (length m.layers) 0 m.layers total c.lists
            (omega arith) (omega arith) short)

  -- Let the decoder read back the manifests that it made, and every map have a JSON text. A GET of
  -- a manifest that is held, and whose configuration was uploaded and has digests of SHA-256: if
  -- there is one at least for each layer, the answer is 200, and its history has one entry for each
  -- layer, in order, which names the layer and the layer behind it if there is one, and the first
  -- has the configuration; if there are fewer, the handler panics.
  pub manifest_get-IsConfigured :
      (laws : Laws d) (reads : ReadsBack codec) (r : Request) (i : Input) (m : DockerManifest)
      (ids : List Bytes) (s : disk.Files) (w : d.World)
      → r.method ≡ codes "GET"
      → codec.decode_manifest i ≡ some m
      → Holds disk codec dir r.name r.reference m s
      → (c : IsConfigured r m ids w)
      → ((fields : Fields) → (text : Bytes) × (json.marshal_map fields ≡ some text))
      → ((length m.layers ≤ length ids)
          × ((g : Response) × (cs : List Bytes) × (manifest_get d disk codec dir json r s w
                ≡ some g)
              × ((status_of g ≡ 200)
                  × ((g.body ≡ json.encode_response (response_of json r m cs))
                      × IsHistory json.marshal_map c.cfg ids (length m.layers) 0 cs))))
        ⊎ ((length ids < length m.layers) × (manifest_get d disk codec dir json r s w ≡ none))
  manifest_get-IsConfigured laws reads r i m ids s w is_get decoded held c total =
      elim (le_cases (length m.layers) (length ids)) [
        | inl fits ↦
            inl (
              fits,
              manifest_get-IsHistory laws reads r i m ids s w is_get decoded held c fits total,
            )
        | inr short ↦
            inr
              (short, manifest_get-panic laws reads r i m ids s w is_get decoded held c short total)
      ]
