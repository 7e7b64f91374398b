-- ===== src/Startup/Ready.antt =====
-- A proxy that was set up.
use spongix.Base.{
  [], ◌∷◌, Option, some, Bool, true, false, codes, null, ◌≡◌, refl, sym, ap, ◌∙◌, subst, All,
  Bool-cases, inl, inr,
}
use mathlib.Core.Option.{some-injective}
use spongix.Base.Options.{◌>>=◌, bind-some}
use spongix.Strings.Clean.{join_paths}
use spongix.Keys.{Loaded, loaded, refused, load_nix_private_keys, load_nix_public_keys}
use spongix.Narinfo.Signatures.{Keys}
use spongix.Startup.Dirs.{HostLaws, HasDir, setup_dirs-HasDir}
use spongix.Startup.{
  Proxy, Host, state_dirs, setup_dirs, with_stores, setup_desync, unless_refused, setup_keys,
  with_s3, setup_s3, setup,
}

module _ (host : Host) (laws : HostLaws host) where
  -- What the set-up leaves: every directory of the state, the local store and its index, the keys of the
  -- files and of the texts; the index of the bucket is as it was.
  pub record IsReady (p : Proxy) (s : host.Files) (p' : Proxy) : Type 0 where
    pub dirs : All (HasDir host laws p s) state_dirs
    pub local_store : p'.local_store ≡ true
    pub local_index : p'.local_index ≡ true
    pub s3_index : p'.s3_index ≡ p.s3_index
    pub secret_keys :
        load_nix_private_keys host.decode host.read_file p.secret_key_files ≡ loaded p'.secret_keys
    pub trusted_keys :
        load_nix_public_keys host.decode p.trusted_public_keys ≡ loaded p'.trusted_keys
    pub substituters : p'.substituters ≡ p.substituters

  with_stores-made :
      (p p' : Proxy) (store index : Bool)
      → with_stores host p store index ≡ some p'
      → record p { local_store = true; local_index = true } ≡ p'
  with_stores-made p p' false index h = cc
  with_stores-made p p' true false h = cc
  with_stores-made p p' true true h =
      some-injective (record p { local_store = true; local_index = true }) p' h

  with_s3-kept :
      (p p' : Proxy) (parsed made : Bool)
      → with_s3 host p parsed made ≡ some p'
      → record p { s3_store = true } ≡ p'
  with_s3-kept p p' false made h = cc
  with_s3-kept p p' true false h = cc
  with_s3-kept p p' true true h = some-injective (record p { s3_store = true }) p' h

  -- The bucket changes one flag.
  setup_s3-kept :
      (p p' : Proxy) → setup_s3 host p ≡ some p' → record p { s3_store = p'.s3_store } ≡ p'
  unfolding setup_s3
  setup_s3-kept p p' h = elim (Bool-cases (null p.bucket_url)) [
    | inl y ↦ as_it_was (some-injective p p' (rw y at h))
    | inr n ↦ elim (Bool-cases (null p.bucket_region)) [
      | inl y ↦ as_it_was (some-injective p p' (rw (n, y) at h))
      | inr n' ↦ with_flag (
          with_s3-kept p p' (host.parses p.bucket_url)
            (host.new_s3_store p.bucket_url p.bucket_region) (rw (n, n') at h))
    ]
  ]
    where
      as_it_was : p ≡ p' → record p { s3_store = p'.s3_store } ≡ p'
      as_it_was e = subst (λ q. record p { s3_store = q.s3_store } ≡ q) e refl

      with_flag : record p { s3_store = true } ≡ p' → record p { s3_store = p'.s3_store } ≡ p'
      with_flag e = subst (λ q. record p { s3_store = q.s3_store } ≡ q) e refl

  unless_refused-loaded :
      (o : Loaded Keys) (keys : Keys) → unless_refused host o ≡ some keys → o ≡ loaded keys
  unless_refused-loaded (loaded k) keys h = ap loaded (some-injective k keys h)
  unless_refused-loaded (refused e) keys h = cc

  setup_desync-made :
      (p p' : Proxy) (s s' : host.Files)
      → setup_desync host p s ≡ some (s', p')
      → All (HasDir host laws p s') state_dirs
        × (record p { local_store = true; local_index = true } ≡ p')
  unfolding setup_desync
  setup_desync-made p p' s s' h =
      let stores : host.Files → Option Proxy = λ z.
        with_stores host p (host.new_local_store (join_paths (p.dir ∷ codes "store" ∷ [])) z)
          (host.new_local_index_store (join_paths (p.dir ∷ codes "index" ∷ [])) z) in
      let (next, dirs, rest) =
        bind-some (setup_dirs host p state_dirs s) (λ z. stores z >>= λ q. some (z, q)) (s', p')
          h in
      let (q, made, last) = bind-some (stores next) (λ q. some (next, q)) (s', p') rest in
      let same = some-injective (next, q) (s', p') last in
      (
        subst (λ z. All (HasDir host laws p z) state_dirs) (ap (λ z. z.0) same)
            (setup_dirs-HasDir host laws p state_dirs s next dirs).0,
        with_stores-made p q (host.new_local_store (join_paths (p.dir ∷ codes "store" ∷ [])) next)
              (host.new_local_index_store (join_paths (p.dir ∷ codes "index" ∷ [])) next) made
            ∙ ap (λ z. z.1) same,
      )

  setup_keys-made :
      (p p' : Proxy)
      → setup_keys host p ≡ some p'
      → (record p { secret_keys = p'.secret_keys; trusted_keys = p'.trusted_keys } ≡ p')
        × ((load_nix_private_keys host.decode host.read_file p.secret_key_files
              ≡ loaded p'.secret_keys)
            × (load_nix_public_keys host.decode p.trusted_public_keys ≡ loaded p'.trusted_keys))
  unfolding setup_keys
  setup_keys-made p p' h =
      let secrets = load_nix_private_keys host.decode host.read_file p.secret_key_files in
      let publics = load_nix_public_keys host.decode p.trusted_public_keys in
      let (secret, a, rest) =
        bind-some (unless_refused host secrets)
          (λ secret. unless_refused host publics >>= λ trusted.
            some (record p { secret_keys = secret; trusted_keys = trusted }))
          p' h in
      let (trusted, b, last) =
        bind-some (unless_refused host publics)
          (λ trusted. some (record p { secret_keys = secret; trusted_keys = trusted })) p' rest in
      let same =
        some-injective (record p { secret_keys = secret; trusted_keys = trusted }) p' last in
      (
        subst (λ q. record p { secret_keys = q.secret_keys; trusted_keys = q.trusted_keys } ≡ q)
            same refl,
        (
          unless_refused-loaded secrets secret a ∙ ap (λ q. loaded q.secret_keys) same,
          unless_refused-loaded publics trusted b ∙ ap (λ q. loaded q.trusted_keys) same,
        ),
      )

  -- The three parts together.
  parts-IsReady :
      (p p1 p2 p' : Proxy) (s : host.Files) (flag : Bool)
      → All (HasDir host laws p s) state_dirs
      → record p { local_store = true; local_index = true } ≡ p1
      → record p1 { secret_keys = p2.secret_keys; trusted_keys = p2.trusted_keys } ≡ p2
      → load_nix_private_keys host.decode host.read_file p1.secret_key_files ≡ loaded p2.secret_keys
      → load_nix_public_keys host.decode p1.trusted_public_keys ≡ loaded p2.trusted_keys
      → record p2 { s3_store = flag } ≡ p'
      → IsReady p s p'
  parts-IsReady p p1 p2 p' s flag dirs e1 e2 secret trusted e3 = record {
    dirs = dirs;
    local_store =
        sym (ap (λ q. q.local_store) e3)
        ∙ sym (ap (λ q. q.local_store) e2)
        ∙ sym (ap (λ q. q.local_store) e1);
    local_index =
        sym (ap (λ q. q.local_index) e3)
        ∙ sym (ap (λ q. q.local_index) e2)
        ∙ sym (ap (λ q. q.local_index) e1);
    s3_index =
        sym (ap (λ q. q.s3_index) e3)
        ∙ sym (ap (λ q. q.s3_index) e2)
        ∙ sym (ap (λ q. q.s3_index) e1);
    secret_keys =
        ap (λ q. load_nix_private_keys host.decode host.read_file q.secret_key_files) e1
        ∙ secret
        ∙ ap (λ q. loaded q.secret_keys) e3;
    trusted_keys =
        ap (λ q. load_nix_public_keys host.decode q.trusted_public_keys) e1
        ∙ trusted
        ∙ ap (λ q. loaded q.trusted_keys) e3;
    substituters =
        sym (ap (λ q. q.substituters) e3)
        ∙ sym (ap (λ q. q.substituters) e2)
        ∙ sym (ap (λ q. q.substituters) e1);
  }

  -- If the program gets through its set-up, every directory of its state is there, the local store and its
  -- index are made, the keys are those of the files and of the texts that it was given, and the
  -- substituters and the index of the bucket are as they were.
  pub setup-IsReady :
      (p p' : Proxy) (s s' : host.Files) → setup host p s ≡ some (s', p') → IsReady p s' p'
  unfolding setup
  setup-IsReady p p' s s' h =
      let ((s1, p1), stored, rest) =
        bind-some (setup_desync host p s)
          (λ made.
            setup_keys host made.1 >>= λ keyed. setup_s3 host keyed >>= λ q. some (made.0, q))
          (s', p') h in
      let (p2, keyed, rest') =
        bind-some (setup_keys host p1) (λ keyed. setup_s3 host keyed >>= λ q. some (s1, q)) (s', p')
          rest in
      let (p3, bucket, last) = bind-some (setup_s3 host p2) (λ q. some (s1, q)) (s', p') rest' in
      let same = some-injective (s1, p3) (s', p') last in
      let (dirs, e1) = setup_desync-made p p1 s s1 stored in
      let (e2, (secret, trusted)) = setup_keys-made p1 p2 keyed in
      let e3 : record p2 { s3_store = p3.s3_store } ≡ p' =
        setup_s3-kept p2 p3 bucket ∙ ap (λ z. z.1) same in
      parts-IsReady p p1 p2 p' s' p3.s3_store
        (subst (λ z. All (HasDir host laws p z) state_dirs) (ap (λ z. z.0) same) dirs) e1 e2 secret
        trusted e3
