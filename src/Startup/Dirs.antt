-- ===== src/Startup/Dirs.antt =====
-- The directories of the state are there after the set-up.
use spongix.Base.{
  Bytes, List, [], ◌∷◌, some, Bool, true, false, ◌≡◌, ap, subst, All, Bool-cases, inl, inr,
}
use mathlib.Core.Option.{some-injective}
use spongix.Base.Options.{bind-some}
use spongix.Strings.Clean.{join_paths}
use spongix.Startup.{Proxy, Host, unless_failed, setup_dir, setup_dirs}

-- A directory that was made is there, and making one takes none away.
pub record HostLaws (host : Host) : Type 0 where
  pub made :
      (dir : Bytes) (s s' : host.Files)
      → host.mkdir_all dir s ≡ (s', true)
      → host.stat dir s' ≡ true
  pub kept :
      (dir other : Bytes) (s : host.Files)
      → host.stat other s ≡ true
      → host.stat other (host.mkdir_all dir s).0 ≡ true

module _ (host : Host) (laws : HostLaws host) where
  -- The directory of this name below that of the proxy is there.
  abbrev pub HasDir : Proxy → host.Files → Bytes → Type 0
  HasDir p s path = host.stat (join_paths (p.dir ∷ path ∷ [])) s ≡ true

  unless_failed-made :
      (q : host.Files × Bool) (s : host.Files) → unless_failed host q ≡ some s → q ≡ (s, true)
  unless_failed-made (s', true) s h = ap (λ z. (z, true)) (some-injective s' s h)
  unless_failed-made (s', false) s h = cc

  setup_dir-HasDir :
      (p : Proxy) (path : Bytes) (s s' : host.Files)
      → setup_dir host p path s ≡ some s'
      → HasDir p s' path × ((other : Bytes) → HasDir p s other → HasDir p s' other)
  unfolding setup_dir
  setup_dir-HasDir p path s s' h =
      let dir = join_paths (p.dir ∷ path ∷ []) in
      elim (Bool-cases (host.stat dir s)) [
        | inl there ↦
            let same : s ≡ s' = some-injective s s' (rw there at h) in
            (
              subst (λ z. host.stat dir z ≡ true) same there,
              λ other k. subst (λ z. HasDir p z other) same k,
            )
        | inr missing ↦
            let made = unless_failed-made (host.mkdir_all dir s) s' (rw missing at h) in
            (
              laws.made dir s s' made,
              λ other k.
                  subst (λ z. HasDir p z other) (ap (λ z. z.0) made)
                    (laws.kept dir (join_paths (p.dir ∷ other ∷ [])) s k),
            )
      ]

  pub setup_dirs-HasDir :
      (p : Proxy) (paths : List Bytes) (s s' : host.Files)
      → setup_dirs host p paths s ≡ some s'
      → All (HasDir p s') paths × ((other : Bytes) → HasDir p s other → HasDir p s' other)
  unfolding setup_dirs
  setup_dirs-HasDir p [] s s' h =
      (tt, λ other k. subst (λ z. HasDir p z other) (some-injective s s' h) k)
  setup_dirs-HasDir p (path ∷ paths) s s' h =
      let (next, first, rest) =
        bind-some (setup_dir host p path s) (setup_dirs host p paths) s' h in
      let (there, keeps) = setup_dir-HasDir p path s next first in
      let (all, keeps_all) = setup_dirs-HasDir p paths next s' rest in
      ((keeps_all path there, all), λ other k. keeps_all other (keeps other k))
