-- ===== src/Gc/Workers/Settled.antt =====
-- What the dead indices are when the walk has ended and no worker checks: the same in every order.
use spongix.Base.{
  ℕ, Bytes, List, [], ◌∷◌, Bool, true, false, ◌||◌, ◌≡◌, refl, subst, ◌↔◌, ◌⊎◌, inl, inr, In, All,
}
use spongix.Desync.{Desync}
use spongix.Lru.{Lru}
use spongix.Gc.Chunks.{Entry}
use spongix.Gc.Check.{NarReader}
use spongix.Gc.Indices.{IntegrityCheck, marks}
use spongix.Gc.Workers.{
  Worker, gone, checking, Walk, ended, System, Step, Reach, pass, abort, take_up, finish, send,
  mark, check, leave, here, later,
}
use spongix.Gc.Workers.Inv.{Inv, taken, fails, is_bad, start-Inv, walk-Inv, send-Inv}
use spongix.Gc.Workers.Keeps.{mark-Inv, check-Inv, leave-Inv}

-- The worker has left.
abbrev pub HasLeft : Worker → Type 0
HasLeft v = v ≡ gone

none_checking :
    (c : IntegrityCheck) (workers : List Worker) → All HasLeft workers → In (checking c) workers → ⊥
none_checking c [] h k = k
none_checking c (v ∷ workers) (hv, h) (inl e) = cc
none_checking c (v ∷ workers) (hv, h) (inr k) = none_checking c workers h k

module _ (nr : NarReader) (d : Desync) (w : d.World) (index_dir : Bytes) (now : ℕ) (lru : Lru) where
  Step-Inv :
      (all : List IntegrityCheck) {s t : System}
      → Step nr d w index_dir now lru s t
      → Inv nr d w index_dir now lru all s
      → Inv nr d w index_dir now lru all t
  unfolding taken
  Step-Inv all {s} (pass {es = es} e h) inv =
      walk-Inv nr d w index_dir now lru all s inv (Walk.walking es) (rw (e, h) refl)
        (rw (e, h) refl)
  Step-Inv all {s} (abort e h) inv =
      walk-Inv nr d w index_dir now lru all s inv Walk.failed (rw (e, h) refl) (rw (e, h) refl)
  Step-Inv all {s} (take_up {es = es} {c = c} e h) inv =
      walk-Inv nr d w index_dir now lru all s inv (Walk.sending c es) (rw (e, h) refl)
        (rw (e, h) refl)
  Step-Inv all {s} (finish e) inv =
      walk-Inv nr d w index_dir now lru all s inv ended (rw e refl) (rw e refl)
  Step-Inv all {s} (send {es = es} {c = c} before behind e f) inv =
      send-Inv nr d w index_dir now lru all s inv c es before behind e f
  Step-Inv all {s} (mark {es = es} {c = c} e) inv =
      mark-Inv nr d w index_dir now lru all s inv c es e
  Step-Inv all {s} (check c before behind f) inv =
      check-Inv nr d w index_dir now lru all s inv c before behind f
  Step-Inv all {s} (leave before behind f) inv =
      leave-Inv nr d w index_dir now lru all s inv before behind f

  pub Reach-Inv :
      (entries : List Entry) {s : System}
      → Reach nr d w index_dir now lru entries s
      → Inv nr d w index_dir now lru (taken nr d w index_dir now lru entries) s
  Reach-Inv entries here = start-Inv nr d w index_dir now lru entries
  Reach-Inv entries (later r st) =
      Step-Inv (taken nr d w index_dir now lru entries) st (Reach-Inv entries r)

  -- When the walk has ended without an error and the workers have left, in whatever order the steps were
  -- taken, the dead indices are exactly the paths that were taken up whose contents are broken, or that
  -- have no chunk or a dead one.
  pub Reach-dead_iff :
      (entries : List Entry) {s : System}
      → Reach nr d w index_dir now lru entries s
      → s.walk ≡ ended
      → All HasLeft s.workers
      → (p : Bytes)
      → In p s.dead_indices ↔ (
          (c : IntegrityCheck) × In c (taken nr d w index_dir now lru entries)
          × ((c.path ≡ p) × (is_bad nr d w index_dir now lru c ≡ true)))
  Reach-dead_iff entries {s} r e left p = (
    inv.sound p,
    λ (c, known, (same, bad)).
        subst (λ q. In q s.dead_indices) same
          (both c known (or-cases (fails nr d w index_dir now lru c) (marks lru c.index) bad)),
  )
    where
      inv : Inv nr d w index_dir now lru (taken nr d w index_dir now lru entries) s
      inv = Reach-Inv entries r

      or-cases : (a b : Bool) → a || b ≡ true → (a ≡ true) ⊎ (b ≡ true)
      or-cases true b h = inl refl
      or-cases false b h = inr h

      both :
          (c : IntegrityCheck)
          → In c (taken nr d w index_dir now lru entries)
          → (fails nr d w index_dir now lru c ≡ true) ⊎ (marks lru c.index ≡ true)
          → In c.path s.dead_indices
      both c known (inl f) = elim (inv.checked c known f) [
        | inl dead ↦ dead
        | inr (inl k) ↦ elim (rw e at k) [ ]
        | inr (inr k) ↦ absurd (none_checking c s.workers left k)
      ]
      both c known (inr m) = elim (inv.marked c known m) [
        | inl dead ↦ dead
        | inr k ↦ elim (rw e at k) [ ]
      ]
