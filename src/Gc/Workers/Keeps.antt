-- ===== src/Gc/Workers/Keeps.antt =====
-- Every step keeps the invariant of the dead indices.
use spongix.Base.{
  ℕ, Bytes, List, ◌∷◌, ◌++◌, Bool, true, ◌||◌, ◌≡◌, refl, sym, subst, ◌⊎◌, inl, inr, In, arith,
}
use spongix.Desync.{Desync}
use spongix.Lru.{Lru}
use spongix.Gc.Chunks.{Entry}
use spongix.Gc.Check.{NarReader}
use spongix.Gc.Indices.{IntegrityCheck, marks}
use spongix.Gc.Workers.{Worker, idle, gone, checking, walking, marking, System, store_if}
use spongix.Gc.Workers.Inv.{
  Inv, taken, fails, to_send, In-replace, In-middle, In-store_if, In-store_if_old, In-store_if_new,
}

or-left : (a b : Bool) → a ≡ true → a || b ≡ true
or-left a b h = ground arith

or-right : (a b : Bool) → b ≡ true → a || b ≡ true
or-right a b h = ground arith

module _ (nr : NarReader) (d : Desync) (w : d.World) (index_dir : Bytes) (now : ℕ) (lru : Lru)
    (all : List IntegrityCheck) (s : System) (inv : Inv nr d w index_dir now lru all s) where
  abbrev failed_check : IntegrityCheck → Bool
  failed_check = fails nr d w index_dir now lru

  pub mark-Inv :
      (c : IntegrityCheck) (es : List Entry)
      → s.walk ≡ marking c es
      → Inv nr d w index_dir now lru all (record s {
        walk = walking es;
        dead_indices = store_if (marks lru c.index) c.path s.dead_indices;
      })
  mark-Inv c es e = record {
    known_send = λ a h. inv.known_send a (rw e h);
    known_mark = λ a h. inv.known_mark a (rw e (inr h));
    known_check = inv.known_check;
    checked = λ a h g. elim (inv.checked a h g) [
      | inl dead ↦ inl (In-store_if_old (marks lru c.index) a.path c.path s.dead_indices dead)
      | inr k ↦ inr (rw e at k)
    ];
    marked = λ a h g. elim (inv.marked a h g) [
      | inl dead ↦ inl (In-store_if_old (marks lru c.index) a.path c.path s.dead_indices dead)
      | inr k ↦ now_marked a g (rw e at k)
    ];
    sound = λ p h. elim (In-store_if (marks lru c.index) p c.path s.dead_indices h) [
      | inl (same, m) ↦ (
        c,
        inv.known_mark c (rw e (inl refl)),
        (sym same, or-right (failed_check c) (marks lru c.index) m),
      )
      | inr k ↦ inv.sound p k
    ];
  }
    where
      now_marked :
          (a : IntegrityCheck)
          → marks lru a.index ≡ true
          → In a (c ∷ taken nr d w index_dir now lru es)
          → In a.path (store_if (marks lru c.index) c.path s.dead_indices)
            ⊎ In a (taken nr d w index_dir now lru es)
      now_marked a g (inl same) = inl (
          rw same (
            In-store_if_new (marks lru c.index) c.path s.dead_indices
              (subst (λ z. marks lru z.index ≡ true) same g)))
      now_marked a g (inr k) = inr k

  pub check-Inv :
      (c : IntegrityCheck) (before behind : List Worker)
      → s.workers ≡ before ++ checking c ∷ behind
      → Inv nr d w index_dir now lru all (record s {
        workers = before ++ idle ∷ behind;
        dead_indices = store_if (failed_check c) c.path s.dead_indices;
      })
  check-Inv c before behind f = record {
    known_send = inv.known_send;
    known_mark = inv.known_mark;
    known_check = λ a h. elim (In-replace (checking a) idle (checking c) before behind h) [
      | inl same ↦ cc
      | inr k ↦ inv.known_check a (rw f k)
    ];
    checked = λ a h g. elim (inv.checked a h g) [
      | inl dead ↦ inl (In-store_if_old (failed_check c) a.path c.path s.dead_indices dead)
      | inr (inl k) ↦ inr (inl k)
      | inr (inr k) ↦ now_checked a g (rw f at k)
    ];
    marked = λ a h g. elim (inv.marked a h g) [
      | inl dead ↦ inl (In-store_if_old (failed_check c) a.path c.path s.dead_indices dead)
      | inr k ↦ inr k
    ];
    sound = λ p h. elim (In-store_if (failed_check c) p c.path s.dead_indices h) [
      | inl (same, m) ↦ (
        c,
        inv.known_check c (rw f (In-middle (checking c) before behind)),
        (sym same, or-left (failed_check c) (marks lru c.index) m),
      )
      | inr k ↦ inv.sound p k
    ];
  }
    where
      checking-inj : (a b : IntegrityCheck) → checking a ≡ checking b → a ≡ b
      checking-inj a b same = cc

      now_checked :
          (a : IntegrityCheck)
          → failed_check a ≡ true
          → In (checking a) (before ++ checking c ∷ behind)
          → In a.path (store_if (failed_check c) c.path s.dead_indices)
            ⊎ (In a (to_send nr d w index_dir now lru s.walk)
                ⊎ In (checking a) (before ++ idle ∷ behind))
      now_checked a g k = elim (In-replace (checking a) (checking c) idle before behind k) [
        | inl same ↦ inl (
            rw (checking-inj a c same) (
              In-store_if_new (failed_check c) c.path s.dead_indices
                (subst (λ z. failed_check z ≡ true) (checking-inj a c same) g)))
        | inr k' ↦ inr (inr k')
      ]

  pub leave-Inv :
      (before behind : List Worker)
      → s.workers ≡ before ++ idle ∷ behind
      → Inv nr d w index_dir now lru all (record s { workers = before ++ gone ∷ behind })
  leave-Inv before behind f = record {
    known_send = inv.known_send;
    known_mark = inv.known_mark;
    known_check = λ a h. elim (In-replace (checking a) gone idle before behind h) [
      | inl same ↦ cc
      | inr k ↦ inv.known_check a (rw f k)
    ];
    checked = λ a h g. elim (inv.checked a h g) [
      | inl dead ↦ inl dead
      | inr (inl k) ↦ inr (inl k)
      | inr (inr k) ↦ elim (In-replace (checking a) idle gone before behind (rw f at k)) [
        | inl same ↦ cc
        | inr k' ↦ inr (inr k')
      ]
    ];
    marked = inv.marked;
    sound = inv.sound;
  }
