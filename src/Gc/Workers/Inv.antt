-- ===== src/Gc/Workers/Inv.antt =====
-- What holds of the dead indices in every reachable state.
use spongix.Base.{
  ℕ, Bytes, List, [], ◌∷◌, ◌++◌, Bool, true, false, ◌||◌, ◌≡◌, refl, subst, ◌⊎◌, inl, inr, In,
}
use spongix.Desync.{Desync}
use spongix.Lru.{Lru}
use spongix.Lru.Dead.{In-add_id, add_id-new, add_id-old}
use spongix.Gc.Chunks.{Entry}
use spongix.Gc.Check.{NarReader}
use spongix.Gc.Indices.{IntegrityCheck, Considered, passed_over, aborted, taken_up, marks}
use spongix.Gc.Workers.{
  Worker, idle, checking, Walk, walking, sending, marking, ended, failed, System, start, store_if,
  consider_of, fails_of,
}

-- A worker takes the place of another: who was there before is still there, or is the one replaced.
pub In-replace :
    (a old new : Worker) (before behind : List Worker)
    → In a (before ++ old ∷ behind)
    → (a ≡ old) ⊎ In a (before ++ new ∷ behind)
In-replace a old new [] behind (inl e) = inl e
In-replace a old new [] behind (inr h) = inr (inr h)
In-replace a old new (x ∷ before) behind (inl e) = inr (inl e)
In-replace a old new (x ∷ before) behind (inr h) = elim (In-replace a old new before behind h) [
  | inl e ↦ inl e
  | inr k ↦ inr (inr k)
]

pub In-middle : (a : Worker) (before behind : List Worker) → In a (before ++ a ∷ behind)
In-middle a [] behind = inl refl
In-middle a (x ∷ before) behind = inr (In-middle a before behind)

pub In-store_if_old :
    (b : Bool) (p q : Bytes) (dead : List Bytes) → In p dead → In p (store_if b q dead)
In-store_if_old true p q dead h = add_id-old p q dead h
In-store_if_old false p q dead h = h

pub In-store_if :
    (b : Bool) (p q : Bytes) (dead : List Bytes)
    → In p (store_if b q dead)
    → ((p ≡ q) × (b ≡ true)) ⊎ In p dead
In-store_if true p q dead h = elim (In-add_id p q dead h) [ inl e ↦ inl (e, refl) | inr k ↦ inr k ]
In-store_if false p q dead h = inr h

pub In-store_if_new :
    (b : Bool) (q : Bytes) (dead : List Bytes) → b ≡ true → In q (store_if b q dead)
In-store_if_new true q dead e = add_id-new q dead
In-store_if_new false q dead e = cc

abbrev pub taken_then : List IntegrityCheck → Considered → List IntegrityCheck
taken_then rest passed_over = rest
taken_then rest aborted = []
taken_then rest (taken_up c) = c ∷ rest

module _ (nr : NarReader) (d : Desync) (w : d.World) (index_dir : Bytes) (now : ℕ) (lru : Lru) where
  -- The indices that the walk takes up, in order, up to an error.
  unfoldable pub taken : List Entry → List IntegrityCheck
  taken [] = []
  taken (e ∷ es) = taken_then (taken es) (consider_of nr d w index_dir now lru e)

  -- The indices that are still to be sent, and to be marked.
  abbrev pub to_send : Walk → List IntegrityCheck
  to_send (walking es) = taken es
  to_send (sending c es) = c ∷ taken es
  to_send (marking c es) = taken es
  to_send ended = []
  to_send failed = []

  abbrev pub to_mark : Walk → List IntegrityCheck
  to_mark (walking es) = taken es
  to_mark (sending c es) = c ∷ taken es
  to_mark (marking c es) = c ∷ taken es
  to_mark ended = []
  to_mark failed = []

  abbrev pub fails : IntegrityCheck → Bool
  fails = fails_of nr d w index_dir now lru

  -- The contents of the index are broken, or it has no chunk, or one of its chunks is dead.
  abbrev pub is_bad : IntegrityCheck → Bool
  is_bad c = fails c || marks lru c.index

  pub record Inv (all : List IntegrityCheck) (s : System) : Type 0 where
    pub known_send : (c : IntegrityCheck) → In c (to_send s.walk) → In c all
    pub known_mark : (c : IntegrityCheck) → In c (to_mark s.walk) → In c all
    pub known_check : (c : IntegrityCheck) → In (checking c) s.workers → In c all
    pub checked :
        (c : IntegrityCheck)
        → In c all
        → fails c ≡ true
        → In c.path s.dead_indices ⊎ (In c (to_send s.walk) ⊎ In (checking c) s.workers)
    pub marked :
        (c : IntegrityCheck)
        → In c all
        → marks lru c.index ≡ true
        → In c.path s.dead_indices ⊎ In c (to_mark s.walk)
    pub sound :
        (p : Bytes)
        → In p s.dead_indices
        → (c : IntegrityCheck) × In c all × ((c.path ≡ p) × (is_bad c ≡ true))

  nobody : (c : IntegrityCheck) → In (checking c) (idle ∷ idle ∷ idle ∷ []) → ⊥
  nobody c (inl e) = cc
  nobody c (inr (inl e)) = cc
  nobody c (inr (inr (inl e))) = cc
  nobody c (inr (inr (inr never))) = elim never [ ]

  pub start-Inv : (entries : List Entry) → Inv (taken entries) (start entries)
  start-Inv entries = record {
    known_send = λ c h. h;
    known_mark = λ c h. h;
    known_check = λ c h. absurd (nobody c h);
    checked = λ c h e. inr (inl h);
    marked = λ c h e. inr h;
    sound = λ p h. elim h [ ];
  }

  module _ (all : List IntegrityCheck) (s : System) (inv : Inv all s) where
    -- A step of the walk that neither sends nor marks.
    pub walk-Inv :
        (walk : Walk)
        → to_send walk ≡ to_send s.walk
        → to_mark walk ≡ to_mark s.walk
        → Inv all (record s { walk = walk })
    walk-Inv walk e f = record {
      known_send = λ c h. inv.known_send c (subst (In c) e h);
      known_mark = λ c h. inv.known_mark c (subst (In c) f h);
      known_check = inv.known_check;
      checked = λ c h g. rw e (inv.checked c h g);
      marked = λ c h g. rw f (inv.marked c h g);
      sound = inv.sound;
    }

    pub send-Inv :
        (c : IntegrityCheck) (es : List Entry) (before behind : List Worker)
        → s.walk ≡ sending c es
        → s.workers ≡ before ++ idle ∷ behind
        → Inv all (record s { walk = marking c es; workers = before ++ checking c ∷ behind })
    send-Inv c es before behind e f = record {
      known_send = λ a h. inv.known_send a (rw e (inr h));
      known_mark = λ a h. inv.known_mark a (rw e h);
      known_check = λ a h. elim (In-replace (checking a) (checking c) idle before behind h) [
        | inl same ↦ inv.known_send a (rw e (inl (checking-inj a c same)))
        | inr k ↦ inv.known_check a (rw f k)
      ];
      checked = λ a h g. elim (inv.checked a h g) [
        | inl dead ↦ inl dead
        | inr (inl k) ↦ sent a (rw e at k)
        | inr (inr k) ↦ moved a (rw f at k)
      ];
      marked = λ a h g. rw e at (inv.marked a h g);
      sound = inv.sound;
    }
      where
        checking-inj : (a b : IntegrityCheck) → checking a ≡ checking b → a ≡ b
        checking-inj a b same = cc

        sent :
            (a : IntegrityCheck)
            → In a (c ∷ taken es)
            → In a.path s.dead_indices
              ⊎ (In a (taken es) ⊎ In (checking a) (before ++ checking c ∷ behind))
        sent a (inl same) = inr (inr (rw same (In-middle (checking c) before behind)))
        sent a (inr k) = inr (inl k)

        moved :
            (a : IntegrityCheck)
            → In (checking a) (before ++ idle ∷ behind)
            → In a.path s.dead_indices
              ⊎ (In a (taken es) ⊎ In (checking a) (before ++ checking c ∷ behind))
        moved a k = elim (In-replace (checking a) idle (checking c) before behind k) [
          | inl same ↦ cc
          | inr k' ↦ inr (inr k')
        ]
