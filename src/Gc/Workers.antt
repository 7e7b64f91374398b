-- ===== src/Gc/Workers.antt =====
-- The walk over the indices and the workers, as a relation: the walk sends each index that it takes up
-- over a channel without a buffer, so that a worker must be waiting for it; a worker that waits for a
-- second leaves. Any order of steps that the channels allow is a run.
pub mod Inv
pub mod Keeps
pub mod Settled
pub mod Progress
pub mod Hangs
use spongix.Base.{ℕ, Bytes, List, [], ◌∷◌, ◌++◌, Bool, true, false, ◌||◌, ◌≡◌, if◌then◌else◌}
use spongix.Desync.{Desync, Index}
use spongix.Lru.{Lru, add_id}
use spongix.Gc.Chunks.{Entry}
use spongix.Gc.Check.{NarReader, check_fails}
use spongix.Gc.Indices.{IntegrityCheck, passed_over, aborted, taken_up, consider, marks, Considered}

pub data Worker : Type 0 where
  idle gone : Worker
  checking : IntegrityCheck → Worker

-- Where the walk stands, with the entries that are left: `sending` is before the send, `marking` behind
-- it. `ended` and `failed` wait for the workers.
pub data Walk : Type 0 where
  walking : List Entry → Walk
  sending marking : IntegrityCheck → List Entry → Walk
  ended failed : Walk

pub record System : Type 0 where
  pub walk : Walk
  pub workers : List Worker
  pub dead_indices : List Bytes

abbrev pub start : List Entry → System
start entries = record {
  walk = walking entries;
  workers = idle ∷ idle ∷ idle ∷ [];
  dead_indices = [];
}

abbrev pub store_if : Bool → Bytes → List Bytes → List Bytes
store_if b path dead = if b then add_id path dead else dead

module _ (nr : NarReader) (d : Desync) (w : d.World) (index_dir : Bytes) (now : ℕ) (lru : Lru) where
  abbrev pub consider_of : Entry → Considered
  consider_of = consider d w index_dir now

  abbrev pub fails_of : IntegrityCheck → Bool
  fails_of c = check_fails nr d w c.path c.index

  pub data Step (s : System) : System → Type 0 where
    pass :
        {e : Entry} {es : List Entry}
        → s.walk ≡ walking (e ∷ es)
        → consider_of e ≡ passed_over
        → Step s (record s { walk = walking es })
    abort :
        {e : Entry} {es : List Entry}
        → s.walk ≡ walking (e ∷ es)
        → consider_of e ≡ aborted
        → Step s (record s { walk = failed })
    take_up :
        {e : Entry} {es : List Entry} {c : IntegrityCheck}
        → s.walk ≡ walking (e ∷ es)
        → consider_of e ≡ taken_up c
        → Step s (record s { walk = sending c es })
    finish : s.walk ≡ walking [] → Step s (record s { walk = ended })
    send :
        {es : List Entry} {c : IntegrityCheck} (before behind : List Worker)
        → s.walk ≡ sending c es
        → s.workers ≡ before ++ idle ∷ behind
        → Step s (record s { walk = marking c es; workers = before ++ checking c ∷ behind })
    mark :
        {es : List Entry} {c : IntegrityCheck}
        → s.walk ≡ marking c es
        → Step s (record s {
          walk = walking es;
          dead_indices = store_if (marks lru c.index) c.path s.dead_indices;
        })
    check :
        (c : IntegrityCheck) (before behind : List Worker)
        → s.workers ≡ before ++ checking c ∷ behind
        → Step s (record s {
          workers = before ++ idle ∷ behind;
          dead_indices = store_if (fails_of c) c.path s.dead_indices;
        })
    leave :
        (before behind : List Worker)
        → s.workers ≡ before ++ idle ∷ behind
        → Step s (record s { workers = before ++ gone ∷ behind })

  pub data Reach (entries : List Entry) : System → Type 0 where
    here : Reach entries (start entries)
    later : {s t : System} → Reach entries s → Step s t → Reach entries t
