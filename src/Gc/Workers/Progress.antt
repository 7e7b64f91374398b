-- ===== src/Gc/Workers/Progress.antt =====
-- Where a run can stop, and how long it can be.
use spongix.Base.{
  ℕ, suc, Bytes, ◌+◌, ◌*◌, ◌≤◌, ◌<◌, List, [], ◌∷◌, ◌++◌, ◌≡◌, refl, ap, ◌⊎◌, inl, inr, All, length,
  arith,
}
use spongix.Desync.{Desync}
use spongix.Lru.{Lru}
use spongix.Gc.Chunks.{Entry}
use spongix.Gc.Check.{NarReader}
use spongix.Gc.Indices.{IntegrityCheck, Considered, passed_over, aborted, taken_up}
use spongix.Gc.Workers.{
  Worker, idle, gone, checking, Walk, walking, sending, marking, ended, failed, System, consider_of,
  Step, Reach, pass, abort, take_up, finish, send, mark, check, leave, here, later,
}
use spongix.Gc.Workers.Settled.{HasLeft}

-- What is left to do: at most four steps of the walk and its workers for each entry.
abbrev worker_work : Worker → ℕ
worker_work idle = 1
worker_work gone = 0
worker_work (checking c) = 2

abbrev workers_work : List Worker → ℕ
workers_work [] = 0
workers_work (v ∷ workers) = worker_work v + workers_work workers

abbrev walk_work : Walk → ℕ
walk_work (walking es) = 4 * length es + 1
walk_work (sending c es) = 4 * length es + 4
walk_work (marking c es) = 4 * length es + 2
walk_work ended = 0
walk_work failed = 0

abbrev pub work : System → ℕ
work s = walk_work s.walk + workers_work s.workers

workers_work-append :
    (before behind : List Worker)
    → workers_work (before ++ behind) ≡ workers_work before + workers_work behind
workers_work-append [] behind = omega arith
workers_work-append (v ∷ before) behind = omega (arith, workers_work-append before behind)

-- The walk has come to its end and the workers have left: `gcOnce` goes on.
abbrev pub IsOver : System → Type 0
IsOver s = ((s.walk ≡ ended) ⊎ (s.walk ≡ failed)) × All HasLeft s.workers

-- The walk wants to send, and nobody will ever receive.
abbrev pub IsStuck : System → Type 0
IsStuck s =
    (c : IntegrityCheck) × (es : List Entry) × ((s.walk ≡ sending c es) × All HasLeft s.workers)

-- Either all have left, or there is one that has not.
abbrev Someone : List Worker → Type 0
Someone workers =
    (before : List Worker) × (behind : List Worker) × (v : Worker) × ((workers
        ≡ before ++ v ∷ behind)
      × ((v ≡ idle) ⊎ ((c : IntegrityCheck) × (v ≡ checking c))))

someone : (workers : List Worker) → All HasLeft workers ⊎ Someone workers
someone [] = inl tt
someone (idle ∷ workers) = inr ([], workers, idle, (refl, inl refl))
someone (checking c ∷ workers) = inr ([], workers, checking c, (refl, inr (c, refl)))
someone (gone ∷ workers) = elim (someone workers) [
  | inl left ↦ inl (refl, left)
  | inr (before, behind, v, (e, k)) ↦ inr (gone ∷ before, behind, v, (ap (◌∷◌ gone) e, k))
]

module _ (nr : NarReader) (d : Desync) (w : d.World) (index_dir : Bytes) (now : ℕ) (lru : Lru) where
  abbrev CanStep : System → Type 0
  CanStep s = (t : System) × Step nr d w index_dir now lru s t

  Step-work : {s t : System} → Step nr d w index_dir now lru s t → work t < work s
  Step-work (pass e h) = rw e (omega arith)
  Step-work (abort e h) = rw e (omega arith)
  Step-work (take_up e h) = rw e (omega arith)
  Step-work (finish e) = rw e (omega arith)
  Step-work (send {c = c} before behind e f) =
      rw (e, f)
        (omega (
          arith,
          workers_work-append before (idle ∷ behind),
          workers_work-append before (checking c ∷ behind),
        ))
  Step-work (mark e) = rw e (omega arith)
  Step-work (check c before behind f) = rw f (
      omega (
        arith,
        workers_work-append before (idle ∷ behind),
        workers_work-append before (checking c ∷ behind),
      ))
  Step-work (leave before behind f) = rw f (
      omega (
        arith,
        workers_work-append before (idle ∷ behind),
        workers_work-append before (gone ∷ behind),
      ))

  -- The number of steps of a run.
  abbrev pub steps :
      {entries : List Entry} {s : System} → Reach nr d w index_dir now lru entries s → ℕ
  steps here = 0
  steps (later r st) = suc (steps r)

  Reach-work :
      {entries : List Entry} {s : System} (r : Reach nr d w index_dir now lru entries s)
      → steps r + work s ≤ 4 * length entries + 4
  Reach-work here = omega arith
  Reach-work (later r st) = omega (arith, Reach-work r, Step-work st)

  -- No run goes on for ever: with n entries there are at most 4 n + 4 steps.
  pub steps-le :
      (entries : List Entry) {s : System} (r : Reach nr d w index_dir now lru entries s)
      → steps r ≤ 4 * length entries + 4
  steps-le entries r = omega (arith, Reach-work r)

  worker_steps : (s : System) → Someone s.workers → CanStep s
  worker_steps s (before, behind, v, (e, inl i)) = (_, leave before behind (rw i at e))
  worker_steps s (before, behind, v, (e, inr (c, k))) = (_, check c before behind (rw k at e))

  entry_step :
      (s : System) (x : Entry) (es : List Entry) (o : Considered)
      → s.walk ≡ walking (x ∷ es)
      → consider_of nr d w index_dir now lru x ≡ o
      → CanStep s
  entry_step s x es passed_over e h = (_, pass e h)
  entry_step s x es aborted e h = (_, abort e h)
  entry_step s x es (taken_up c) e h = (_, take_up e h)

  walk_steps :
      (s : System) (walk : Walk)
      → s.walk ≡ walk
      → All HasLeft s.workers
      → IsOver s ⊎ (CanStep s ⊎ IsStuck s)
  walk_steps s (walking []) e left = inr (inl (_, finish e))
  walk_steps s (walking (x ∷ es)) e left =
      inr (inl (entry_step s x es (consider_of nr d w index_dir now lru x) e refl))
  walk_steps s (sending c es) e left = inr (inr (c, es, (e, left)))
  walk_steps s (marking c es) e left = inr (inl (_, mark e))
  walk_steps s ended e left = inl (inl e, left)
  walk_steps s failed e left = inl (inr e, left)

  -- In every state the walk and the workers are through, or a step is possible, or the walk waits for a
  -- worker and all workers have left.
  pub IsOver-step_or_IsStuck : (s : System) → IsOver s ⊎ (CanStep s ⊎ IsStuck s)
  IsOver-step_or_IsStuck s = elim (someone s.workers) [
    | inl left ↦ walk_steps s s.walk refl left
    | inr k ↦ inr (inl (worker_steps s k))
  ]
