-- ===== src/Gc/Workers/Hangs.antt =====
-- The walk can wait for ever: the workers leave after an idle second, and the send has no receiver.
use spongix.Base.{ℕ, Bytes, List, [], ◌∷◌, ◌++◌, ◌≡◌, refl, sym, ◌∙◌, ◌≢◌, All, All-append_right}
use spongix.Desync.{Desync}
use spongix.Lru.{Lru}
use spongix.Gc.Chunks.{Entry}
use spongix.Gc.Check.{NarReader}
use spongix.Gc.Indices.{IntegrityCheck, Considered, passed_over, aborted, taken_up}
use spongix.Gc.Workers.{
  Worker, idle, gone, checking, walking, sending, System, consider_of, Step, Reach, pass, abort,
  take_up, finish, send, mark, check, leave, here, later,
}
use spongix.Gc.Workers.Inv.{taken, taken_then}
use spongix.Gc.Workers.Settled.{HasLeft}
use spongix.Gc.Workers.Progress.{IsStuck}

sending-ne-walking : {c : IntegrityCheck} {es fs : List Entry} → sending c es ≢ walking fs
sending-ne-walking e = cc

idle-ne-gone : idle ≢ gone
idle-ne-gone e = cc

checking-ne-gone : (c : IntegrityCheck) → checking c ≢ gone
checking-ne-gone c e = cc

left_middle :
    (before behind : List Worker) (v : Worker) → All HasLeft (before ++ v ∷ behind) → v ≡ gone
left_middle before behind v h = (All-append_right HasLeft before (v ∷ behind) h).0

module _ (nr : NarReader) (d : Desync) (w : d.World) (index_dir : Bytes) (now : ℕ) (lru : Lru) where
  -- No step leads on from a state in which the walk wants to send and the workers have left.
  pub stuck_stays : {s t : System} → IsStuck s → Step nr d w index_dir now lru s t → ⊥
  stuck_stays (c, es, (e, left)) (pass f h) = absurd (sending-ne-walking (sym e ∙ f))
  stuck_stays (c, es, (e, left)) (abort f h) = absurd (sending-ne-walking (sym e ∙ f))
  stuck_stays (c, es, (e, left)) (take_up f h) = absurd (sending-ne-walking (sym e ∙ f))
  stuck_stays (c, es, (e, left)) (finish f) = absurd (sending-ne-walking (sym e ∙ f))
  stuck_stays (c, es, (e, left)) (send before behind f g) =
      absurd (idle-ne-gone (left_middle before behind idle (rw g at left)))
  stuck_stays (c, es, (e, left)) (mark f) = cc
  stuck_stays (c, es, (e, left)) (check c' before behind g) =
      absurd (checking-ne-gone c' (left_middle before behind (checking c') (rw g at left)))
  stuck_stays (c, es, (e, left)) (leave before behind g) =
      absurd (idle-ne-gone (left_middle before behind idle (rw g at left)))

  all_left :
      (entries : List Entry)
      → Reach nr d w index_dir now lru entries
          (record { walk = walking entries; workers = gone ∷ gone ∷ gone ∷ []; dead_indices = [] })
  all_left entries =
      later
        (later (later here (leave [] (idle ∷ idle ∷ []) refl)) (leave (gone ∷ []) (idle ∷ []) refl))
        (leave (gone ∷ gone ∷ []) [] refl)

  abbrev CanHang : List Entry → Type 0
  CanHang entries = (t : System) × Reach nr d w index_dir now lru entries t × IsStuck t

  -- The rest of the entries is given as `rest`, for the case that the first is passed over.
  considered :
      (entries : List Entry) (x : Entry) (es : List Entry) (s : System) (o : Considered)
      → Reach nr d w index_dir now lru entries s
      → s.walk ≡ walking (x ∷ es)
      → All HasLeft s.workers
      → consider_of nr d w index_dir now lru x ≡ o
      → taken_then (taken nr d w index_dir now lru es) o ≢ []
      → (Reach nr d w index_dir now lru entries (record s { walk = walking es })
          → taken nr d w index_dir now lru es ≢ []
          → CanHang entries)
      → CanHang entries
  considered entries x es s passed_over r e left h some_taken rest =
      rest (later r (pass e h)) some_taken
  considered entries x es s aborted r e left h some_taken rest = absurd (some_taken refl)
  considered entries x es s (taken_up c) r e left h some_taken rest =
      (record s { walk = sending c es }, later r (take_up e h), (c, es, (refl, left)))

  to_stuck :
      (entries es : List Entry) (s : System)
      → Reach nr d w index_dir now lru entries s
      → s.walk ≡ walking es
      → All HasLeft s.workers
      → taken nr d w index_dir now lru es ≢ []
      → CanHang entries
  unfolding taken
  to_stuck entries [] s r e left some_taken = absurd (some_taken refl)
  to_stuck entries (x ∷ es) s r e left some_taken =
      considered entries x es s (consider_of nr d w index_dir now lru x) r e left refl some_taken
        (λ r' some. to_stuck entries es (record s { walk = walking es }) r' refl left some)

  -- Whenever the walk takes up an index at all, there is a run of the walk and the workers that ends in
  -- such a state: the collector hangs.
  pub hangs :
      (entries : List Entry)
      → taken nr d w index_dir now lru entries ≢ []
      → (t : System) × Reach nr d w index_dir now lru entries t
        × (IsStuck t × ((u : System) → Step nr d w index_dir now lru t u → ⊥))
  hangs entries some_taken =
      let (t, r, stuck) =
        to_stuck entries entries _ (all_left entries) refl (refl, (refl, (refl, tt))) some_taken in
      (t, r, (stuck, λ u st. stuck_stays stuck st))
