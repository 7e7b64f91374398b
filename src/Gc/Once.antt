-- ===== src/Gc/Once.antt =====
-- `gcOnce` as a whole: the limit, the walk over the chunks, the walk over the indices with its workers,
-- and the removals. A walk that fails ends it with nothing removed.
use spongix.Base.{ℕ, Bytes, List, ◌++◌, false, ◌≡◌, sym, ap, ◌∙◌, subst, In, All}
use spongix.Desync.{Desync}
use spongix.Desync.Kept.{Stored}
use spongix.Lru.{Lru}
use spongix.Gc.Chunks.{Entry, Ids, Walked, going, stopped, panicked, store_lru}
use spongix.Gc.Check.{NarReader}
use spongix.Gc.Indices.{IntegrityCheck}
use spongix.Gc.Workers.{System, Reach, ended, failed}
use spongix.Gc.Workers.Inv.{taken, is_bad}
use spongix.Gc.Workers.Settled.{HasLeft}
use spongix.Gc.Sweep.{Removal, RemovalLaws, collected}
use spongix.Gc.Sweep.Keeps.{collected-Stored}

module _ (nr : NarReader) (d : Desync) (ids : Ids) (rm : Removal d) (index_dir : Bytes) where
  -- One run from the state `w`, with what the two walks find; the clock stands at `now`.
  pub data GcOnce (cache_size now : ℕ) (chunks indices : List Entry) (w : d.World)
      : d.World → Type 0 where
    store_walk_failed :
        store_lru d ids w cache_size chunks ≡ stopped → GcOnce cache_size now chunks indices w w
    index_walk_failed :
        {lru : Lru} {s : System}
        → store_lru d ids w cache_size chunks ≡ going lru
        → Reach nr d w index_dir now lru indices s
        → s.walk ≡ failed
        → All HasLeft s.workers
        → GcOnce cache_size now chunks indices w w
    swept :
        {lru : Lru} {s : System}
        → store_lru d ids w cache_size chunks ≡ going lru
        → Reach nr d w index_dir now lru indices s
        → s.walk ≡ ended
        → All HasLeft s.workers
        → GcOnce cache_size now chunks indices w (collected d rm s lru w)

  going-injective : (a b : Lru) → ◌≡◌ {A = Walked Lru} (going a) (going b) → a ≡ b
  going-injective a b h = ap (λ z. lru_of z) h
    where
      lru_of : Walked Lru → Lru
      lru_of (going l) = l
      lru_of stopped = a
      lru_of panicked = a

  -- However a run of the collector ends, an index that the second walk takes up and that is good, by its
  -- contents and by the chunks that the first walk let live, is stored with its data as before.
  pub GcOnce-Stored :
      (laws : RemovalLaws d rm index_dir) (cache_size now : ℕ) (chunks indices : List Entry)
      (w w' : d.World) (lru : Lru) (c : IntegrityCheck) (name bytes : Bytes)
      → store_lru d ids w cache_size chunks ≡ going lru
      → In c (taken nr d w index_dir now lru indices)
      → c.path ≡ index_dir ++ name
      → is_bad nr d w index_dir now lru c ≡ false
      → Stored d w name bytes
      → GcOnce cache_size now chunks indices w w'
      → Stored d w' name bytes
  GcOnce-Stored laws cache_size now chunks indices w w' lru c name bytes walked known at good held
        (store_walk_failed h) =
      held
  GcOnce-Stored laws cache_size now chunks indices w w' lru c name bytes walked known at good held
        (index_walk_failed h r over left) =
      held
  GcOnce-Stored laws cache_size now chunks indices w w' lru c name bytes walked known at good held
        (swept {lru = l} {s = s} h r over left) =
      let same : lru ≡ l = going-injective lru l (sym walked ∙ h) in
      collected-Stored d rm index_dir laws nr w now l indices s r over left c name bytes
        (subst (λ z. In c (taken nr d w index_dir now z indices)) same known) at
        (subst (λ z. is_bad nr d w index_dir now z c ≡ false) same good) held
