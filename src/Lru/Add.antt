-- ===== src/Lru/Add.antt =====
-- `Add`: the chunks stay sorted and within the limit, and only the oldest die.
use spongix.Base.{
  ℕ, ◌+◌, ◌%◌, ◌≤◌, ◌<◌, ◌≡◌, arith, List, [], ◌∷◌, ◌++◌, some, refl, sym, length, subst,
  All-append_left,
}
use spongix.Lru.{ChunkStat, Lru, u64, add, add_dead, new_lru}
use spongix.Lru.Insert.{
  Sorted, total, insert_sorted, insert_at-insert_sorted, insert_sorted-Sorted, total-insert_sorted,
}
use spongix.Lru.Evict.{evict-Evicts, bury}

pub record Inv (l : Lru) : Type 0 where
  pub sorted : Sorted l.live
  pub size_ok : l.live_size ≡ total l.live
  pub fits : l.live_size ≤ l.live_size_max
  pub dead_range : l.dead_size < u64

Sorted-front : (xs ys : List ChunkStat) → Sorted (xs ++ ys) → Sorted xs
Sorted-front [] ys s = tt
Sorted-front (x ∷ xs) ys (h, s) =
    (All-append_left (λ y. y.mtime ≤ x.mtime) xs ys h, Sorted-front xs ys s)

pub new_lru-Inv : (max : ℕ) → Inv (new_lru max)
unfolding new_lru
new_lru-Inv max = record {
  sorted = tt;
  size_ok = refl;
  fits = omega arith;
  dead_range = omega arith;
}

pub new_lru-max : (max : ℕ) → (new_lru max).live_size_max ≡ max
unfolding new_lru
new_lru-max max = refl

pub add_dead-Inv : (stat : ChunkStat) (l : Lru) → Inv l → Inv (add_dead stat l)
unfolding add_dead
add_dead-Inv stat l v = record {
  sorted = v.sorted;
  size_ok = v.size_ok;
  fits = v.fits;
  dead_range = omega arith;
}

-- What `Add` does with a chunk.
pub record Adds (stat : ChunkStat) (l r : Lru) : Type 0 where
  pub victims : List ChunkStat
  pub split : r.live ++ victims ≡ insert_sorted stat l.live
  pub oldest : Sorted (r.live ++ victims)
  pub inv : Inv r
  pub max_same : r.live_size_max ≡ l.live_size_max
  pub buried : r.dead ≡ bury victims l.dead
  pub dead_ok : r.dead_size ≡ (l.dead_size + total victims) % u64
  pub needed :
      (v : ChunkStat) (vs : List ChunkStat)
      → victims ≡ v ∷ vs
      → l.live_size_max < total r.live + v.size

-- From a sorted list of the right size within the limit, and if the limit and the new chunk together are
-- in the range of a uint64, `Add` does not panic. What is left and, behind it, what died are the old
-- chunks with the new one put at its age; they are sorted, so what died is not newer than what is left.
-- What is left fits, and would not with the newest that died; the ids that died are added to the dead.
pub add-Adds :
    (stat : ChunkStat) (l : Lru)
    → Inv l
    → l.live_size_max + stat.size < u64
    → (r : Lru) × (add stat l ≡ some r) × Adds stat l r
unfolding add
add-Adds stat l v range =
    let e = insert_at-insert_sorted stat l.live v.sorted in
    let start : Lru = record l {
      live = insert_sorted stat l.live;
      live_size = (l.live_size + stat.size) % u64;
    } in
    let t = total-insert_sorted stat l.live in
    let (r, h, w) =
      evict-Evicts (length (insert_sorted stat l.live)) start (omega arith)
        (omega (arith, t, v.size_ok, v.fits)) (omega arith) v.dead_range in
    let s : Sorted (r.live ++ w.victims) =
      subst Sorted (sym w.split) (insert_sorted-Sorted stat l.live v.sorted) in
    (
      r,
      rw e h,
      record {
        victims = w.victims;
        split = w.split;
        oldest = s;
        inv = record {
          sorted = Sorted-front r.live w.victims s;
          size_ok = w.size_ok;
          fits = w.fits;
          dead_range = omega (arith, w.dead_ok);
        };
        max_same = w.max_same;
        buried = w.buried;
        dead_ok = w.dead_ok;
        needed = w.needed;
      },
    )
