-- ===== src/Lru/Walk.antt =====
-- What `gcOnce` does with the chunks that it finds: one that the store cannot read is dead, the others
-- are added.
use spongix.Base.{ℕ, ◌+◌, ◌<◌, ◌≡◌, refl, arith, ◌∙◌, Option, some}
use spongix.Lru.{ChunkStat, Lru, u64, add, add_dead}
use spongix.Lru.Add.{Inv, add-Adds, add_dead-Inv}

pub data Found : Type 0 where
  unreadable readable : ChunkStat → Found

abbrev pub visit : Found → Lru → Option Lru
visit (unreadable stat) l = some (add_dead stat l)
visit (readable stat) l = add stat l

abbrev pub stat_of : Found → ChunkStat
stat_of (unreadable stat) = stat
stat_of (readable stat) = stat

-- The limit and the chunk together are in the range of a uint64.
abbrev pub InReach : ℕ → Found → Type 0
InReach max f = max + (stat_of f).size < u64

-- A list that keeps the invariant, with this limit.
abbrev pub Kept : ℕ → Option Lru → Type 0
Kept max o = (r : Lru) × (o ≡ some r) × (Inv r × (r.live_size_max ≡ max))

pub visit-Kept :
    (f : Found) (l : Lru) (max : ℕ)
    → Inv l
    → l.live_size_max ≡ max
    → InReach max f
    → Kept max (visit f l)
visit-Kept (unreadable stat) l max inv e h =
    (add_dead stat l, refl, (add_dead-Inv stat l inv, unfold add_dead in e))
visit-Kept (readable stat) l max inv e h =
    let (r, added, a) = add-Adds stat l inv (omega arith) in (r, added, (a.inv, a.max_same ∙ e))
