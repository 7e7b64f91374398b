-- ===== src/Gc/Indices.antt =====
-- The walk over the indices: which of them the function takes up, and which it marks by itself.
use spongix.Base.{
  ℕ, ◌+◌, Bytes, List, [], ◌∷◌, Option, none, some, Bool, false, not, ◌||◌, codes, length, drop,
  ltb, null, if◌then◌else◌,
}
use spongix.Strings.{equal, ext}
use spongix.Desync.{Desync, Index}
use spongix.Lru.{Lru, is_dead, is_in}
use spongix.Gc.Chunks.{Entry}

-- `integrityCheck`.
pub record IntegrityCheck : Type 0 where
  pub path : Bytes
  pub index : Index

-- What the function does with an entry: it returns nil at once, returns an error, or goes on with an
-- index.
pub data Considered : Type 0 where
  passed_over aborted : Considered
  taken_up : IntegrityCheck → Considered

-- Ten minutes in nanoseconds, the unit of the times.
abbrev pub ten_minutes : ℕ
ten_minutes = 600_000_000_000

-- Whether one of the chunks is dead.
unfoldable pub any_dead : Lru → List Bytes → Bool
unfolding is_in
any_dead lru [] = false
any_dead lru (id ∷ ids) = is_dead lru id || any_dead lru ids

-- Whether the function itself stores the path as dead.
unfoldable pub marks : Lru → Index → Bool
unfolding any_dead
marks lru index = null index.chunks || any_dead lru index.chunks

module _ (d : Desync) (w : d.World) (index_dir : Bytes) (now : ℕ) where
  abbrev pub load_index : Bytes → Option Index → Considered
  load_index path none = aborted
  load_index path (some index) = taken_up (record { path = path; index = index })

  abbrev pub is_old : Entry → Bool
  is_old e = ltb e.mtime (now + ten_minutes)

  unfoldable pub consider_file : Entry → Considered
  unfolding equal ext
  consider_file e =
      if not
        (equal (ext e.path) (codes ".nar") || equal (ext e.path) (codes ".narinfo") || is_old e)
      then passed_over
      else load_index e.path (d.get_index (drop (length index_dir) e.path) w)

  unfoldable pub consider : Entry → Considered
  unfolding consider_file
  consider e = elim e.trouble [
    | some err ↦ aborted
    | none ↦ if e.is_dir then passed_over else consider_file e
  ]
