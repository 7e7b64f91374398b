-- ===== src/Gc/Sweep.antt =====
-- The end of `gcOnce`: the dead indices and the dead chunks are removed, unless the walk failed. An error
-- of a removal is logged and nothing more; the removals are calls of `os` and of desync.
pub mod Keeps
use spongix.Base.{ℕ, Bytes, List, [], ◌∷◌, ◌++◌, Bool, ◌≡◌, ◌≢◌}
use spongix.Desync.{Desync}
use spongix.Lru.{Lru}
use spongix.Gc.Workers.{Walk, walking, sending, marking, ended, failed, System}

pub record Removal (d : Desync) : Type 0 where
  pub remove_file : Bytes → d.World → d.World
  pub remove_chunk : Bytes → d.World → d.World × Bool

module _ (d : Desync) (rm : Removal d) where
  -- A removal takes the one file away, or nothing. An index is the file of its name in the directory.
  pub record RemovalLaws (index_dir : Bytes) : Type 0 where
    pub file_other :
        (path name : Bytes) (w : d.World)
        → path ≢ index_dir ++ name
        → d.get_index name (rm.remove_file path w) ≡ d.get_index name w
    pub file_chunk :
        (path id : Bytes) (w : d.World) → d.get_chunk id (rm.remove_file path w) ≡ d.get_chunk id w
    pub chunk_other :
        (id other : Bytes) (w : d.World)
        → id ≢ other
        → d.get_chunk other (rm.remove_chunk id w).0 ≡ d.get_chunk other w
    pub chunk_index :
        (id name : Bytes) (w : d.World)
        → d.get_index name (rm.remove_chunk id w).0 ≡ d.get_index name w

  unfoldable pub remove_files : List Bytes → d.World → d.World
  remove_files [] w = w
  remove_files (path ∷ paths) w = remove_files paths (rm.remove_file path w)

  unfoldable pub remove_chunks : List Bytes → d.World → d.World
  remove_chunks [] w = w
  remove_chunks (id ∷ ids) w = remove_chunks ids (rm.remove_chunk id w).0

  -- What is done when the walk and the workers are through; before that, nothing.
  abbrev sweep : Walk → List Bytes → Lru → d.World → d.World
  sweep ended paths lru w = remove_chunks lru.dead (remove_files paths w)
  sweep failed paths lru w = w
  sweep (walking es) paths lru w = w
  sweep (sending c es) paths lru w = w
  sweep (marking c es) paths lru w = w

  unfoldable pub collected : System → Lru → d.World → d.World
  unfolding remove_files remove_chunks
  collected s lru w = sweep s.walk s.dead_indices lru w
