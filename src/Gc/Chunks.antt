-- ===== src/Gc/Chunks.antt =====
-- The walk over the chunks: the function that `gcOnce` gives to `filepath.Walk`. The walk stops at the
-- first error that the function returns.
pub mod Safe
use spongix.Base.{
  ℕ, ◌+◌, Bytes, List, [], ◌∷◌, Option, none, some, Bool, true, false, not, codes, if◌then◌else◌,
}
use spongix.Strings.{equal, ext, without_end}
use spongix.Cache.Names.{has_prefix}
use spongix.Desync.{Desync}
use spongix.Lru.{ChunkStat, Lru, new_lru}
use spongix.Lru.Walk.{Found, readable, unreadable, visit}
use spongix.Gc.Limit.{max_cache_size}

-- The error that a walk reports of a path: the value `os.ErrNotExist` itself, or any other, such as the
-- `*fs.PathError` that the functions of `os` return.
pub data WalkError : Type 0 where
  err_not_exist other_error : WalkError

-- What the walk hands to the function.
pub record Entry : Type 0 where
  pub path : Bytes
  pub trouble : Option WalkError
  pub is_dir : Bool
  pub name : Bytes
  pub size : ℕ
  pub mtime : ℕ

-- The function returned nil, an error, or panicked.
pub data Walked {ℓ} (S : Type ℓ) : Type ℓ where
  going : S → Walked S
  stopped panicked : Walked S

abbrev pub going_or_panic {ℓ} : {S : Type ℓ} → Option S → Walked S
going_or_panic none = panicked
going_or_panic (some s) = going s

infixl 5 ◌>>=◌
abbrev pub ◌>>=◌ {ℓ κ} : {S : Type ℓ} {T : Type κ} → Walked S → (S → Walked T) → Walked T
stopped >>= f = stopped
panicked >>= f = panicked
going s >>= f = f s

-- The extension of the files of chunks and the reading of ids are desync's.
pub record Ids : Type 0 where
  pub compressed_ext : Bytes
  pub chunk_id : Bytes → Option Bytes

module _ (d : Desync) (ids : Ids) (w : d.World) where
  abbrev pub found : Option d.Chunk → ChunkStat → Found
  found none stat = unreadable stat
  found (some chunk) stat = readable stat

  abbrev pub stat_of : Entry → Bytes → ChunkStat
  stat_of e id = record { id = id; size = e.size; mtime = e.mtime }

  abbrev pub add_chunk : Entry → Lru → Option Bytes → Walked Lru
  add_chunk e l none = stopped
  add_chunk e l (some id) = going_or_panic (visit (found (d.get_chunk id w) (stat_of e id)) l)

  abbrev pub add_file : Entry → Lru → Walked Lru
  add_file e l =
      if has_prefix e.name (codes ".tmp")
      then going l
      else if not (equal (ext e.name) ids.compressed_ext)
      then going l
      else add_chunk e l (ids.chunk_id (without_end e.name (ext e.name)))

  abbrev on_error : WalkError → Lru → Walked Lru
  on_error err_not_exist l = going l
  on_error other_error l = stopped

  abbrev pub visit_entry : Entry → Lru → Option WalkError → Walked Lru
  visit_entry e l (some err) = on_error err l
  visit_entry e l none = if e.is_dir then going l else add_file e l

  unfoldable pub walk_store : List Entry → Lru → Walked Lru
  unfolding has_prefix equal ext without_end
  walk_store [] l = going l
  walk_store (e ∷ es) l = visit_entry e l e.trouble >>= walk_store es

  unfoldable pub store_lru : ℕ → List Entry → Walked Lru
  unfolding walk_store max_cache_size
  store_lru cache_size entries = walk_store entries (new_lru (max_cache_size cache_size))
