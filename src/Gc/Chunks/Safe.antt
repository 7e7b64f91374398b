-- ===== src/Gc/Chunks/Safe.antt =====
-- The walk over the chunks does not panic, and what it leaves alive fits.
use spongix.Base.{
  ℕ, ◌+◌, ◌<◌, ◌≡◌, Bytes, List, [], ◌∷◌, Option, none, some, Bool, true, false, not, All, inl, inr,
  Option-cases, codes, if◌then◌else◌,
}
use spongix.Strings.{equal, ext, without_end}
use spongix.Cache.Names.{has_prefix}
use spongix.Desync.{Desync}
use spongix.Lru.{Lru, u64, new_lru}
use spongix.Lru.Add.{Inv, new_lru-Inv, new_lru-max}
use spongix.Lru.Walk.{Found, readable, unreadable, visit, visit-Kept, InReach}
use spongix.Gc.Limit.{max_cache_size}
use spongix.Gc.Chunks.{
  Entry, WalkError, err_not_exist, other_error, Walked, going, stopped, panicked, going_or_panic,
  ◌>>=◌, Ids, walk_store, store_lru, visit_entry, add_file, add_chunk, stat_of,
}

-- The walk stopped at an error, or goes on with a list that keeps the invariant, with this limit.
abbrev pub Sound : ℕ → Walked Lru → Type 0
Sound max (going l) = Inv l × (l.live_size_max ≡ max)
Sound max stopped = Unit
Sound max panicked = ⊥

module _ (d : Desync) (ids : Ids) (w : d.World) (max : ℕ) where
  -- The limit and the file together are in the range of a uint64.
  abbrev pub Fits : Entry → Type 0
  Fits e = max + e.size < u64

  Sound-if :
      (b : Bool) (x y : Walked Lru) → Sound max x → Sound max y → Sound max (if b then x else y)
  Sound-if true x y h k = h
  Sound-if false x y h k = k

  module _ (e : Entry) (l : Lru) (inv : Inv l) (same : l.live_size_max ≡ max) (fits : Fits e) where
    visit-Sound : (f : Found) → InReach max f → Sound max (going_or_panic (visit f l))
    visit-Sound f h = let (r, e', k) = visit-Kept f l max inv same h in rw e' k

    add_chunk-Sound : (o : Option Bytes) → Sound max (add_chunk d ids w e l o)
    add_chunk-Sound none = tt
    add_chunk-Sound (some id) = elim (Option-cases (d.get_chunk id w)) [
      | inl n ↦ rw n (visit-Sound (unreadable (stat_of d ids w e id)) fits)
      | inr (c, f) ↦ rw f (visit-Sound (readable (stat_of d ids w e id)) fits)
    ]

    add_file-Sound : Sound max (add_file d ids w e l)
    add_file-Sound =
        let chunk = add_chunk d ids w e l (ids.chunk_id (without_end e.name (ext e.name))) in
        let other = not (equal (ext e.name) ids.compressed_ext) in
        Sound-if (has_prefix e.name (codes ".tmp")) (going l) (if other then going l else chunk)
          (inv, same)
          (Sound-if other (going l) chunk (inv, same)
            (add_chunk-Sound (ids.chunk_id (without_end e.name (ext e.name)))))

    visit_entry-Sound : (o : Option WalkError) → Sound max (visit_entry d ids w e l o)
    visit_entry-Sound (some err_not_exist) = (inv, same)
    visit_entry-Sound (some other_error) = tt
    visit_entry-Sound none =
        Sound-if e.is_dir (going l) (add_file d ids w e l) (inv, same) add_file-Sound

  walk_store-Sound :
      (es : List Entry) (l : Lru)
      → Inv l
      → l.live_size_max ≡ max
      → All Fits es
      → Sound max (walk_store d ids w es l)
  unfolding walk_store
  walk_store-Sound [] l inv same h = (inv, same)
  walk_store-Sound (e ∷ es) l inv same (he, h) =
      visited (visit_entry d ids w e l e.trouble) (visit_entry-Sound e l inv same he e.trouble)
        (λ r i k. walk_store-Sound es r i k h)
    where
      visited :
          (o : Walked Lru)
          → Sound max o
          → ((r : Lru) → Inv r → r.live_size_max ≡ max → Sound max (walk_store d ids w es r))
          → Sound max (o >>= walk_store d ids w es)
      visited (going r) (i, k) rest = rest r i k
      visited stopped h rest = tt
      visited panicked h rest = h

-- Whatever files the walk over the store meets, if each and the limit together are in the range of a
-- uint64, it does not panic: it stops at an error, or leaves chunks that are sorted by age, counted right
-- and within the limit that the configured size gives.
pub store_lru-Sound :
    (d : Desync) (ids : Ids) (w : d.World) (cache_size : ℕ) (entries : List Entry)
    → All (Fits d ids w (max_cache_size cache_size)) entries
    → Sound (max_cache_size cache_size) (store_lru d ids w cache_size entries)
unfolding store_lru
store_lru-Sound d ids w cache_size entries h =
    walk_store-Sound d ids w (max_cache_size cache_size) entries
      (new_lru (max_cache_size cache_size)) (new_lru-Inv (max_cache_size cache_size))
      (new_lru-max (max_cache_size cache_size)) h
