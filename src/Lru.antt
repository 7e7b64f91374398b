-- ===== src/Lru.antt =====
-- gc.go, `chunkLRU`: the chunks of the local store in order of age, with a limit on their size. Times are
-- numbers; a file's size is not negative, so it is a number too. Sums are those of uint64. The slices of
-- `live` are values: nothing else holds a part of its array. `none` is a panic.
pub mod Search
pub mod Insert
pub mod Evict
pub mod Add
pub mod Walk
pub mod Dead
pub use spongix.Base.Options.{◌>>=◌}
use spongix.Base.{
  ℕ, zero, suc, ◌+◌, ◌-◌, ◌/◌, ◌%◌, ◌^◌, Bool, true, false, List, [], ◌∷◌, ◌++◌, Option, none, some,
  Bytes, length, get_elem?, set, take, drop, ltb, ◌==◌, if◌then◌else◌,
}
use spongix.Strings.{equal}

pub record ChunkStat : Type 0 where
  pub id : Bytes
  pub size : ℕ
  pub mtime : ℕ

pub record Lru : Type 0 where
  pub live : List ChunkStat
  pub live_size : ℕ
  pub live_size_max : ℕ
  pub dead : List Bytes
  pub dead_size : ℕ

abbrev pub u64 : ℕ
u64 = 2 ^ 64

unfoldable pub new_lru : ℕ → Lru
new_lru max = record { live = []; live_size = 0; live_size_max = max; dead = []; dead_size = 0 }

-- The set of dead ids: the keys of the map, each once.
unfoldable pub is_in : Bytes → List Bytes → Bool
unfolding equal
is_in id [] = false
is_in id (d ∷ dead) = if equal d id then true else is_in id dead

unfoldable pub add_id : Bytes → List Bytes → List Bytes
unfolding is_in
add_id id dead = if is_in id dead then dead else dead ++ id ∷ []

abbrev pub is_dead : Lru → Bytes → Bool
is_dead l id = is_in id l.dead

unfoldable pub add_dead : ChunkStat → Lru → Lru
unfolding add_id
add_dead stat l = record l {
  dead = add_id stat.id l.dead;
  dead_size = (l.dead_size + stat.size) % u64;
}

-- `sort.Search`: the loop halves the range `i … j`, so as many rounds as it is long are enough.
search_loop : ℕ → ℕ → ℕ → (ℕ → Bool) → ℕ
search_loop zero i j f = i
search_loop (suc fuel) i j f =
    let h = (i + j) / 2 in
    let left = search_loop fuel i h f in
    let right = search_loop fuel (h + 1) j f in if ltb i j then (if f h then left else right) else i

unfoldable pub search_index : ℕ → (ℕ → Bool) → ℕ
unfolding search_loop
search_index n f = search_loop n 0 n f

abbrev pub older_than : ChunkStat → Option ChunkStat → Bool
older_than stat none = true
older_than stat (some other) = ltb other.mtime stat.mtime

-- `isOlder`, which `sort.Search` calls within the slice only.
unfoldable pub is_older : ChunkStat → List ChunkStat → ℕ → Bool
is_older stat live i = older_than stat (get_elem? live i)

unfoldable pub insert_at : ℕ → ChunkStat → List ChunkStat → List ChunkStat
insert_at i v live =
    if i == length live then live ++ v ∷ [] else set (take (suc i) live ++ drop i live) i v

-- The slice without its last element, and that element.
abbrev before_last : ChunkStat → Option (List ChunkStat × ChunkStat) → List ChunkStat × ChunkStat
before_last x none = ([], x)
before_last x (some (xs, last)) = (x ∷ xs, last)

unfoldable pub pop_last : List ChunkStat → Option (List ChunkStat × ChunkStat)
pop_last [] = none
pop_last (x ∷ xs) = some (before_last x (pop_last xs))

-- The body of the loop of `Add`.
abbrev die_last : Lru → Option (List ChunkStat × ChunkStat) → Option Lru
die_last l none = none
die_last l (some (rest, die)) = some (record l {
  dead = add_id die.id l.dead;
  live = rest;
  dead_size = (l.dead_size + die.size) % u64;
  live_size = (l.live_size + u64 - die.size) % u64;
})

-- A round takes one chunk away, and with none left the index is out of range: as many rounds as there
-- are chunks are enough.
unfoldable pub evict : ℕ → Lru → Option Lru
unfolding pop_last add_id
evict zero l = if ltb l.live_size_max l.live_size then none else some l
evict (suc n) l =
    let next = die_last l (pop_last l.live) >>= evict n in
    if ltb l.live_size_max l.live_size then next else some l

unfoldable pub add : ChunkStat → Lru → Option Lru
unfolding search_index is_older insert_at evict
add stat l =
    let live = insert_at (search_index (length l.live) (is_older stat l.live)) stat l.live in
    evict (length live) (record l { live = live; live_size = (l.live_size + stat.size) % u64 })
