-- ===== src/Tests/Chunks.antt =====
-- The list of chunks by age, and the assembler: runs, and the theorems at concrete stores.
use spongix.Base.{ℕ, ◌≡◌, refl, [], ◌∷◌, Bytes, codes, Option, some, arith}
use spongix.Desync.{Index}
use spongix.Assembler.{new_assembler, copy_all, copied, stopped, wrong_length}
use spongix.Assembler.Concatenated.{concatenated, stored_size}
use spongix.Assembler.Copies.{copy_all-concatenated}
use spongix.Lru.{ChunkStat, Lru, add, search_index, is_older, insert_at}
use spongix.Lru.Insert.{insert_sorted, insert_at-insert_sorted}
use spongix.Lru.Add.{Inv, Adds, add-Adds}

abbrev chunk : Bytes → ℕ → ℕ → ChunkStat
chunk id size mtime = record { id = id; size = size; mtime = mtime }

-- Two chunks, and a limit of ten.
abbrev two_chunks : Lru
two_chunks = record {
  live = chunk (codes "b") 4 7 ∷ chunk (codes "a") 5 3 ∷ [];
  live_size = 9;
  live_size_max = 10;
  dead = [];
  dead_size = 0;
}

two_chunks-Inv : Inv two_chunks
two_chunks-Inv = record {
  sorted = omega arith;
  size_ok = refl;
  fits = omega arith;
  dead_range = omega arith;
}

-- A new chunk of age 5 lets the oldest die.
add_run :
    add (chunk (codes "c") 3 5) two_chunks
    ≡ some (record {
      live = chunk (codes "b") 4 7 ∷ chunk (codes "c") 3 5 ∷ [];
      live_size = 7;
      live_size_max = 10;
      dead = codes "a" ∷ [];
      dead_size = 5;
    })
unfolding add
add_run = refl

insert_at-insert_sorted_example :
    insert_at
      (search_index 2 (is_older (chunk (codes "c") 3 5) two_chunks.live))
      (chunk (codes "c") 3 5)
      two_chunks.live
    ≡ insert_sorted (chunk (codes "c") 3 5) two_chunks.live
insert_at-insert_sorted_example =
    insert_at-insert_sorted (chunk (codes "c") 3 5) two_chunks.live (omega arith)

add-Adds_example :
    (r : Lru) × (add (chunk (codes "c") 3 5) two_chunks ≡ some r)
    × Adds (chunk (codes "c") 3 5) two_chunks r
add-Adds_example = add-Adds (chunk (codes "c") 3 5) two_chunks two_chunks-Inv (omega arith)

-- A store in which each id is its own data.
abbrev echo : Bytes → Option Bytes
echo id = some id

abbrev two_parts : Index
two_parts = record { chunks = codes "hello " ∷ codes "world" ∷ []; index_length = 11 }

copy_run : copy_all echo echo 20 4 (new_assembler two_parts) [] ≡ copied (codes "hello world")
unfolding copy_all new_assembler
copy_run = refl

copy_short :
    copy_all echo echo 20 4 (new_assembler (record two_parts { index_length = 12 })) []
    ≡ stopped (codes "hello world") wrong_length
unfolding copy_all new_assembler
copy_short = refl

copy_all-concatenated_example :
    copy_all echo echo 20 4 (new_assembler two_parts) []
    ≡ concatenated echo echo 11 two_parts.chunks []
unfolding stored_size
copy_all-concatenated_example =
    copy_all-concatenated echo echo 20 4 two_parts (omega arith) (omega arith) (omega arith)
