-- ===== src/Tests/Collector.antt =====
-- The collector: runs, and the theorems at a small store.
use spongix.Base.{
  ℕ, suc, ap, subst, ◌+◌, ◌*◌, ◌≤◌, ◌<◌, ◌^◌, Bytes, true, false, [], ◌∷◌, none, some, ◌≡◌, ◌≢◌,
  refl, sym, ◌∙◌, ◌↔◌, codes, arith, In, inl, length,
}
use spongix.Strings.{equal}
use spongix.Strings.Parts.{equal_iff}
use spongix.Assoc.{lookup, remove, lookup-remove}
use spongix.Desync.Kept.{Stored}
use spongix.Narinfo.{ok}
use spongix.Narinfo.Marshal.{marshal}
use spongix.Narinfo.RoundTrip.{read_back}
use spongix.Lru.{new_lru}
use spongix.Assembler.{Copied, copied, stopped, running}
use spongix.Assembler.Narinfos.{assemble_narinfo, assemble_narinfo-marshal}
use spongix.Gc.Limit.{max_cache_size, max_cache_dir_portion, max_cache_size_exact}
use spongix.Gc.Chunks.{Entry, Ids, store_lru}
use spongix.Gc.Chunks.Safe.{Sound, store_lru-Sound}
use spongix.Gc.Check.{
  NarReader, NextHeader, entry, end_of_file, check_fails, check_nar_contents, unfinished,
}
use spongix.Gc.Check.Decides.{check_nar_contents-ne-unfinished}
use spongix.Gc.Indices.{IntegrityCheck, consider, marks, taken_up}
use spongix.Gc.Workers.{
  System, Reach, ended, idle, gone, here, later, take_up, send, mark, check, leave, finish, Step,
}
use spongix.Gc.Workers.Inv.{taken, is_bad}
use spongix.Gc.Workers.Settled.{Reach-dead_iff}
use spongix.Gc.Workers.Progress.{steps, steps-le, IsStuck}
use spongix.Gc.Workers.Hangs.{hangs}
use spongix.Gc.Sweep.{Removal, RemovalLaws, collected}
use spongix.Gc.Once.{GcOnce, swept, GcOnce-Stored}
use spongix.Tests.Samples.{sample}
use spongix.Tests.Narinfos.{sample-IsWritable}
use spongix.Tests.Stores.{toy_store, cut, cut-Pieces}

-- Every byte of an archive is an entry.
abbrev data_of : Copied → Bytes
data_of (copied bytes) = bytes
data_of (stopped bytes e) = bytes
data_of running = []

abbrev next_byte : Bytes → Bytes × NextHeader
next_byte [] = ([], end_of_file)
next_byte (b ∷ bytes) = (bytes, entry)

next_byte-takes : (r r' : Bytes) → next_byte r ≡ (r', entry) → length r' < length r
next_byte-takes [] r' e = cc
next_byte-takes (b ∷ bytes) r' e =
    subst (λ z. length z < suc (length bytes)) (ap (λ p. p.0) e) (omega arith)

abbrev toy_nar : NarReader
toy_nar = record {
  Reader = Bytes;
  new_reader = data_of;
  next = next_byte;
  left = length;
  takes = next_byte-takes;
}

-- One index, of an archive.
abbrev archive : toy_store.World
archive = (codes "/a.nar", cut (codes "data")) ∷ []

abbrev archive_entry : Entry
archive_entry = record {
  path = codes "/a.nar";
  trouble = none;
  is_dir = false;
  name = codes "a.nar";
  size = 7;
  mtime = 5;
}

abbrev archive_check : IntegrityCheck
archive_check = record { path = codes "/a.nar"; index = cut (codes "data") }

abbrev settled : System
settled = record { walk = ended; workers = gone ∷ gone ∷ gone ∷ []; dead_indices = [] }

considered : consider toy_store archive [] 9 archive_entry ≡ taken_up archive_check
unfolding consider lookup
considered = refl

archive_good : is_bad toy_nar toy_store archive [] 9 (new_lru 805310464) archive_check ≡ false
unfolding check_fails marks new_lru
archive_good = refl

-- The walk takes the index up, a worker checks it, and then all go.
settled-Reach :
    Reach toy_nar toy_store archive [] 9 (new_lru 805310464) (archive_entry ∷ []) settled
unfolding check_fails marks new_lru
settled-Reach =
    later
      (later
        (later
          (later
            (later
              (later
                (later (later here (take_up refl considered))
                  (send [] (idle ∷ idle ∷ []) refl refl))
                (mark refl))
              (check archive_check [] (idle ∷ idle ∷ []) refl))
            (leave [] (idle ∷ idle ∷ []) refl))
          (leave (gone ∷ []) (idle ∷ []) refl))
        (leave (gone ∷ gone ∷ []) [] refl))
      (finish refl)

Reach-dead_iff_example : In (codes "/a.nar") [] ↔ (
    (c : IntegrityCheck) × In c
      (taken toy_nar toy_store archive [] 9 (new_lru 805310464) (archive_entry ∷ []))
    × ((c.path ≡ codes "/a.nar")
        × (is_bad toy_nar toy_store archive [] 9 (new_lru 805310464) c ≡ true)))
Reach-dead_iff_example =
    Reach-dead_iff toy_nar toy_store archive [] 9 (new_lru 805310464) (archive_entry ∷ [])
      settled-Reach refl (refl, (refl, (refl, tt))) (codes "/a.nar")

steps-le_example :
    steps toy_nar toy_store archive [] 9 (new_lru 805310464) settled-Reach ≤ 4 * 1 + 4
steps-le_example =
    steps-le toy_nar toy_store archive [] 9 (new_lru 805310464) (archive_entry ∷ []) settled-Reach

archive-taken :
    taken toy_nar toy_store archive [] 9 (new_lru 805310464) (archive_entry ∷ [])
    ≡ archive_check ∷ []
unfolding taken consider lookup
archive-taken = refl

some_taken : taken toy_nar toy_store archive [] 9 (new_lru 805310464) (archive_entry ∷ []) ≢ []
some_taken e = let k : archive_check ∷ [] ≡ [] = sym archive-taken ∙ e in cc

hangs_example :
    (t : System) × Reach toy_nar toy_store archive [] 9 (new_lru 805310464) (archive_entry ∷ []) t
    × (IsStuck t × ((u : System) → Step toy_nar toy_store archive [] 9 (new_lru 805310464) t u → ⊥))
hangs_example =
    hangs toy_nar toy_store archive [] 9 (new_lru 805310464) (archive_entry ∷ []) some_taken

-- The files of the indices are removed by name; chunks cannot be removed.
abbrev toy_removal : Removal toy_store
toy_removal = record { remove_file = remove; remove_chunk = λ id w. (w, false) }

toy_removal-Laws : RemovalLaws toy_store toy_removal []
toy_removal-Laws = record {
  file_other = λ path name w ne. ground (arith, lookup-remove path name w, equal_iff path name);
  file_chunk = λ path id w. refl;
  chunk_other = λ id other w ne. refl;
  chunk_index = λ id name w. refl;
}

archive-Stored : Stored toy_store archive (codes "/a.nar") (codes "data")
unfolding lookup equal
archive-Stored = (cut (codes "data"), refl, cut-Pieces archive (codes "data"))

archive_known :
    In archive_check (taken toy_nar toy_store archive [] 9 (new_lru 805310464) (archive_entry ∷ []))
archive_known = rw archive-taken (inl refl)

max_cache_size_exact_example : max_cache_size 100 + max_cache_dir_portion ≡ 2 ^ 30 * 100
max_cache_size_exact_example = max_cache_size_exact 100 (omega arith) (omega arith)

-- Chunks are the files with the extension `.cacnk`.
abbrev toy_ids : Ids
toy_ids = record { compressed_ext = codes ".cacnk"; chunk_id = λ name. some name }

abbrev chunk_entry : Bytes → ℕ → Entry
chunk_entry name size = record {
  path = name;
  trouble = none;
  is_dir = false;
  name = name;
  size = size;
  mtime = size;
}

store_lru-Sound_example : Sound (max_cache_size 1) (
    store_lru toy_store toy_ids [] 1
      (chunk_entry (codes "ab.cacnk") 5 ∷ chunk_entry (codes ".tmp1") 6 ∷ []))
unfolding max_cache_size
store_lru-Sound_example =
    store_lru-Sound toy_store toy_ids [] 1
      (chunk_entry (codes "ab.cacnk") 5 ∷ chunk_entry (codes ".tmp1") 6 ∷ [])
      (omega arith, (omega arith, tt))

text_fits : length (marshal sample) < 2 ^ 64
unfolding marshal
text_fits = omega arith

assemble_narinfo-marshal_example :
    assemble_narinfo toy_store [] (cut (marshal sample)) ≡ ok (read_back sample)
assemble_narinfo-marshal_example =
    assemble_narinfo-marshal toy_store [] (cut (marshal sample)) sample sample-IsWritable
      (cut-Pieces [] (marshal sample)) refl text_fits

-- A run that finds no chunk file, and the one index.
run_of_all :
    GcOnce toy_nar toy_store toy_ids toy_removal [] 1 9 []
      (archive_entry ∷ [])
      archive
      (collected toy_store toy_removal settled (new_lru 805310464) archive)
unfolding store_lru new_lru
run_of_all = swept refl settled-Reach refl (refl, (refl, (refl, tt)))

GcOnce-Stored_example :
    Stored toy_store
      (collected toy_store toy_removal settled (new_lru 805310464) archive)
      (codes "/a.nar")
      (codes "data")
unfolding store_lru new_lru
GcOnce-Stored_example =
    GcOnce-Stored toy_nar toy_store toy_ids toy_removal [] toy_removal-Laws 1 9 []
      (archive_entry ∷ []) archive
      (collected toy_store toy_removal settled (new_lru 805310464) archive) (new_lru 805310464)
      archive_check (codes "/a.nar") (codes "data") refl archive_known refl archive_good
      archive-Stored run_of_all

check_nar_contents-ne-unfinished_example :
    check_nar_contents toy_nar toy_store archive (cut (codes "data")) ≢ unfinished
check_nar_contents-ne-unfinished_example =
    check_nar_contents-ne-unfinished toy_nar toy_store archive (cut (codes "data"))
