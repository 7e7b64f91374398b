-- ===== src/Assembler/Copies.antt =====
-- Reading an index to its end, through buffers of any size, gives its chunks one after the other.
use spongix.Base.{
  ℕ, zero, suc, drop_end, drop_next, null-true, length-pos, length-drop_lt, ◌+◌, ◌^◌, ◌<◌, ◌≡◌,
  refl, sym, ap, ◌∙◌, true, false, List, [], ◌∷◌, ◌++◌, Option, none, some, Bytes, length,
  get_elem?, take, drop, null, leb, arith, Bool-cases, inl, inr, length-append, take-append-drop,
  append_assoc, append-nil,
}
use spongix.Desync.{Index}
use spongix.Assembler.Concatenated.{
  data_then, data_size, chunk_then, chunk_size, concatenated, stored_size,
}
use spongix.Assembler.{
  Assembler, new_assembler, wrap, read, copy_all, copy_step, hand_out, at_end, load_data,
  load_chunk,
}

-- The counters agree with what was read and handed out.
record Counts (a : Assembler) (out : Bytes) : Type 0 where
  wrote : a.wrote_bytes ≡ length out
  took : a.read_bytes ≡ length out + length a.unread

module _ {Chunk : Type 0} (get_chunk : Bytes → Option Chunk)
    (chunk_data : Chunk → Option Bytes) where
  abbrev rest : Assembler → List Bytes
  rest a = drop a.idx a.index.chunks

  abbrev pub size : List Bytes → ℕ
  size = stored_size get_chunk chunk_data

  -- The claim at a state, for a fuel.
  abbrev Copies : ℕ → ℕ → Assembler → Bytes → Type 0
  Copies fuel n a out =
      copy_all get_chunk chunk_data fuel n a out
      ≡ concatenated get_chunk chunk_data a.index.index_length (rest a) (out ++ a.unread)

  read-unread :
      (n : ℕ) (a : Assembler) → null a.unread ≡ false → read get_chunk chunk_data n a ≡ hand_out n a
  unfolding read
  read-unread n a e = rw e

  read-end :
      (n : ℕ) (a : Assembler)
      → null a.unread ≡ true
      → leb (length a.index.chunks) a.idx ≡ true
      → read get_chunk chunk_data n a ≡ (a, at_end a)
  unfolding read
  read-end n a e h = rw (e, h)

  read-chunk :
      (n : ℕ) (a : Assembler) (id : Bytes)
      → null a.unread ≡ true
      → leb (length a.index.chunks) a.idx ≡ false
      → get_elem? a.index.chunks a.idx ≡ some id
      → read get_chunk chunk_data n a ≡ load_chunk get_chunk chunk_data n a (get_chunk id)
  unfolding read
  read-chunk n a id e h g = rw (e, h, g)

  Copies-end :
      (fuel n : ℕ) (a : Assembler) (out : Bytes)
      → Counts a out
      → null a.unread ≡ true
      → leb (length a.index.chunks) a.idx ≡ true
      → Copies (suc fuel) n a out
  unfolding copy_all concatenated
  Copies-end fuel n a out c e h =
      let u = null-true a.unread e in
      rw
        (
          read-end n a e h,
          drop_end a.index.chunks a.idx (ground arith),
          u,
          append-nil out,
          c.wrote,
          c.took,
          u,
        )
        (ground arith)

  -- One round hands out what a chunk, or the rest of one, gives.
  Counts-hand_out :
      (n : ℕ) (a : Assembler) (out : Bytes)
      → Counts a out
      → length out + length a.unread < 2 ^ 64
      → Counts (hand_out n a).0 (out ++ take n a.unread)
  Counts-hand_out n a out c range =
      let split = ap length (take-append-drop n a.unread) in
      let parts = length-append (take n a.unread) (drop n a.unread) in
      record {
        wrote = omega (arith, c.wrote, length-append out (take n a.unread));
        took = omega (arith, c.took, length-append out (take n a.unread));
      }

  -- What remains to be read: the fuel that it takes, less one.
  abbrev work : Assembler → ℕ
  work a = length a.unread + length (rest a) + size (rest a)

  module _ (fuel n : ℕ) (pos : 0 < n) where
    -- What the rounds that are left do, for the induction.
    abbrev Later : Type 0
    Later =
        (a : Assembler) (out : Bytes)
        → Counts a out
        → length out + length a.unread + size (rest a) < 2 ^ 64
        → work a < fuel
        → Copies fuel n a out

    Copies-unread :
        (a : Assembler) (out : Bytes)
        → Later
        → Counts a out
        → length out + length a.unread + size (rest a) < 2 ^ 64
        → work a < suc fuel
        → null a.unread ≡ false
        → Copies (suc fuel) n a out
    unfolding copy_all
    Copies-unread a out later c range f more =
        let split = ap length (take-append-drop n a.unread) in
        let parts = length-append (take n a.unread) (drop n a.unread) in
        rw (read-unread n a more) (
          later (hand_out n a).0 (out ++ take n a.unread) (Counts-hand_out n a out c (omega arith))
            (omega (arith, length-append out (take n a.unread)))
            (omega (arith, length-drop_lt n a.unread pos (length-pos a.unread more)))
          ∙ rw (append_assoc out (take n a.unread) (drop n a.unread), take-append-drop n a.unread))

    copies_data :
        (a : Assembler) (out : Bytes) (o : Option Bytes)
        → Later
        → Counts a out
        → length out + (data_size o + size (drop (suc a.idx) a.index.chunks)) < 2 ^ 64
        → data_size o
            + length (drop (suc a.idx) a.index.chunks)
            + size (drop (suc a.idx) a.index.chunks)
          < fuel
        → a.unread ≡ []
        → copy_step
            (copy_all get_chunk chunk_data fuel n)
            out
            (load_data get_chunk chunk_data n a o)
          ≡ data_then
              (concatenated get_chunk chunk_data a.index.index_length
                (drop (suc a.idx) a.index.chunks))
              out
              o
    copies_data a out none later c range f e = refl
    copies_data a out (some bytes) later c range f e =
        let i : a.idx + 1 ≡ suc a.idx = omega arith in
        let loaded : Assembler = record a {
          idx = suc a.idx;
          unread = a.unread ++ bytes;
          read_bytes = wrap (a.read_bytes + length bytes);
        } in
        let none_before = ap length e in
        let both = length-append a.unread bytes in
        let split = ap length (take-append-drop n loaded.unread) in
        let parts = length-append (take n loaded.unread) (drop n loaded.unread) in
        let c' : Counts loaded out = record { wrote = c.wrote; took = omega (arith, c.took) } in
        rw i (
          later (hand_out n loaded).0 (out ++ take n loaded.unread)
            (Counts-hand_out n loaded out c' (omega arith))
            (omega (arith, length-append out (take n loaded.unread))) (omega arith)
          ∙ rw (
            append_assoc out (take n loaded.unread) (drop n loaded.unread),
            take-append-drop n loaded.unread,
            e,
          ))

    copies_chunk :
        (a : Assembler) (out : Bytes) (o : Option Chunk)
        → Later
        → Counts a out
        → length out + (chunk_size get_chunk chunk_data o + size (drop (suc a.idx) a.index.chunks))
          < 2 ^ 64
        → chunk_size get_chunk chunk_data o
            + length (drop (suc a.idx) a.index.chunks)
            + size (drop (suc a.idx) a.index.chunks)
          < fuel
        → a.unread ≡ []
        → copy_step
            (copy_all get_chunk chunk_data fuel n)
            out
            (load_chunk get_chunk chunk_data n a o)
          ≡ chunk_then get_chunk chunk_data
              (concatenated get_chunk chunk_data a.index.index_length
                (drop (suc a.idx) a.index.chunks))
              out
              o
    copies_chunk a out none later c range f e = refl
    copies_chunk a out (some chunk) later c range f e =
        copies_data a out (chunk_data chunk) later c range f e

    Copies-next :
        (a : Assembler) (out id : Bytes)
        → Later
        → Counts a out
        → length out + length a.unread + size (rest a) < 2 ^ 64
        → work a < suc fuel
        → null a.unread ≡ true
        → leb (length a.index.chunks) a.idx ≡ false
        → get_elem? a.index.chunks a.idx ≡ some id
        → rest a ≡ id ∷ drop (suc a.idx) a.index.chunks
        → Copies (suc fuel) n a out
    unfolding copy_all stored_size concatenated
    Copies-next a out id later c range f e h g d =
        let u = null-true a.unread e in
        let none_before = ap length u in
        let range' = rw d at range in
        let f' = rw d at f in
        let same : out ≡ out ++ a.unread = rw u (sym (append-nil out)) in
        rw (read-chunk n a id e h g, d)
          (copies_chunk a out (get_chunk id) later c (omega arith) (omega arith) u
            ∙ ap
                (λ x.
                  chunk_then get_chunk chunk_data
                    (concatenated get_chunk chunk_data a.index.index_length
                      (drop (suc a.idx) a.index.chunks))
                    x (get_chunk id))
                same)

    Copies-step :
        Later
        → (a : Assembler) (out : Bytes) → Counts a out
        → length out + length a.unread + size (rest a) < 2 ^ 64
        → work a < suc fuel
        → Copies (suc fuel) n a out
    Copies-step later a out c range f = elim (Bool-cases (null a.unread)) [
      | inr more ↦ Copies-unread a out later c range f more
      | inl none_left ↦ elim (Bool-cases (leb (length a.index.chunks) a.idx)) [
        | inl end ↦ Copies-end fuel n a out c none_left end
        | inr next ↦
            let x = drop_next a.index.chunks a.idx (ground arith) in
            Copies-next a out x.0 later c range f none_left next x.1 x.2
      ]
    ]

  copy_all-Copies : (fuel n : ℕ) (pos : 0 < n) → Later fuel n pos
  copy_all-Copies zero n pos a out c range f = absurd (omega arith)
  copy_all-Copies (suc fuel) n pos a out c range f =
      Copies-step fuel n pos (copy_all-Copies fuel n pos) a out c range f

  -- Copying a new assembler through buffers of `n` bytes, at least one, gives the chunks of the index one
  -- after the other. It stops at the first chunk that cannot be fetched or read, with what came before it,
  -- and at the end with an error if the number of bytes is not the length of the index. As many reads are
  -- enough as the index has chunks and bytes, and one more; the bytes number less than 2^64.
  pub copy_all-concatenated :
      (fuel n : ℕ) (index : Index)
      → 0 < n
      → size index.chunks < 2 ^ 64
      → length index.chunks + size index.chunks < fuel
      → copy_all get_chunk chunk_data fuel n (new_assembler index) []
        ≡ concatenated get_chunk chunk_data index.index_length index.chunks []
  unfolding new_assembler
  copy_all-concatenated fuel n index pos range f =
      copy_all-Copies fuel n pos (new_assembler index) [] (record { wrote = refl; took = refl })
        (omega arith) (omega arith)
