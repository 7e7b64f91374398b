-- ===== src/Gc/Sweep/Keeps.antt =====
-- The collector takes no chunk away from an index that it leaves.
use spongix.Base.{
  ℕ, Bytes, List, [], ◌∷◌, ◌++◌, Bool, true, false, ◌||◌, Option, none, some, ◌≡◌, refl, sym, ap,
  ◌∙◌, subst, inl, inr, In, All, Option-cases, arith, length, drop, drop-append, null,
  if◌then◌else◌,
}
use mathlib.Core.Option.{some-injective}
use spongix.Desync.{Desync, Index, Pieces}
use spongix.Desync.Kept.{Stored}
use spongix.Lru.{Lru, is_in}
use spongix.Lru.Dead.{In-is_in}
use spongix.Gc.Chunks.{Entry}
use spongix.Gc.Check.{NarReader, check_fails}
use spongix.Gc.Indices.{
  IntegrityCheck, Considered, passed_over, aborted, taken_up, any_dead, marks, consider,
  consider_file, load_index,
}
use spongix.Gc.Workers.{System, Reach, ended}
use spongix.Gc.Workers.Inv.{taken, taken_then, is_bad}
use spongix.Gc.Workers.Settled.{HasLeft, Reach-dead_iff}
use spongix.Gc.Sweep.{Removal, RemovalLaws, remove_files, remove_chunks, collected}

module _ (d : Desync) (w : d.World) (index_dir : Bytes) (now : ℕ) where
  abbrev IsLoaded : IntegrityCheck → Type 0
  IsLoaded c = d.get_index (drop (length index_dir) c.path) w ≡ some c.index

  abbrev LoadedIf : Considered → Type 0
  LoadedIf passed_over = Unit
  LoadedIf aborted = Unit
  LoadedIf (taken_up c) = IsLoaded c

  load_index-LoadedIf :
      (path : Bytes) (o : Option Index)
      → d.get_index (drop (length index_dir) path) w ≡ o
      → LoadedIf (load_index d w index_dir now path o)
  load_index-LoadedIf path none e = tt
  load_index-LoadedIf path (some index) e = e

  LoadedIf-if : (b : Bool) (o : Considered) → LoadedIf o → LoadedIf (if b then passed_over else o)
  LoadedIf-if true o h = tt
  LoadedIf-if false o h = h

  consider-LoadedIf : (x : Entry) → LoadedIf (consider d w index_dir now x)
  unfolding consider consider_file
  consider-LoadedIf x = elim (Option-cases x.trouble) [
    | inl e ↦ rw e (LoadedIf-if x.is_dir _ (LoadedIf-if _ _ (load_index-LoadedIf x.path _ refl)))
    | inr (t, e) ↦ rw e tt
  ]

true-ne-false : true ≡ false → ⊥
true-ne-false e = cc

or-false_right : (a b : Bool) → a || b ≡ false → b ≡ false
or-false_right a b h = ground arith

not-In : (lru : Lru) (id : Bytes) → is_in id lru.dead ≡ false → In id lru.dead → ⊥
not-In lru id out k = true-ne-false (sym (In-is_in id lru.dead k) ∙ out)

any_dead-false :
    (lru : Lru) (ids : List Bytes) (id : Bytes)
    → any_dead lru ids ≡ false
    → In id ids
    → is_in id lru.dead ≡ false
unfolding any_dead
any_dead-false lru [] id h k = elim k [ ]
any_dead-false lru (x ∷ ids) id h (inl e) = rw e (ground arith)
any_dead-false lru (x ∷ ids) id h (inr k) = any_dead-false lru ids id (ground arith) k

module _ (nr : NarReader) (d : Desync) (w : d.World) (index_dir : Bytes) (now : ℕ) (lru : Lru) where
  taken-IsLoaded :
      (es : List Entry) (c : IntegrityCheck)
      → In c (taken nr d w index_dir now lru es)
      → IsLoaded d w index_dir now c
  unfolding taken
  taken-IsLoaded [] c h = elim h [ ]
  taken-IsLoaded (x ∷ es) c h =
      taken_one (consider d w index_dir now x) (consider-LoadedIf d w index_dir now x) h
        (taken-IsLoaded es c)
    where
      taken_one :
          (o : Considered)
          → LoadedIf d w index_dir now o
          → In c (taken_then (taken nr d w index_dir now lru es) o)
          → (In c (taken nr d w index_dir now lru es) → IsLoaded d w index_dir now c)
          → IsLoaded d w index_dir now c
      taken_one passed_over l k rest = rest k
      taken_one aborted l k rest = elim k [ ]
      taken_one (taken_up a) l (inl e) rest = rw e l
      taken_one (taken_up a) l (inr k) rest = rest k

module _ (d : Desync) (rm : Removal d) (index_dir : Bytes) (laws : RemovalLaws d rm index_dir) where
  remove_files-index :
      (paths : List Bytes) (name : Bytes) (w : d.World)
      → (In (index_dir ++ name) paths → ⊥)
      → d.get_index name (remove_files d rm paths w) ≡ d.get_index name w
  unfolding remove_files
  remove_files-index [] name w h = refl
  remove_files-index (path ∷ paths) name w h =
      remove_files-index paths name (rm.remove_file path w) (λ k. h (inr k))
      ∙ laws.file_other path name w (λ e. h (inl (sym e)))

  remove_files-chunk :
      (paths : List Bytes) (id : Bytes) (w : d.World)
      → d.get_chunk id (remove_files d rm paths w) ≡ d.get_chunk id w
  unfolding remove_files
  remove_files-chunk [] id w = refl
  remove_files-chunk (path ∷ paths) id w =
      remove_files-chunk paths id (rm.remove_file path w) ∙ laws.file_chunk path id w

  remove_chunks-index :
      (ids : List Bytes) (name : Bytes) (w : d.World)
      → d.get_index name (remove_chunks d rm ids w) ≡ d.get_index name w
  unfolding remove_chunks
  remove_chunks-index [] name w = refl
  remove_chunks-index (id ∷ ids) name w =
      remove_chunks-index ids name (rm.remove_chunk id w).0 ∙ laws.chunk_index id name w

  remove_chunks-chunk :
      (ids : List Bytes) (id : Bytes) (w : d.World)
      → (In id ids → ⊥)
      → d.get_chunk id (remove_chunks d rm ids w) ≡ d.get_chunk id w
  unfolding remove_chunks
  remove_chunks-chunk [] id w h = refl
  remove_chunks-chunk (x ∷ ids) id w h =
      remove_chunks-chunk ids id (rm.remove_chunk x w).0 (λ k. h (inr k))
      ∙ laws.chunk_other x id w (λ e. h (inl (sym e)))

  Pieces-along :
      (w w' : d.World) (ids : List Bytes) (bytes : Bytes)
      → ((id : Bytes) → In id ids → d.get_chunk id w' ≡ d.get_chunk id w)
      → Pieces d w ids bytes
      → Pieces d w' ids bytes
  Pieces-along w w' [] bytes same e = e
  Pieces-along w w' (id ∷ ids) bytes same (piece, rest, e, ((c, found, has), more)) = (
    piece,
    rest,
    e,
    ((c, same id (inl refl) ∙ found, has), Pieces-along w w' ids rest (λ i k. same i (inr k)) more),
  )

  module _ (nr : NarReader) (w : d.World) (now : ℕ) (lru : Lru) (entries : List Entry) (s : System)
      (r : Reach nr d w index_dir now lru entries s) (over : s.walk ≡ ended)
      (left : All HasLeft s.workers) where
    -- A good index is not dead: another of its path would have the same contents.
    good-not_dead :
        (c : IntegrityCheck)
        → In c (taken nr d w index_dir now lru entries)
        → is_bad nr d w index_dir now lru c ≡ false
        → In c.path s.dead_indices
        → ⊥
    good-not_dead c known good dead =
        let (c', known', (same, bad)) =
          (Reach-dead_iff nr d w index_dir now lru entries r over left c.path).0 dead in
        let same_index : c'.index ≡ c.index = some-injective c'.index c.index (
          sym (taken-IsLoaded nr d w index_dir now lru entries c' known')
          ∙ ap (λ p. d.get_index (drop (length index_dir) p) w) same
          ∙ taken-IsLoaded nr d w index_dir now lru entries c known) in
        let bad_here : check_fails nr d w c.path c'.index || marks lru c'.index ≡ true =
          subst (λ p. check_fails nr d w p c'.index || marks lru c'.index ≡ true) same bad in
        let bad_too : is_bad nr d w index_dir now lru c ≡ true =
          subst (λ i. check_fails nr d w c.path i || marks lru i ≡ true) same_index bad_here in
        true-ne-false (sym bad_too ∙ good)

    not_marked :
        (c : IntegrityCheck)
        → is_bad nr d w index_dir now lru c ≡ false
        → any_dead lru c.index.chunks ≡ false
    unfolding marks
    not_marked c good = or-false_right (null c.index.chunks) (any_dead lru c.index.chunks) (
        or-false_right (check_fails nr d w c.path c.index)
          (null c.index.chunks || any_dead lru c.index.chunks) good)

    -- After a whole collection an index that was taken up and found good is still there with its data:
    -- whatever was stored under its name is stored as before.
    pub collected-Stored :
        (c : IntegrityCheck) (name bytes : Bytes)
        → In c (taken nr d w index_dir now lru entries)
        → c.path ≡ index_dir ++ name
        → is_bad nr d w index_dir now lru c ≡ false
        → Stored d w name bytes
        → Stored d (collected d rm s lru w) name bytes
    unfolding collected
    collected-Stored c name bytes known at good (index, found, pieces) =
        let w' = remove_files d rm s.dead_indices w in
        let alive : (In (index_dir ++ name) s.dead_indices → ⊥) =
          λ k. good-not_dead c known good (rw at k) in
        let same_index : index ≡ c.index = some-injective index c.index (
          sym found
          ∙ ap (λ n. d.get_index n w) (sym (drop-append index_dir name))
          ∙ ap (λ p. d.get_index (drop (length index_dir) p) w) (sym at)
          ∙ taken-IsLoaded nr d w index_dir now lru entries c known) in
        let spared : (id : Bytes) → In id index.chunks → In id lru.dead → ⊥ = λ id k.
          not-In lru id
            (any_dead-false lru index.chunks id (rw same_index (not_marked c good)) k) in
        rw over (
          index,
          remove_chunks-index lru.dead name w'
              ∙ remove_files-index s.dead_indices name w alive
              ∙ found,
          Pieces-along w (remove_chunks d rm lru.dead w') index.chunks bytes
              (λ id k.
                remove_chunks-chunk lru.dead id w' (spared id k)
                ∙ remove_files-chunk s.dead_indices id w)
              pieces,
        )
