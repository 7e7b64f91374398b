-- ===== src/Lru/Insert.antt =====
-- The insertion of `Add`: binary search and slices against insertion into a sorted list.
use spongix.Base.{
  ℕ, zero, suc, ◌+◌, ◌≤◌, ◌≡◌, inl, inr, true, false, arith, ltb, Bool-cases, List, [], ◌∷◌,
  if◌then◌else◌, ap, refl, length, All, ◌==◌,
}
use spongix.Lru.{ChunkStat, is_older, insert_at, search_index}
use spongix.Lru.Search.{IsFirst, search_index-IsFirst}

-- Newest first.
abbrev pub Sorted : List ChunkStat → Type 0
Sorted [] = Unit
Sorted (x ∷ xs) = All (λ y. y.mtime ≤ x.mtime) xs × Sorted xs

abbrev pub total : List ChunkStat → ℕ
total [] = 0
total (x ∷ xs) = x.size + total xs

-- In front of the first chunk that is older.
abbrev pub insert_sorted : ChunkStat → List ChunkStat → List ChunkStat
insert_sorted v [] = v ∷ []
insert_sorted v (x ∷ xs) = if ltb x.mtime v.mtime then v ∷ x ∷ xs else x ∷ insert_sorted v xs

module _ (v : ChunkStat) where
  All-older :
      (x : ChunkStat) (xs : List ChunkStat) (k : ℕ)
      → All (λ y. y.mtime ≤ x.mtime) xs
      → ltb x.mtime v.mtime ≡ true
      → is_older v xs k ≡ true
  unfolding is_older
  All-older x [] k h o = refl
  All-older x (y ∷ xs) zero h o = ground (arith, h.0)
  All-older x (y ∷ xs) (suc k) h o = All-older x xs k h.1 o

  is_older_mono :
      (live : List ChunkStat)
      → Sorted live
      → (a b : ℕ) → a ≤ b
      → is_older v live b ≡ false
      → is_older v live a ≡ false
  unfolding is_older
  is_older_mono [] s a b le o = o
  is_older_mono (x ∷ xs) s zero zero le o = o
  is_older_mono (x ∷ xs) s (suc a) zero le o = absurd (omega arith)
  is_older_mono (x ∷ xs) s (suc a) (suc b) le o = is_older_mono xs s.1 a b (omega arith) o
  is_older_mono (x ∷ xs) s zero (suc b) le o = elim (Bool-cases (ltb x.mtime v.mtime)) [
    | inl y ↦ let k = All-older x xs b s.0 y in cc
    | inr n ↦ n
  ]

  insert_at-cons :
      (x : ChunkStat) (xs : List ChunkStat) (i : ℕ)
      → insert_at (suc i) v (x ∷ xs) ≡ x ∷ insert_at i v xs
  unfolding insert_at
  insert_at-cons x xs i = elim (Bool-cases (i == length xs)) [
    | inl e ↦ ground arith
    | inr e ↦ ground arith
  ]

  insert_at-first :
      (live : List ChunkStat) (i : ℕ)
      → IsFirst (length live) (is_older v live) i
      → insert_at i v live ≡ insert_sorted v live
  unfolding is_older
  insert_at-first [] i first = let x : i ≡ 0 = omega arith in rw x (unfold insert_at in refl)
  insert_at-first (x ∷ xs) zero first = unfold insert_at in ground arith
  insert_at-first (x ∷ xs) (suc i) first =
      rw (insert_at-cons x xs i, first.below 0 (omega arith))
        (ap (◌∷◌ x) (
          insert_at-first xs i (record {
            in_range = omega arith;
            below = λ k l. first.below (suc k) (omega arith);
            at = elim first.at [ inl e ↦ inl (omega arith) | inr h ↦ inr h ];
          })))

  -- The search and the shift of the slice insert the chunk in front of the first older one.
  pub insert_at-insert_sorted :
      (live : List ChunkStat)
      → Sorted live
      → insert_at (search_index (length live) (is_older v live)) v live ≡ insert_sorted v live
  insert_at-insert_sorted live s =
      insert_at-first live _
        (search_index-IsFirst (length live) (is_older v live) (is_older_mono live s))

All-le :
    (m n : ℕ) (xs : List ChunkStat) → m ≤ n → All (λ y. y.mtime ≤ m) xs → All (λ y. y.mtime ≤ n) xs
All-le m n [] le h = tt
All-le m n (x ∷ xs) le h = (omega arith, All-le m n xs le h.1)

All-insert :
    (x v : ChunkStat) (xs : List ChunkStat)
    → v.mtime ≤ x.mtime
    → All (λ y. y.mtime ≤ x.mtime) xs
    → All (λ y. y.mtime ≤ x.mtime) (insert_sorted v xs)
All-insert x v [] le h = (le, tt)
All-insert x v (y ∷ xs) le h = elim (Bool-cases (ltb y.mtime v.mtime)) [
  | inl o ↦ rw o (le, h)
  | inr n ↦ rw n (h.0, All-insert x v xs le h.1)
]

pub insert_sorted-Sorted :
    (v : ChunkStat) (live : List ChunkStat) → Sorted live → Sorted (insert_sorted v live)
insert_sorted-Sorted v [] s = (tt, tt)
insert_sorted-Sorted v (x ∷ xs) (h, s) = elim (Bool-cases (ltb x.mtime v.mtime)) [
  | inl o ↦ rw o ((ground arith, All-le x.mtime v.mtime xs (ground arith) h), (h, s))
  | inr n ↦ rw n (All-insert x v xs (ground arith) h, insert_sorted-Sorted v xs s)
]

pub total-insert_sorted :
    (v : ChunkStat) (live : List ChunkStat) → total (insert_sorted v live) ≡ total live + v.size
total-insert_sorted v [] = omega arith
total-insert_sorted v (x ∷ xs) = ground (arith, total-insert_sorted v xs)

pub length-insert_sorted :
    (v : ChunkStat) (live : List ChunkStat) → length (insert_sorted v live) ≡ suc (length live)
length-insert_sorted v [] = refl
length-insert_sorted v (x ∷ xs) = ground (arith, length-insert_sorted v xs)
