-- ===== src/Lru/Search.antt =====
-- `sort.Search` finds the first index at which a monotone test holds.
use spongix.Base.{
  ℕ, zero, suc, ◌+◌, ◌-◌, ◌/◌, ◌≤◌, ◌<◌, ◌≡◌, ◌⊎◌, inl, inr, Bool, true, false, arith, ltb,
  Bool-cases, refl,
}
use spongix.Lru.{search_loop, search_index}

-- The test fails below `i`, and holds at `i` unless that is the end.
pub record IsFirst (n : ℕ) (f : ℕ → Bool) (i : ℕ) : Type 0 where
  pub in_range : i ≤ n
  pub below : (k : ℕ) → k < i → f k ≡ false
  pub at : (i ≡ n) ⊎ (f i ≡ true)

module _ (n : ℕ) (f : ℕ → Bool) (mono : (a b : ℕ) → a ≤ b → f b ≡ false → f a ≡ false) where
  search_loop-IsFirst :
      (fuel i j : ℕ)
      → i ≤ j
      → j ≤ n
      → j - i ≤ fuel
      → ((k : ℕ) → k < i → f k ≡ false)
      → (j ≡ n) ⊎ (f j ≡ true)
      → IsFirst n f (search_loop fuel i j f)
  unfolding search_loop
  search_loop-IsFirst zero i j a b d e g =
      let x : i ≡ j = omega arith in record { in_range = omega arith; below = e; at = rw x g }
  search_loop-IsFirst (suc fuel) i j a b d e g = elim (Bool-cases (ltb i j)) [
    | inl more ↦ elim (Bool-cases (f ((i + j) / 2))) [
      | inl yes_h ↦
          rw (more, search_loop)
            (rw (yes_h, search_loop)
              (search_loop-IsFirst fuel i ((i + j) / 2) (ground arith) (ground arith) (ground arith)
                e (inr yes_h)))
      | inr no_h ↦
          rw (more, search_loop)
            (rw (no_h, search_loop)
              (search_loop-IsFirst fuel ((i + j) / 2 + 1) j (ground arith) b (ground arith)
                (λ k l. mono k ((i + j) / 2) (omega arith) no_h) g))
    ]
    | inr stop ↦
        let x : i ≡ j = ground arith in
        rw (stop, search_loop) (record { in_range = omega arith; below = e; at = rw x g })
  ]

  pub search_index-IsFirst : IsFirst n f (search_index n f)
  unfolding search_index
  search_index-IsFirst =
      search_loop-IsFirst n 0 n (omega arith) (omega arith) (omega arith)
        (λ k l. absurd (omega arith)) (inl refl)
