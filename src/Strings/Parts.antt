-- ===== src/Strings/Parts.antt =====
-- Comparing, splitting and joining.
use spongix.Base.{
  ℕ, ◌≡◌, refl, ◌≢◌, ◌↔◌, true, List, [], ◌∷◌, ◌++◌, some, none, Option, subst, Bytes, Lacks, All,
  ◌==◌, Bool-cases, inl, inr, All-append, arith, ap, ◌∙◌, sym,
}
use spongix.Strings.{later, prepend, equal, split_pair, split, join}

pub equal_self : (text : Bytes) → equal text text ≡ true
unfolding equal
equal_self [] = refl
equal_self (c ∷ text) = ground (arith, equal_self text)

equal_sound : (text other : Bytes) → equal text other ≡ true → text ≡ other
unfolding equal
equal_sound [] [] h = refl
equal_sound [] (d ∷ other) h = cc
equal_sound (c ∷ text) [] h = cc
equal_sound (c ∷ text) (d ∷ other) h = ground (arith, equal_sound text other)

pub equal_iff : (text other : Bytes) → (equal text other ≡ true) ↔ (text ≡ other)
equal_iff text other =
    (equal_sound text other, λ e. subst (λ x. equal text x ≡ true) e (equal_self text))

-- A separator whose first byte does not occur in front of it is where the text is split.
pub split_pair-append :
    (b : ℕ) (a s : Bytes) → Lacks b a → split_pair (b ∷ []) (a ++ b ∷ s) ≡ some (a, s)
unfolding split_pair
split_pair-append b [] s h = ground arith
split_pair-append b (c ∷ a) s (hc, h) = ground (arith, split_pair-append b a s h)

split-ne-nil : (sep : ℕ) (s : Bytes) → split sep s ≢ []
unfolding split
split-ne-nil sep [] = ground arith
split-ne-nil sep (c ∷ s) = ground (arith, split-ne-nil sep s)

split_part : (sep : ℕ) (p s : Bytes) → Lacks sep p → split sep (p ++ sep ∷ s) ≡ p ∷ split sep s
unfolding split
split_part sep [] s h = ground arith
split_part sep (c ∷ p) s (hc, h) = ground (arith, split_part sep p s h)

pub split_last : (sep : ℕ) (p : Bytes) → Lacks sep p → split sep p ≡ p ∷ []
unfolding split
split_last sep [] h = refl
split_last sep (c ∷ p) (hc, h) = ground (arith, split_last sep p h)

-- Splitting a join gives the parts back, if there is a part and none holds the separator.
pub split-join :
    (sep : ℕ) (ps : List Bytes) → ps ≢ [] → All (Lacks sep) ps → split sep (join (sep ∷ []) ps) ≡ ps
unfolding join
split-join sep [] ne h = absurd (ne refl)
split-join sep (p ∷ []) ne (hp, h) = split_last sep p hp
split-join sep (p ∷ q ∷ ps) ne (hp, h) =
    split_part sep p _ hp ∙ ap (◌∷◌ p) (split-join sep (q ∷ ps) (λ e. cc) h)

prepend-Lacks :
    (b c : ℕ) (ps : List Bytes) → c ≢ b → All (Lacks b) ps → All (Lacks b) (prepend c ps)
prepend-Lacks b c [] ne h = ((ne, tt), tt)
prepend-Lacks b c (p ∷ ps) ne (hp, h) = ((ne, hp), h)

-- No part holds the separator.
pub split-Lacks : (sep : ℕ) (s : Bytes) → All (Lacks sep) (split sep s)
unfolding split
split-Lacks sep [] = (tt, tt)
split-Lacks sep (c ∷ s) = elim (Bool-cases (c == sep)) [
  | inl same ↦ rw same (tt, split-Lacks sep s)
  | inr other ↦ rw other (prepend-Lacks sep c (split sep s) (ground arith) (split-Lacks sep s))
]

pub join-Lacks :
    (b sep : ℕ) (ps : List Bytes) → b ≢ sep → All (Lacks b) ps → Lacks b (join (sep ∷ []) ps)
unfolding join
join-Lacks b sep [] ne h = tt
join-Lacks b sep (p ∷ []) ne h = h.0
join-Lacks b sep (p ∷ q ∷ ps) ne h =
    All-append (λ c. c ≢ b) p _ h.0 (λ e. ne (sym e), join-Lacks b sep (q ∷ ps) ne h.1)

abbrev SplitsAt : ℕ → Bytes → Option (Bytes × Bytes) → Type 0
SplitsAt b s none = Lacks b s
SplitsAt b s (some (a, r)) = (s ≡ a ++ b ∷ r) × Lacks b a

SplitsAt-later :
    (b c : ℕ) (s : Bytes) (o : Option (Bytes × Bytes))
    → c ≢ b
    → SplitsAt b s o
    → SplitsAt b (c ∷ s) (later c o)
SplitsAt-later b c s none ne h = (ne, h)
SplitsAt-later b c s (some (a, r)) ne (e, h) = (ap (◌∷◌ c) e, (ne, h))

split_pair-SplitsAt : (b : ℕ) (s : Bytes) → SplitsAt b s (split_pair (b ∷ []) s)
unfolding split_pair
split_pair-SplitsAt b [] = tt
split_pair-SplitsAt b (c ∷ s) = elim (Bool-cases (b == c)) [
  | inl same ↦ rw same (ground arith, tt)
  | inr other ↦ rw other (SplitsAt-later b c s _ (ground arith) (split_pair-SplitsAt b s))
]

-- The text is split at the first such byte, and not at all if there is none.
pub split_pair_sound :
    (b : ℕ) (s : Bytes) {a r : Bytes}
    → split_pair (b ∷ []) s ≡ some (a, r)
    → (s ≡ a ++ b ∷ r) × Lacks b a
split_pair_sound b s h = subst (SplitsAt b s) h (split_pair-SplitsAt b s)

pub split_pair-none : (b : ℕ) (s : Bytes) → Lacks b s → split_pair (b ∷ []) s ≡ none
unfolding split_pair
split_pair-none b [] h = refl
split_pair-none b (c ∷ s) (hc, h) = ground (arith, split_pair-none b s h)
