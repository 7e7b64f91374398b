-- ===== src/Lru/Evict.antt =====
-- The loop of `Add` that lets the oldest chunks die until the rest fits.
use spongix.Base.{
  ℕ, zero, suc, ◌+◌, ◌-◌, ◌%◌, ◌≤◌, ◌<◌, ◌≡◌, inl, inr, true, false, arith, ltb, Bool-cases, List,
  [], ◌∷◌, ◌++◌, Bytes, some, ap, refl, sym, ◌∙◌, length, append_assoc, append-nil,
}
use spongix.Lru.{ChunkStat, Lru, u64, pop_last, before_last, evict, add_id}
use spongix.Lru.Insert.{total}

pub total-append : (xs ys : List ChunkStat) → total (xs ++ ys) ≡ total xs + total ys
total-append [] ys = omega arith
total-append (x ∷ xs) ys = omega (arith, total-append xs ys)

-- The ids of chunks that died, the last of the list first, added to the set.
abbrev pub bury : List ChunkStat → List Bytes → List Bytes
bury [] dead = dead
bury (x ∷ xs) dead = add_id x.id (bury xs dead)

-- A non-empty slice is its front and its last element.
pub record Pops (xs : List ChunkStat) : Type 0 where
  pub front : List ChunkStat
  pub last : ChunkStat
  pub pops : pop_last xs ≡ some (front, last)
  pub spells : xs ≡ front ++ last ∷ []
  pub shorter : length xs ≡ suc (length front)

pub pop_last-Pops : (x : ChunkStat) (xs : List ChunkStat) → Pops (x ∷ xs)
unfolding pop_last
pop_last-Pops x [] = record { front = []; last = x; pops = refl; spells = refl; shorter = refl }
pop_last-Pops x (y ∷ ys) =
    let p = pop_last-Pops y ys in
    record {
      front = x ∷ p.front;
      last = p.last;
      pops = ap (λ o. some (before_last x o)) p.pops;
      spells = ap (◌∷◌ x) p.spells;
      shorter = ap suc p.shorter;
    }

-- How an eviction ends: the list is what is left and the victims behind it; the sums are exact; the rest
-- fits, and with the last victim back it would not.
pub record Evicts (l r : Lru) : Type 0 where
  pub victims : List ChunkStat
  pub split : r.live ++ victims ≡ l.live
  pub size_ok : r.live_size ≡ total r.live
  pub fits : r.live_size ≤ r.live_size_max
  pub max_same : r.live_size_max ≡ l.live_size_max
  pub buried : r.dead ≡ bury victims l.dead
  pub dead_ok : r.dead_size ≡ (l.dead_size + total victims) % u64
  pub needed :
      (v : ChunkStat) (vs : List ChunkStat)
      → victims ≡ v ∷ vs
      → l.live_size_max < total r.live + v.size

bury-append :
    (xs ys : List ChunkStat) (dead : List Bytes) → bury (xs ++ ys) dead ≡ bury xs (bury ys dead)
bury-append [] ys dead = refl
bury-append (x ∷ xs) ys dead = ap (add_id x.id) (bury-append xs ys dead)

-- The state behind one round.
abbrev after_death : Lru → List ChunkStat → ChunkStat → Lru
after_death l front last = record l {
  dead = add_id last.id l.dead;
  live = front;
  dead_size = (l.dead_size + last.size) % u64;
  live_size = (l.live_size + u64 - last.size) % u64;
}

Evicts-stop :
    (l : Lru)
    → l.live_size ≡ total l.live
    → l.dead_size < u64
    → l.live_size ≤ l.live_size_max
    → Evicts l l
Evicts-stop l s d fits = record {
  victims = [];
  split = append-nil l.live;
  size_ok = s;
  fits = fits;
  max_same = refl;
  buried = refl;
  dead_ok = omega arith;
  needed = λ v vs e. cc;
}

Evicts-more :
    (l r : Lru) (front : List ChunkStat) (last : ChunkStat)
    → l.live ≡ front ++ last ∷ []
    → l.live_size ≡ total l.live
    → l.live_size_max < l.live_size
    → Evicts (after_death l front last) r
    → Evicts l r
Evicts-more l r front last e s over w = record {
  victims = w.victims ++ last ∷ [];
  split =
      sym (append_assoc r.live w.victims (last ∷ [])) ∙ ap (λ x. x ++ last ∷ []) w.split ∙ sym e;
  size_ok = w.size_ok;
  fits = w.fits;
  max_same = w.max_same;
  buried = w.buried ∙ sym (bury-append w.victims (last ∷ []) l.dead);
  dead_ok = omega (arith, w.dead_ok, total-append w.victims (last ∷ []));
  needed = needs w.victims refl;
}
  where
    whole : l.live_size ≡ total front + last.size
    whole = omega (arith, s, ap total e, total-append front (last ∷ []))

    needs :
        (vs : List ChunkStat)
        → w.victims ≡ vs
        → (v : ChunkStat) (rest : List ChunkStat) → w.victims ++ last ∷ [] ≡ v ∷ rest
        → l.live_size_max < total r.live + v.size
    needs [] none_yet v rest h =
        let same : last ≡ v = cc (ap (λ x. x ++ last ∷ []) none_yet) in
        let left : r.live ≡ front = sym (append-nil r.live) ∙ (rw none_yet at w.split) in
        rw (← same, left) (omega (arith, whole))
    needs (u ∷ us) found v rest h =
        let same : u ≡ v = cc (ap (λ x. x ++ last ∷ []) found) in rw (← same) (w.needed u us found)

evict-fits : (n : ℕ) (l : Lru) → ltb l.live_size_max l.live_size ≡ false → evict n l ≡ some l
unfolding evict
evict-fits zero l h = rw h
evict-fits (suc n) l h = rw h

evict-over :
    (n : ℕ) (l : Lru) (p : Pops l.live)
    → ltb l.live_size_max l.live_size ≡ true
    → evict (suc n) l ≡ evict n (after_death l p.front p.last)
unfolding evict
evict-over n l p h = rw (h, p.pops)

some-Pops : (xs : List ChunkStat) → 0 < total xs → Pops xs
some-Pops [] h = absurd (omega arith)
some-Pops (x ∷ xs) h = pop_last-Pops x xs

total-front : (xs : List ChunkStat) (p : Pops xs) → total xs ≡ total p.front + p.last.size
total-front xs p = omega (arith, ap total p.spells, total-append p.front (p.last ∷ []))

-- The loop ends within as many rounds as there are chunks, and lets the chunks at the end die.
pub evict-Evicts :
    (n : ℕ) (l : Lru)
    → length l.live ≤ n
    → l.live_size ≡ total l.live
    → l.live_size < u64
    → l.dead_size < u64
    → (r : Lru) × (evict n l ≡ some r) × Evicts l r
evict-Evicts zero l h s lt d =
    let empty : total l.live ≡ 0 = total-empty l.live (omega arith) in
    (l, evict-fits zero l (ground arith), Evicts-stop l s d (omega arith))
  where
    total-empty : (xs : List ChunkStat) → length xs ≤ 0 → total xs ≡ 0
    total-empty [] k = refl
    total-empty (x ∷ xs) k = absurd (omega arith)
evict-Evicts (suc n) l h s lt d = elim (Bool-cases (ltb l.live_size_max l.live_size)) [
  | inr fits ↦ (l, evict-fits (suc n) l fits, Evicts-stop l s d (ground arith))
  | inl over ↦
      let p = some-Pops l.live (ground arith) in
      let whole = total-front l.live p in
      let (r, e, w) =
        evict-Evicts n (after_death l p.front p.last) (omega (arith, p.shorter)) (omega arith)
          (omega arith) (omega arith) in
      (r, evict-over n l p over ∙ e, Evicts-more l r p.front p.last p.spells s (ground arith) w)
]
