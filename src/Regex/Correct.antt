-- ===== src/Regex/Correct.antt =====
-- The matcher by derivatives decides the relation `Matches`.
use spongix.Base.{
  ℕ, ◌≡◌, refl, sym, ap, ◌∙◌, ◌↔◌, Bool, true, false, inl, inr, List, [], ◌∷◌, Bytes, newline,
  Bool-cases, arith, ◌==◌, subst, if◌then◌else◌,
}
use spongix.Regex.{
  Regex, never, empty, cls, any, seq, alt, star, Matches, m_empty, m_cls, m_any, m_seq, m_left,
  m_right, m_stop, m_more, nullable, seq_of, alt_of, deriv, match_string, in_class, lit,
}

not-Matches-never : {s : Bytes} → ¬ Matches never s
not-Matches-never m = elim m [ ]

seq_of_sound : (r t : Regex) {s : Bytes} → Matches (seq_of r t) s → Matches (seq r t) s
unfolding seq_of
seq_of_sound never t m = absurd (not-Matches-never m)
seq_of_sound empty t m = m_seq m_empty m refl
seq_of_sound _ t m = m

seq_of_complete : (r t : Regex) {s : Bytes} → Matches (seq r t) s → Matches (seq_of r t) s
unfolding seq_of
seq_of_complete never t (m_seq h k e) = absurd (not-Matches-never h)
seq_of_complete empty t (m_seq m_empty k e) = subst (Matches t) e k
seq_of_complete (cls rs) t m = m
seq_of_complete any t m = m
seq_of_complete (seq a b) t m = m
seq_of_complete (alt a b) t m = m
seq_of_complete (star a) t m = m

alt_of_sound : (r t : Regex) {s : Bytes} → Matches (alt_of r t) s → Matches (alt r t) s
unfolding alt_of
alt_of_sound never t m = m_right m
alt_of_sound r never m = m_left m
alt_of_sound r t m = m

alt_of_complete : (r t : Regex) {s : Bytes} → Matches (alt r t) s → Matches (alt_of r t) s
unfolding alt_of
alt_of_complete never t (m_left m) = absurd (not-Matches-never m)
alt_of_complete never t (m_right m) = m
alt_of_complete r never (m_left m) = m
alt_of_complete r never (m_right m) = absurd (not-Matches-never m)
alt_of_complete r t m = m

nullable_sound : (r : Regex) → nullable r ≡ true → Matches r []
unfolding nullable
nullable_sound never h = cc
nullable_sound empty h = m_empty
nullable_sound (cls rs) h = cc
nullable_sound any h = cc
nullable_sound (seq r t) h =
    m_seq (nullable_sound r (ground arith)) (nullable_sound t (ground arith)) refl
nullable_sound (alt r t) h = elim (Bool-cases (nullable r)) [
  | inl e ↦ m_left (nullable_sound r e)
  | inr e ↦ m_right (nullable_sound t (ground arith))
]
nullable_sound (star r) h = m_stop

nullable_complete : {r : Regex} {s : Bytes} → Matches r s → s ≡ [] → nullable r ≡ true
unfolding nullable
nullable_complete m_empty e = refl
nullable_complete (m_cls h) e = cc
nullable_complete (m_any h) e = cc
nullable_complete (m_seq {a = []} m k p) e =
    rw (nullable_complete m refl) (nullable_complete k (p ∙ e))
nullable_complete (m_seq {a = c ∷ a} m k p) e = cc
nullable_complete (m_left m) e = rw (nullable_complete m e)
nullable_complete (m_right {r} m) e = ground (arith, nullable_complete m e)
nullable_complete m_stop e = refl
nullable_complete (m_more h k p) e = refl

class_sound :
    (rs : List (ℕ × ℕ)) (c : ℕ) (b : Bool) {s : Bytes}
    → in_class rs c ≡ b
    → Matches (if b then empty else never) s
    → Matches (cls rs) (c ∷ s)
class_sound rs c true h m_empty = m_cls h
class_sound rs c false h m = absurd (not-Matches-never m)

any_sound :
    (c : ℕ) (b : Bool) {s : Bytes}
    → (c == newline) ≡ b
    → Matches (if b then never else empty) s
    → Matches any (c ∷ s)
any_sound c true h m = absurd (not-Matches-never m)
any_sound c false h m_empty = m_any h

-- What is matched by a choice with `never` unless the flag is set.
if_sound :
    (b : Bool) (r : Regex) {s : Bytes}
    → Matches (if b then r else never) s
    → (b ≡ true) × Matches r s
if_sound true r m = (refl, m)
if_sound false r m = absurd (not-Matches-never m)

deriv_sound : (c : ℕ) (r : Regex) {s : Bytes} → Matches (deriv c r) s → Matches r (c ∷ s)
unfolding deriv
deriv_sound c never m = absurd (not-Matches-never m)
deriv_sound c empty m = absurd (not-Matches-never m)
deriv_sound c (cls rs) m = class_sound rs c (in_class rs c) refl m
deriv_sound c any m = any_sound c (c == newline) refl m
deriv_sound c (seq r t) m = elim (alt_of_sound (seq_of (deriv c r) t) _ m) [
  | m_left h ↦ elim (seq_of_sound (deriv c r) t h) [
    | m_seq u k e ↦ m_seq (deriv_sound c r u) k (ap (◌∷◌ c) e)
  ]
  | m_right h ↦
      let (n, k) = if_sound (nullable r) (deriv c t) h in
      m_seq (nullable_sound r n) (deriv_sound c t k) refl
]
deriv_sound c (alt r t) m = elim (alt_of_sound (deriv c r) (deriv c t) m) [
  | m_left h ↦ m_left (deriv_sound c r h)
  | m_right h ↦ m_right (deriv_sound c t h)
]
deriv_sound c (star r) m = elim (seq_of_sound (deriv c r) (star r) m) [
  | m_seq h k e ↦ m_more (deriv_sound c r h) k (ap (◌∷◌ c) e)
]

class_complete :
    (rs : List (ℕ × ℕ)) (c d : ℕ) {s : Bytes}
    → in_class rs d ≡ true
    → d ≡ c
    → [] ≡ s
    → Matches (if in_class rs c then empty else never) s
class_complete rs c d h e n = rw (← e, h) (subst (Matches empty) n m_empty)

any_complete :
    (c d : ℕ) {s : Bytes}
    → (d == newline) ≡ false
    → d ≡ c
    → [] ≡ s
    → Matches (if c == newline then never else empty) s
any_complete c d h e n = rw (← e, h) (subst (Matches empty) n m_empty)

deriv_complete :
    {r : Regex} {x : Bytes} (c : ℕ) (s : Bytes) → Matches r x → x ≡ c ∷ s → Matches (deriv c r) s
unfolding deriv
deriv_complete c s m_empty e = cc
deriv_complete c s (m_cls {rs} {c = d} h) e = class_complete rs c d h (cc) (cc)
deriv_complete c s (m_any {c = d} h) e = any_complete c d h (cc) (cc)
deriv_complete c s (m_seq {r} {t} {a = []} m k p) e =
    alt_of_complete (seq_of (deriv c r) t) (if nullable r then deriv c t else never)
      (m_right (rw (nullable_complete m refl) (deriv_complete c s k (p ∙ e))))
deriv_complete c s (m_seq {r} {t} {a = d ∷ a} m k p) e =
    alt_of_complete _ _
      (m_left (seq_of_complete (deriv c r) t (m_seq (deriv_complete c a m (cc)) k (cc))))
deriv_complete c s (m_left {r} {t} m) e =
    alt_of_complete (deriv c r) (deriv c t) (m_left (deriv_complete c s m e))
deriv_complete c s (m_right {r} {t} m) e =
    alt_of_complete (deriv c r) (deriv c t) (m_right (deriv_complete c s m e))
deriv_complete c s m_stop e = cc
deriv_complete c s (m_more {r} {c = d} {a} h k p) e =
    seq_of_complete (deriv c r) (star r) (m_seq (deriv_complete c a h (cc)) k (cc))

pub match_string_sound : (r : Regex) (s : Bytes) → match_string r s ≡ true → Matches r s
unfolding match_string
match_string_sound r [] h = nullable_sound r h
match_string_sound r (c ∷ s) h = deriv_sound c r (match_string_sound (deriv c r) s h)

pub match_string_complete : (r : Regex) (s : Bytes) → Matches r s → match_string r s ≡ true
unfolding match_string
match_string_complete r [] m = nullable_complete m refl
match_string_complete r (c ∷ s) m = match_string_complete (deriv c r) s (deriv_complete c s m refl)

-- `MatchString` answers true for exactly the texts of the pattern.
pub match_string_iff : (r : Regex) (s : Bytes) → (match_string r s ≡ true) ↔ Matches r s
match_string_iff r s = (match_string_sound r s, match_string_complete r s)

-- A literal matches itself alone.
pub Matches-lit : (w : Bytes) → Matches (lit w) w
Matches-lit [] = m_empty
Matches-lit (c ∷ w) =
    m_seq (m_cls {rs = (c, c) ∷ []} {c = c} (unfold in_class in ground arith)) (Matches-lit w) refl

single : (c : ℕ) {s : Bytes} → Matches (cls ((c, c) ∷ [])) s → s ≡ c ∷ []
single c (m_cls h) = unfold in_class in ground arith

pub lit-Matches : (w : Bytes) {s : Bytes} → Matches (lit w) s → s ≡ w
lit-Matches [] m_empty = refl
lit-Matches (c ∷ w) (m_seq h k e) =
    let x = single c h in let y = lit-Matches w k in sym e ∙ rw (x, y)
