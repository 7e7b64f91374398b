-- ===== src/Lru/Dead.antt =====
-- The set of dead ids, as the list of its members.
use spongix.Base.{
  ◌≡◌, refl, sym, ◌⊎◌, inl, inr, true, Bool-cases, List, [], ◌∷◌, ◌++◌, Bytes, In, In-append_left,
  In-append_right,
}
use spongix.Strings.{equal}
use spongix.Strings.Parts.{equal_iff}
use spongix.Lru.{is_in, add_id}

pub is_in-In : (id : Bytes) (dead : List Bytes) → is_in id dead ≡ true → In id dead
unfolding is_in
is_in-In id [] h = cc
is_in-In id (d ∷ dead) h = elim (Bool-cases (equal d id)) [
  | inl y ↦ inl (sym ((equal_iff d id).0 y))
  | inr n ↦ inr (is_in-In id dead (rw n at h))
]

pub In-is_in : (id : Bytes) (dead : List Bytes) → In id dead → is_in id dead ≡ true
unfolding is_in
In-is_in id [] h = elim h [ ]
In-is_in id (d ∷ dead) (inl e) = rw ((equal_iff d id).1 (sym e)) refl
In-is_in id (d ∷ dead) (inr h) = elim (Bool-cases (equal d id)) [
  | inl y ↦ rw y refl
  | inr n ↦ rw n (In-is_in id dead h)
]

In-append : (a : Bytes) (xs ys : List Bytes) → In a (xs ++ ys) → In a xs ⊎ In a ys
In-append a [] ys h = inr h
In-append a (x ∷ xs) ys (inl e) = inl (inl e)
In-append a (x ∷ xs) ys (inr h) = elim (In-append a xs ys h) [ inl l ↦ inl (inr l) | inr r ↦ inr r ]

-- An id is in the set behind `add_id` if it is the one that was added or was there before.
pub In-add_id :
    (id new : Bytes) (dead : List Bytes) → In id (add_id new dead) → (id ≡ new) ⊎ In id dead
unfolding add_id
In-add_id id new dead h = elim (Bool-cases (is_in new dead)) [
  | inl y ↦ inr (rw y at h)
  | inr n ↦ elim (In-append id dead (new ∷ []) (rw n at h)) [
    | inl l ↦ inr l
    | inr (inl e) ↦ inl e
    | inr (inr never) ↦ elim never [ ]
  ]
]

pub add_id-new : (new : Bytes) (dead : List Bytes) → In new (add_id new dead)
unfolding add_id
add_id-new new dead = elim (Bool-cases (is_in new dead)) [
  | inl y ↦ rw y (is_in-In new dead y)
  | inr n ↦ rw n (In-append_right new dead (new ∷ []) (inl refl))
]

pub add_id-old : (id new : Bytes) (dead : List Bytes) → In id dead → In id (add_id new dead)
unfolding add_id
add_id-old id new dead h = elim (Bool-cases (is_in new dead)) [
  | inl y ↦ rw y h
  | inr n ↦ rw n (In-append_left id dead (new ∷ []) h)
]
