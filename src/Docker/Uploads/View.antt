-- ===== src/Docker/Uploads/View.antt =====
-- What a client sees of the uploads: the bytes received so far under a uuid.
use spongix.Base.{
  ℕ, zero, suc, ◌≡◌, refl, ap, ◌<◌, List, [], ◌∷◌, ◌++◌, Option, none, some, Bytes, length,
  length-append, get_elem?, set, arith, ◌==◌, if◌then◌else◌, Bool-cases, Option-cases, inl, inr,
}
use spongix.Strings.{equal}
use spongix.Strings.Parts.{equal_iff}
use spongix.Assoc.{lookup, lookup-insert}
use spongix.Docker.Uploads.{Uploads, new_upload, content, content_or, append_content, no_uploads}

abbrev view_at : Uploads → Option ℕ → Option Bytes
view_at s none = none
view_at s (some p) = some (content p s)

-- The bytes of the upload under a uuid.
abbrev pub view : Bytes → Uploads → Option Bytes
view uuid s = view_at s (lookup uuid s.uploads)

-- The pointers of the map are in the heap, and no two uuids share one.
pub record Inv (s : Uploads) : Type 0 where
  pub in_heap : (uuid : Bytes) (p : ℕ) → lookup uuid s.uploads ≡ some p → p < length s.heap
  pub apart :
      (i j : Bytes) (p : ℕ) → lookup i s.uploads ≡ some p → lookup j s.uploads ≡ some p → i ≡ j

get_elem?-append_left :
    (xs ys : List Bytes) (i : ℕ) → i < length xs → get_elem? (xs ++ ys) i ≡ get_elem? xs i
get_elem?-append_left [] ys i h = absurd (omega arith)
get_elem?-append_left (x ∷ xs) ys zero h = refl
get_elem?-append_left (x ∷ xs) ys (suc i) h = get_elem?-append_left xs ys i (omega arith)

get_elem?-append_end : (xs : List Bytes) (y : Bytes) → get_elem? (xs ++ y ∷ []) (length xs) ≡ some y
get_elem?-append_end [] y = refl
get_elem?-append_end (x ∷ xs) y = get_elem?-append_end xs y

pub no_uploads-Inv : Inv no_uploads
unfolding lookup
no_uploads-Inv = record { in_heap = λ i p e. cc; apart = λ i j p e h. cc }

module _ (uuid : Bytes) (s : Uploads) (inv : Inv s) where
  lookup-new :
      (j : Bytes)
      → lookup j (new_upload uuid s).uploads
        ≡ (if equal uuid j then some (length s.heap) else lookup j s.uploads)
  unfolding new_upload
  lookup-new j = lookup-insert uuid j (length s.heap) s.uploads

  length-new : length (new_upload uuid s).heap ≡ suc (length s.heap)
  unfolding new_upload
  length-new = omega (arith, length-append s.heap ([] ∷ []))

  pub new_upload-Inv : Inv (new_upload uuid s)
  new_upload-Inv = record {
    in_heap = λ j p e. ground (arith, lookup-new j, inv.in_heap j p, length-new);
    apart = λ i j p e h. ground (
      arith,
      lookup-new i,
      lookup-new j,
      equal_iff uuid i,
      equal_iff uuid j,
      inv.in_heap i p,
      inv.in_heap j p,
      inv.apart i j p,
    );
  }

  content-new_last : content (length s.heap) (new_upload uuid s) ≡ []
  unfolding content new_upload
  content-new_last = ap content_or (get_elem?-append_end s.heap [])

  content-new : (p : ℕ) → p < length s.heap → content p (new_upload uuid s) ≡ content p s
  unfolding content new_upload
  content-new p h = ap content_or (get_elem?-append_left s.heap ([] ∷ []) p h)

  -- A new upload is empty, and the others stay as they are.
  pub view-new :
      (j : Bytes) → view j (new_upload uuid s) ≡ (if equal uuid j then some [] else view j s)
  view-new j = elim (Bool-cases (equal uuid j)) [
    | inl y ↦ rw (lookup-new j, y) (ap some content-new_last)
    | inr n ↦
        rw (lookup-new j, n)
          (elim (Option-cases (lookup j s.uploads)) [
            | inl e ↦ rw e
            | inr (p, e) ↦ rw e (ap some (content-new p (inv.in_heap j p e)))
          ])
  ]

length-set : (xs : List Bytes) (i : ℕ) (v : Bytes) → length (set xs i v) ≡ length xs
length-set [] i v = refl
length-set (x ∷ xs) zero v = refl
length-set (x ∷ xs) (suc i) v = ap suc (length-set xs i v)

get_elem?-set :
    (xs : List Bytes) (i j : ℕ) (v : Bytes)
    → i < length xs
    → get_elem? (set xs i v) j ≡ (if i == j then some v else get_elem? xs j)
get_elem?-set [] i j v h = absurd (omega arith)
get_elem?-set (x ∷ xs) zero zero v h = refl
get_elem?-set (x ∷ xs) zero (suc j) v h = ground arith
get_elem?-set (x ∷ xs) (suc i) zero v h = ground arith
get_elem?-set (x ∷ xs) (suc i) (suc j) v h = ground (arith, get_elem?-set xs i j v)

module _ (k : Bytes) (p : ℕ) (bytes : Bytes) (s : Uploads) (inv : Inv s)
    (here : lookup k s.uploads ≡ some p) where
  pub append_content-Inv : Inv (append_content p bytes s)
  unfolding append_content
  append_content-Inv = record {
    in_heap = λ j q e. ground (arith, inv.in_heap j q, length-set s.heap p (content p s ++ bytes));
    apart = inv.apart;
  }

  content-append_content :
      (q : ℕ)
      → content q (append_content p bytes s)
        ≡ (if p == q then content p s ++ bytes else content q s)
  unfolding append_content content
  content-append_content q =
      let h = get_elem?-set s.heap p q (content p s ++ bytes) (inv.in_heap k p here) in
      elim (Bool-cases (p == q)) [
        | inl y ↦ rw y (ap content_or (rw y at h))
        | inr n ↦ rw n (ap content_or (rw n at h))
      ]

  pub content-append_self : content p (append_content p bytes s) ≡ content p s ++ bytes
  content-append_self = ground (arith, content-append_content p)

  uploads-append_content : (append_content p bytes s).uploads ≡ s.uploads
  unfolding append_content
  uploads-append_content = refl

  -- The bytes go to the upload of the pointer alone.
  pub view-append :
      (j : Bytes)
      → view j (append_content p bytes s)
        ≡ (if equal k j then some (content p s ++ bytes) else view j s)
  unfolding content equal
  view-append j = rw uploads-append_content (elim (Option-cases (lookup j s.uploads)) [
    | inl e ↦ ground (arith, equal_iff k j)
    | inr (q, e) ↦ rw (e, content-append_content q) (ground (arith, equal_iff k j, inv.apart k j p))
  ])
