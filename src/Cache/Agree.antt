-- ===== src/Cache/Agree.antt =====
-- The names of the indices: the URLs of one archive share one, and no name leaves the directory.
use mathlib.Core.Option.{some-injective, none-ne-some}
use mathlib.Core.List.{reverse-cons, reverse-append}
use spongix.Base.{
  Bytes, List, [], ◌∷◌, ◌++◌, some, Bool, true, false, codes, reverse, null, ◌==◌, ◌||◌,
  if◌then◌else◌, ◌≡◌, ◌≢◌, refl, sym, ap, ◌∙◌, Lacks, All, All-append, arith, Bool-cases, inl, inr,
  append-nil, ◌⊎◌, subst,
}
use spongix.Strings.{equal, strip_prefix, split_pair, split, join}
use spongix.Strings.Parts.{split_last, split-join, split-Lacks, equal_iff}
use spongix.Cache.Names.{
  url_to_index_name, rel_root, clean_parts, has_prefix, has_suffix, replace_first, without_cache,
  without_xz, or_dot, dropped,
}

-- The path of an archive, with or without the older prefix and with or without compression.
abbrev pub nar_path : Bool → Bool → Bytes → Bytes
nar_path cached xz hash =
    (if cached then codes "/cache" else [])
    ++ (codes "/nar/" ++ (hash ++ (codes ".nar" ++ (if xz then codes ".xz" else []))))

-- A text that begins with a dot is found behind a text with none.
split_pair-dot :
    (sep a s : Bytes) (rest : Bytes)
    → Lacks b'.' a
    → strip_prefix (b'.' ∷ sep) s ≡ some rest
    → split_pair (b'.' ∷ sep) (a ++ s) ≡ some (a, rest)
unfolding split_pair strip_prefix
split_pair-dot sep [] [] rest h e = cc
split_pair-dot sep [] (c ∷ s) rest h e = rw e refl
split_pair-dot sep (c ∷ a) s rest (hc, h) e = rw (split_pair-dot sep a s rest h e) (ground arith)

without_xz-xz : (a : Bytes) → Lacks b'.' a → without_xz (a ++ codes ".nar.xz") ≡ a ++ codes ".nar"
unfolding without_xz has_suffix replace_first strip_prefix
without_xz-xz a h =
    rw
      (
        reverse-append a (codes ".nar.xz"),
        split_pair-dot (codes "nar.xz") a (codes ".nar.xz") [] h refl,
      )
      (append-nil (a ++ codes ".nar"))

without_xz-nar : (a : Bytes) → without_xz (a ++ codes ".nar") ≡ a ++ codes ".nar"
unfolding without_xz has_suffix strip_prefix
without_xz-nar a = rw (reverse-append a (codes ".nar")) refl

element_kept :
    (h : Bytes)
    → Lacks b'.' h
    → clean_parts (codes "nar" ∷ []) ((h ++ codes ".nar") ∷ [])
      ≡ codes "nar" ∷ (h ++ codes ".nar") ∷ []
unfolding clean_parts equal
element_kept [] dot = refl
element_kept (c ∷ h) (hc, dot) = ground arith

rel_root-nar :
    (hash : Bytes)
    → Lacks b'/' hash
    → Lacks b'.' hash
    → rel_root (codes "/nar/" ++ hash ++ codes ".nar") ≡ some (codes "nar/" ++ hash ++ codes ".nar")
unfolding rel_root split clean_parts join equal
rel_root-nar hash slash dot =
    rw
      (split_last b'/' (hash ++ codes ".nar") (
        All-append (λ c. c ≢ b'/') hash (codes ".nar") slash
          (omega arith, (omega arith, (omega arith, (omega arith, tt))))))
      (ap (λ ps. some (or_dot ps)) (element_kept hash dot))

without_xz-both :
    (xz : Bool) (a : Bytes)
    → Lacks b'.' a
    → without_xz (a ++ (codes ".nar" ++ (if xz then codes ".xz" else []))) ≡ a ++ codes ".nar"
without_xz-both true a h = without_xz-xz a h
without_xz-both false a h = without_xz-nar a

without_cache-both :
    (cached : Bool) (s : Bytes)
    → without_cache ((if cached then codes "/cache" else []) ++ (codes "/nar/" ++ s))
      ≡ codes "/nar/" ++ s
unfolding without_cache has_prefix replace_first split_pair strip_prefix
without_cache-both true s = refl
without_cache-both false s = refl

-- The four URLs of the archive of a hash without dot and slash name one index: with or without the
-- prefix /cache, with or without the ending .xz.
pub url_to_index_name-nar :
    (cached xz : Bool) (hash : Bytes)
    → Lacks b'/' hash
    → Lacks b'.' hash
    → url_to_index_name (nar_path cached xz hash) ≡ some (codes "nar/" ++ hash ++ codes ".nar")
unfolding url_to_index_name
url_to_index_name-nar cached xz hash slash dot =
    ap (λ z. rel_root (without_xz z))
      (without_cache-both cached (hash ++ (codes ".nar" ++ (if xz then codes ".xz" else []))))
    ∙ ap rel_root (
        without_xz-both xz (codes "/nar/" ++ hash)
          (omega arith, (omega arith, (omega arith, (omega arith, (omega arith, dot))))))
    ∙ rel_root-nar hash slash dot

-- An element of a path that leads down: not empty, no dot and not two dots.
abbrev pub Below : Bytes → Type 0
Below p = (p ≢ []) × ((p ≢ codes ".") × (p ≢ codes ".."))

-- An element that leads down, and has no slash.
abbrev Element : Bytes → Type 0
Element p = Below p × Lacks b'/' p

dropped-Element : (ps : List Bytes) → All Element ps → All Element (dropped ps)
dropped-Element [] h = tt
dropped-Element (p ∷ ps) h = h.1

reverse-Element : (ps : List Bytes) → All Element ps → All Element (reverse ps)
reverse-Element [] h = tt
reverse-Element (p ∷ ps) (hp, h) =
    rw (reverse-cons p ps)
      (All-append Element (reverse ps) (p ∷ []) (reverse-Element ps h) (hp, tt))

clean_parts-Element :
    (kept ps : List Bytes)
    → All Element kept
    → All (Lacks b'/') ps
    → All Element (clean_parts kept ps)
unfolding clean_parts
clean_parts-Element kept [] h k = reverse-Element kept h
clean_parts-Element kept (p ∷ ps) h (kp, k) = elim (Bool-cases (null p || equal p (codes "."))) [
  | inl skip ↦ rw skip (clean_parts-Element kept ps h k)
  | inr other ↦ rw other (elim (Bool-cases (equal p (codes ".."))) [
    | inl up ↦ rw up (clean_parts-Element (dropped kept) ps (dropped-Element kept h) k)
    | inr down ↦ rw down (
        clean_parts-Element (p ∷ kept) ps
          (((ground (arith, equal_iff p (codes "."), equal_iff p (codes ".."))), kp), h) k)
  ])
]

-- The elements between the slashes of a path that was put together of such elements are these.
or_dot-Below :
    (ps : List Bytes)
    → All Element ps
    → (or_dot ps ≡ codes ".") ⊎ All Below (split b'/' (or_dot ps))
or_dot-Below [] h = inl refl
or_dot-Below (p ∷ ps) h = inr (
    subst (All Below) (sym (split-join b'/' (p ∷ ps) (λ e. cc) (All-map (p ∷ ps) h)))
      (All-below (p ∷ ps) h))
  where
    All-map : (qs : List Bytes) → All Element qs → All (Lacks b'/') qs
    All-map [] k = tt
    All-map (q ∷ qs) ((b, l), k) = (l, All-map qs k)

    All-below : (qs : List Bytes) → All Element qs → All Below qs
    All-below [] k = tt
    All-below (q ∷ qs) ((b, l), k) = (b, All-below qs k)

rel_root-Below :
    (path name : Bytes)
    → rel_root path ≡ some name
    → (name ≡ codes ".") ⊎ All Below (split b'/' name)
unfolding rel_root
rel_root-Below [] name h = cc
rel_root-Below (c ∷ s) name h = elim (Bool-cases (c == b'/')) [
  | inl y ↦
      let ps = clean_parts [] (split b'/' s) in
      subst (λ z. (z ≡ codes ".") ⊎ All Below (split b'/' z))
        (some-injective (or_dot ps) name (rw y at h))
        (or_dot-Below ps (clean_parts-Element [] (split b'/' s) tt (split-Lacks b'/' s)))
  | inr n ↦ absurd (none-ne-some name (rw n at h))
]

-- Whatever the path of the URL is, the name of its index is a dot, or none of the elements between the
-- slashes of the name is empty, a dot or two dots: the name is relative and never leads up.
pub url_to_index_name-Below :
    (path name : Bytes)
    → url_to_index_name path ≡ some name
    → (name ≡ codes ".") ⊎ All Below (split b'/' name)
unfolding url_to_index_name
url_to_index_name-Below path name h = rel_root-Below (without_xz (without_cache path)) name h
