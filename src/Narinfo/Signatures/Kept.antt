-- ===== src/Narinfo/Signatures/Kept.antt =====
-- Which signatures are kept.
use spongix.Base.{
  ◌≡◌, refl, sym, ◌∙◌, true, List, [], ◌∷◌, ◌++◌, Option, none, some, Bytes, codes, Lacks, length,
  ◌==◌, Bool-cases, Option-cases, inl, inr, subst, Filters, done, keep, skip, append-nil,
  append_assoc, ==_iff,
}
use spongix.Strings.{split_pair}
use spongix.Strings.Parts.{split_pair-append, split_pair_sound, split_pair-none}
use spongix.Narinfo.{Narinfo}
use spongix.Narinfo.Signatures.{
  Crypto, Keys, find_key, sign_msg, Verdict, valid, invalid, dropped, Split, add_verdict, judge,
  judge_decoded, classify, classify_all, valid_invalid_signatures, sanitize_signatures,
}

-- A signature is the name of a known key, a colon and the encoding of bytes which that key verifies.
pub record Verifies (c : Crypto) (keys : Keys) (msg s : Bytes) : Type 0 where
  pub name : Bytes
  pub encoded : Bytes
  pub signature : Bytes
  pub key : Bytes
  pub spells : s ≡ name ++ b':' ∷ encoded
  pub name_lacks : Lacks b':' name
  pub decoded : c.decode encoded ≡ some signature
  pub known : find_key name keys ≡ some key
  pub key_size : length key ≡ 32
  pub verified : c.verify_with key msg signature ≡ true

module _ (c : Crypto) (keys : Keys) (msg : Bytes) where
  abbrev Judged : Bytes → Option Verdict → Type 0
  Judged s none = Unit
  Judged s (some valid) = Verifies c keys msg s
  Judged s (some invalid) = ¬ Verifies c keys msg s
  Judged s (some dropped) = ¬ Verifies c keys msg s

  Verifies-parts :
      {s : Bytes} (v : Verifies c keys msg s) → split_pair (codes ":") s ≡ some (v.name, v.encoded)
  Verifies-parts v = rw v.spells (split_pair-append b':' v.name v.encoded v.name_lacks)

  module _ (s name encoded : Bytes) (parts : split_pair (codes ":") s ≡ some (name, encoded)) where
    agree :
        (v : Verifies c keys msg s)
        → (c.decode encoded ≡ some v.signature) × (find_key name keys ≡ some v.key)
    agree v =
        let p = Verifies-parts v in
        let n : v.name ≡ name = cc in
        let m : v.encoded ≡ encoded = cc in
        (
          subst (λ x. c.decode x ≡ some v.signature) m v.decoded,
          subst (λ x. find_key x keys ≡ some v.key) n v.known,
        )

    key-Judged :
        (signature key : Bytes)
        → c.decode encoded ≡ some signature
        → find_key name keys ≡ some key
        → Judged s (judge c msg signature (some key))
    key-Judged signature key d f = elim (Bool-cases (length key == 32)) [
      | inl size ↦ elim (Bool-cases (c.verify_with key msg signature)) [
        | inl good ↦
            let (e, l) = split_pair_sound b':' s parts in
            rw (size, good)
              (record {
                name = name;
                encoded = encoded;
                signature = signature;
                key = key;
                spells = e;
                name_lacks = l;
                decoded = d;
                known = f;
                key_size = (==_iff (length key) 32).0 size;
                verified = good;
              })
        | inr bad ↦ rw (size, bad) (λ v. let (d', f') = agree v in cc)
      ]
      | inr size ↦ rw size tt
    ]

    name-Judged :
        (signature : Bytes) (o : Option Bytes)
        → c.decode encoded ≡ some signature
        → find_key name keys ≡ o
        → Judged s (judge c msg signature o)
    name-Judged signature none d f = λ v. let (d', f') = agree v in cc
    name-Judged signature (some key) d f = key-Judged signature key d f

    decoded-Judged :
        (o : Option Bytes) → c.decode encoded ≡ o → Judged s (judge_decoded c keys msg name o)
    decoded-Judged none d = λ v. let (d', f') = agree v in cc
    decoded-Judged (some signature) d = name-Judged signature (find_key name keys) d refl

  -- The verdict "valid" falls on exactly the signatures that verify.
  classify-Judged : (s : Bytes) → Judged s (classify c keys msg s)
  unfolding classify
  classify-Judged s = elim (Option-cases (split_pair (codes ":") s)) [
    | inl e ↦ rw e tt
    | inr ((name, encoded), e) ↦ rw e (decoded-Judged s name encoded e (c.decode encoded) refl)
  ]

  -- What the loop adds to the valid signatures found so far.
  record Added (sigs : List Bytes) (before after : Split) : Type 0 where
    more : List Bytes
    grown : after.0 ≡ before.0 ++ more
    filtered : Filters (Verifies c keys msg) sigs more

  Added-cons :
      (v : Verdict) (s : Bytes) (sigs : List Bytes) (before after : Split)
      → Judged s (some v)
      → Added sigs (add_verdict v s before) after
      → Added (s ∷ sigs) before after
  unfolding add_verdict
  Added-cons valid s sigs before after j a = record {
    more = s ∷ a.more;
    grown = a.grown ∙ append_assoc before.0 (s ∷ []) a.more;
    filtered = keep j a.filtered;
  }
  Added-cons invalid s sigs before after j a = record {
    more = a.more;
    grown = a.grown;
    filtered = skip j a.filtered;
  }
  Added-cons dropped s sigs before after j a = record {
    more = a.more;
    grown = a.grown;
    filtered = skip j a.filtered;
  }

  classify_all-Added :
      (sigs : List Bytes) (before after : Split)
      → classify_all c keys msg sigs before ≡ some after
      → Added sigs before after
  unfolding classify_all
  classify_all-Added [] before after h =
      let e : before ≡ after = cc in
      record { more = []; grown = rw (← e) (sym (append-nil before.0)); filtered = done }
  classify_all-Added (s ∷ sigs) before after h = elim (Option-cases (classify c keys msg s)) [
    | inl e ↦ absurd (let k = rw e at h in cc)
    | inr (v, e) ↦
        Added-cons v s sigs before after (subst (Judged s) e (classify-Judged s))
          (classify_all-Added sigs (add_verdict v s before) after (rw e at h))
  ]

-- The signatures that are kept are exactly those that verify against the known keys, in order, and nothing
-- else of the record changes.
pub sanitize_signatures-Filters :
    (c : Crypto) (keys : Keys) (info : Narinfo) {r : Narinfo}
    → sanitize_signatures c keys info ≡ some r
    → Filters (Verifies c keys (sign_msg info)) info.sig r.sig × (r ≡ record info { sig = r.sig })
unfolding sanitize_signatures
sanitize_signatures-Filters c keys info {r} h =
    elim (Option-cases (classify_all c keys (sign_msg info) info.sig ([], []))) [
      | inl e ↦ absurd (let k = rw e at h in cc)
      | inr (split, e) ↦
          let a = classify_all-Added c keys (sign_msg info) info.sig ([], []) split e in
          let k = rw e at h in
          let q : record info { sig = split.0 } ≡ r = cc in
          subst
            (λ r.
              Filters (Verifies c keys (sign_msg info)) info.sig r.sig
              × (r ≡ record info { sig = r.sig }))
            q (rw a.grown a.filtered, refl)
    ]

-- A signature of no colon makes the whole call panic, whatever the others are.
pub valid_invalid_signatures_panic :
    (c : Crypto) (keys : Keys) (info : Narinfo) (before after : List Bytes) (s : Bytes)
    → info.sig ≡ before ++ s ∷ after
    → Lacks b':' s
    → valid_invalid_signatures c keys info ≡ none
unfolding valid_invalid_signatures classify_all
valid_invalid_signatures_panic c keys info before after s e h = rw e (stops before ([], []))
  where
    stops :
        (sigs : List Bytes) (split : Split)
        → classify_all c keys (sign_msg info) (sigs ++ s ∷ after) split ≡ none
    stops [] split = rw (split_pair-none b':' s h)
    stops (t ∷ sigs) split = elim (Option-cases (classify c keys (sign_msg info) t)) [
      | inl x ↦ rw x
      | inr (v, x) ↦ rw x (stops sigs (add_verdict v t split))
    ]
