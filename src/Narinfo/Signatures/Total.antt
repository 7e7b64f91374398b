-- ===== src/Narinfo/Signatures/Total.antt =====
-- When the handling of signatures does not panic: every signature has a colon, and the keys have the
-- lengths that ed25519 wants.
use spongix.Base.{
  ℕ, ◌≡◌, refl, List, [], ◌∷◌, ◌++◌, Option, none, some, Bytes, codes, Lacks, length, ◌==◌,
  if◌then◌else◌, true, Bool-cases, inl, inr, All, ==_iff, subst,
}
use spongix.Strings.{equal}
use spongix.Strings.Parts.{split_pair-append}
use spongix.Narinfo.{Narinfo}
use spongix.Narinfo.Signatures.{
  Crypto, Keys, find_key, sign_msg, Split, judge, judge_decoded, classify, classify_all, Verdict,
  add_verdict, sanitize_signatures, signature, sign, is_missing,
}

-- A signature with a colon.
pub record HasColon (s : Bytes) : Type 0 where
  pub name : Bytes
  pub encoded : Bytes
  pub spells : s ≡ name ++ b':' ∷ encoded
  pub name_lacks : Lacks b':' name

-- Every key of the map has the length.
abbrev pub KeysOf : ℕ → Keys → Type 0
KeysOf n = All (λ entry. length entry.1 ≡ n)

abbrev pub Defined {ℓ} : {A : Type ℓ} → Option A → Type ℓ
Defined {A} o = (a : A) × (o ≡ some a)

find_key-length :
    (name : Bytes) (keys : Keys) {key : Bytes}
    → KeysOf 32 keys
    → find_key name keys ≡ some key
    → length key ≡ 32
unfolding find_key
find_key-length name [] k h = cc
find_key-length name ((n, key') ∷ keys) {key} (k, ks) h = elim (Bool-cases (equal n name)) [
  | inl y ↦ let e = rw y at h in let q : key' ≡ key = cc in subst (λ x. length x ≡ 32) q k
  | inr z ↦ find_key-length name keys ks (rw z at h)
]

module _ (c : Crypto) where
  judge-Defined :
      (msg signature : Bytes) (o : Option Bytes)
      → ((key : Bytes) → o ≡ some key → length key ≡ 32)
      → Defined (judge c msg signature o)
  judge-Defined msg signature none h = (Verdict.dropped, refl)
  judge-Defined msg signature (some key) h =
      let size : (length key == 32) ≡ true = (==_iff (length key) 32).1 (h key refl) in
      (if c.verify_with key msg signature then Verdict.valid else Verdict.invalid, rw size)

  judge_decoded-Defined :
      (keys : Keys) (msg name : Bytes) (o : Option Bytes)
      → KeysOf 32 keys
      → Defined (judge_decoded c keys msg name o)
  judge_decoded-Defined keys msg name none k = (Verdict.invalid, refl)
  judge_decoded-Defined keys msg name (some signature) k =
      judge-Defined msg signature (find_key name keys) (λ key e. find_key-length name keys k e)

  classify-Defined :
      (keys : Keys) (msg s : Bytes) → KeysOf 32 keys → HasColon s → Defined (classify c keys msg s)
  unfolding classify
  classify-Defined keys msg s k h =
      rw (h.spells, split_pair-append b':' h.name h.encoded h.name_lacks)
        (judge_decoded-Defined keys msg h.name (c.decode h.encoded) k)

  classify_all-Defined :
      (keys : Keys) (msg : Bytes) (sigs : List Bytes) (split : Split)
      → KeysOf 32 keys
      → All HasColon sigs
      → Defined (classify_all c keys msg sigs split)
  unfolding classify_all
  classify_all-Defined keys msg [] split k h = (split, refl)
  classify_all-Defined keys msg (s ∷ sigs) split k (h, hs) =
      let (v, e) = classify-Defined keys msg s k h in
      rw e (classify_all-Defined keys msg sigs (add_verdict v s split) k hs)

  pub sanitize_signatures-Defined :
      (keys : Keys) (info : Narinfo)
      → KeysOf 32 keys
      → All HasColon info.sig
      → Defined (sanitize_signatures c keys info)
  unfolding sanitize_signatures
  sanitize_signatures-Defined keys info k h =
      let (split, e) = classify_all-Defined keys (sign_msg info) info.sig ([], []) k h in
      (record info { sig = split.0 }, rw e)

  pub sign-Defined :
      (name key : Bytes) (info : Narinfo) → length key ≡ 64 → Defined (sign c name key info)
  unfolding sign
  sign-Defined name key info h =
      let size : (length key == 64) ≡ true = (==_iff (length key) 64).1 h in
      let s = name ++ (codes ":" ++ c.encode (c.sign_with key (sign_msg info))) in
      (if is_missing s info.sig then record info { sig = info.sig ++ s ∷ [] } else info, rw size)
