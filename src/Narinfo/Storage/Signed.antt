-- ===== src/Narinfo/Storage/Signed.antt =====
-- Every narinfo that is stored carries signatures that verify.
use mathlib.Core.List.{concat-ne-nil}
use spongix.Base.{
  ◌≡◌, refl, sym, ap, ◌∙◌, ◌≢◌, ◌⊎◌, Bool, true, false, List, [], ◌∷◌, ◌++◌, some, Bytes, codes,
  Lacks, length, ◌==◌, if◌then◌else◌, Bool-cases, Option-cases, inl, inr, subst, Filters-All, All,
  All-append, ==_iff, null,
}
use spongix.Strings.{equal}
use spongix.Narinfo.{Narinfo}
use spongix.Narinfo.Signatures.{
  Crypto, Keys, find_key, sign_msg, signature, sign, is_missing, sanitize_signatures,
}
use spongix.Narinfo.Signatures.Kept.{Verifies, sanitize_signatures-Filters}
use spongix.Narinfo.Sanitize.{sanitize_nar}
use spongix.Narinfo.Storage.{sign_all, prepared}

-- A secret key is trusted if its name, which has no colon, stands for its public half.
abbrev pub IsTrusted : Crypto → Keys → Bytes × Bytes → Type 0
IsTrusted c trusted (name, key) =
    Lacks b':' name × (find_key name trusted ≡ some (c.public_key key))

abbrev with_sig : List Bytes → Narinfo → Narinfo
with_sig sigs info = record info { sig = sigs }

module _ (c : Crypto) (trusted : Keys) where
  same_msg : (info r : Narinfo) → r ≡ record info { sig = r.sig } → sign_msg r ≡ sign_msg info
  unfolding sign_msg
  same_msg info r e = ap sign_msg e

  signature-Verifies :
      (name key : Bytes) (info : Narinfo) {s : Bytes}
      → IsTrusted c trusted (name, key)
      → signature c name key info ≡ some s
      → Verifies c trusted (sign_msg info) s
  unfolding signature
  signature-Verifies name key info {s} (l, f) h = elim (Bool-cases (length key == 64)) [
    | inl size ↦
        let n = (==_iff (length key) 64).0 size in
        let k = rw size at h in
        record {
          name = name;
          encoded = c.encode (c.sign_with key (sign_msg info));
          signature = c.sign_with key (sign_msg info);
          key = c.public_key key;
          spells = cc;
          name_lacks = l;
          decoded = c.decode-encode (c.sign_with key (sign_msg info));
          known = f;
          key_size = c.public_key_length key n;
          verified = c.verify_signed key (sign_msg info) n;
        }
    | inr size ↦ absurd (let k = rw size at h in cc)
  ]

  abbrev AllVerify : Narinfo → List Bytes → Type 0
  AllVerify info = All (Verifies c trusted (sign_msg info))

  -- What signing keeps and gives.
  record Signs (info r : Narinfo) : Type 0 where
    same : r ≡ record info { sig = r.sig }
    verify : AllVerify info info.sig → AllVerify info r.sig
    some_sig : r.sig ≢ []

  sign_with_signature :
      (info : Narinfo) (s : Bytes) (missing : Bool)
      → is_missing s info.sig ≡ missing
      → Verifies c trusted (sign_msg info) s
      → Signs info (if missing then record info { sig = info.sig ++ s ∷ [] } else info)
  unfolding is_missing
  sign_with_signature info s true e v = record {
    same = refl;
    verify = λ h. All-append (Verifies c trusted (sign_msg info)) info.sig (s ∷ []) h (v, tt);
    some_sig = concat-ne-nil s info.sig;
  }
  sign_with_signature info s false e v = record {
    same = refl;
    verify = λ h. h;
    some_sig = λ n. let k = ap (is_missing s) n in cc;
  }

  sign-Signs :
      (name key : Bytes) (info : Narinfo) {r : Narinfo}
      → IsTrusted c trusted (name, key)
      → sign c name key info ≡ some r
      → Signs info r
  unfolding sign
  sign-Signs name key info t h = elim (Option-cases (signature c name key info)) [
    | inl e ↦ absurd (let k = rw e at h in cc)
    | inr (s, e) ↦
        let k = rw e at h in
        subst (Signs info) (cc) (
          sign_with_signature info s (is_missing s info.sig) refl
            (signature-Verifies name key info t e))
  ]

  -- Signing with every key of a list.
  record SignsAll (secret : Keys) (info r : Narinfo) : Type 0 where
    same : r ≡ record info { sig = r.sig }
    verify : AllVerify info info.sig → AllVerify info r.sig
    some_sig : (secret ≢ []) ⊎ (info.sig ≢ []) → r.sig ≢ []

  sign_all-SignsAll :
      (secret : Keys) (info : Narinfo) {r : Narinfo}
      → All (IsTrusted c trusted) secret
      → sign_all c secret info ≡ some r
      → SignsAll secret info r
  unfolding sign_all
  sign_all-SignsAll [] info {r} t h =
      let e : info ≡ r = cc in
      subst (SignsAll [] info) e (record {
        same = refl;
        verify = λ v. v;
        some_sig = λ p. elim p [ inl n ↦ absurd (n refl) | inr n ↦ n ];
      })
  sign_all-SignsAll ((name, key) ∷ secret) info {r} (t, ts) h =
      elim (Option-cases (sign c name key info)) [
        | inl e ↦ absurd (let k = rw e at h in cc)
        | inr (info', e) ↦
            let first = sign-Signs name key info t e in
            let rest = sign_all-SignsAll secret info' ts (rw e at h) in
            record {
              same = rest.same ∙ ap (with_sig r.sig) first.same;
              verify = λ v.
                  subst (λ m. All (Verifies c trusted m) r.sig) (same_msg info info' first.same)
                    (rest.verify (
                      subst (λ m. All (Verifies c trusted m) info'.sig)
                        (sym (same_msg info info' first.same)) (first.verify v)));
              some_sig = λ _. rest.some_sig (inr first.some_sig);
            }
      ]

  -- The record to be stored, once the signatures that do not verify are gone.
  stored :
      (secret : Keys) (base kept r : Narinfo)
      → All (IsTrusted c trusted) secret
      → secret ≢ []
      → kept ≡ record base { sig = kept.sig }
      → AllVerify base kept.sig
      → (if null kept.sig then sign_all c secret kept else some kept) ≡ some r
      → (r ≡ record base { sig = r.sig }) × (r.sig ≢ []) × AllVerify base r.sig
  stored secret base kept r t ne e v h = elim (Bool-cases (null kept.sig)) [
    | inl n ↦
        let a = sign_all-SignsAll secret kept t (rw n at h) in
        (
          a.same ∙ ap (with_sig r.sig) e,
          a.some_sig (inl ne),
          subst (λ m. All (Verifies c trusted m) r.sig) (same_msg base kept e)
              (a.verify
                (subst (λ m. All (Verifies c trusted m) kept.sig) (sym (same_msg base kept e)) v)),
        )
    | inr n ↦
        let k = rw n at h in
        let q : kept ≡ r = cc in
        subst (λ r. (r ≡ record base { sig = r.sig }) × (r.sig ≢ []) × AllVerify base r.sig) q
          (e, (λ z. let w = ap null z in cc), v)
  ]

-- `SanitizeNar` does not change the message that is signed.
pub sign_msg-sanitize_nar : (info : Narinfo) → sign_msg (sanitize_nar info) ≡ sign_msg info
unfolding sign_msg sanitize_nar
sign_msg-sanitize_nar info = elim (Bool-cases (equal info.compression (codes "none"))) [
  | inl y ↦ rw y
  | inr n ↦ rw n
]

-- With at least one secret key, each trusted under its name, a narinfo that is prepared for storage is
-- signed: it has a signature, all of its signatures verify against the trusted keys for the message of
-- the narinfo that came in, and beside the signatures it differs from that one as `SanitizeNar` says.
pub prepared_signed :
    (c : Crypto) (trusted secret : Keys) (info : Narinfo) {r : Narinfo}
    → All (IsTrusted c trusted) secret
    → secret ≢ []
    → prepared c trusted secret info ≡ some r
    → (r ≡ record (sanitize_nar info) { sig = r.sig })
      × (r.sig ≢ [])
      × All (Verifies c trusted (sign_msg info)) r.sig
unfolding prepared
prepared_signed c trusted secret info {r} t ne h =
    elim (Option-cases (sanitize_signatures c trusted (sanitize_nar info))) [
      | inl e ↦ absurd (let k = rw e at h in cc)
      | inr (kept, e) ↦
          let (f, same) = sanitize_signatures-Filters c trusted (sanitize_nar info) e in
          let (a, b, d) =
            stored c trusted secret (sanitize_nar info) kept r t ne same (Filters-All f)
              (rw e at h) in
          (a, b, subst (λ m. All (Verifies c trusted m) r.sig) (sign_msg-sanitize_nar info) d)
    ]
