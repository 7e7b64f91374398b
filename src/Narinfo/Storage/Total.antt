-- ===== src/Narinfo/Storage/Total.antt =====
-- When `PrepareForStorage` does not panic.
use spongix.Base.{◌≡◌, refl, [], ◌∷◌, some, Bool-cases, inl, inr, All, null, codes}
use spongix.Strings.{equal}
use spongix.Narinfo.{Narinfo}
use spongix.Narinfo.Sanitize.{sanitize_nar}
use spongix.Narinfo.Signatures.{Crypto, Keys}
use spongix.Narinfo.Signatures.Total.{
  HasColon, KeysOf, Defined, sanitize_signatures-Defined, sign-Defined,
}
use spongix.Narinfo.Storage.{sign_all, prepared}

sign_all-Defined :
    (c : Crypto) (secret : Keys) (info : Narinfo)
    → KeysOf 64 secret
    → Defined (sign_all c secret info)
unfolding sign_all
sign_all-Defined c [] info k = (info, refl)
sign_all-Defined c ((name, key) ∷ secret) info (k, ks) =
    let (signed, e) = sign-Defined c name key info k in rw e (sign_all-Defined c secret signed ks)

sanitize_nar-sig : (info : Narinfo) → (sanitize_nar info).sig ≡ info.sig
unfolding sanitize_nar
sanitize_nar-sig info = elim (Bool-cases (equal info.compression (codes "none"))) [
  | inl y ↦ rw y
  | inr n ↦ rw n
]

-- Preparing returns a record if every signature has a colon and the keys have their lengths.
pub prepared_total :
    (c : Crypto) (trusted secret : Keys) (info : Narinfo)
    → KeysOf 32 trusted
    → KeysOf 64 secret
    → All HasColon info.sig
    → (r : Narinfo) × (prepared c trusted secret info ≡ some r)
unfolding prepared
prepared_total c trusted secret info k l h =
    let (kept, e) =
      sanitize_signatures-Defined c trusted (sanitize_nar info) k (rw (sanitize_nar-sig info) h) in
    rw e (elim (Bool-cases (null kept.sig)) [
      | inl n ↦ rw n (sign_all-Defined c secret kept l)
      | inr n ↦ rw n (kept, refl)
    ])
