-- ===== src/Narinfo/Sanitize/Keeps.antt =====
-- What `SanitizeNar` does to valid records: which it keeps valid, and which it breaks.
use spongix.Base.{
  ◌≡◌, refl, ◌≢◌, ◌↔◌, inl, inr, ◌∙◌, sym, ap, false, ◌∷◌, ◌++◌, Bytes, codes, Lacks, arith,
  append_assoc, Bool-cases, subst,
}
use spongix.Strings.{equal, ext, without_end}
use spongix.Strings.Parts.{equal_iff}
use spongix.Strings.Paths.{ext-append, without_end-append}
use spongix.Regex.{Matches, m_seq, m_left, m_right, m_empty}
use spongix.Regex.Correct.{lit-Matches, Matches-lit}
use spongix.Regex.Avoids.{avoids, Matches-Lacks}
use spongix.Regex.Width.{width, star_free, least, Matches-width, least-Matches}
use spongix.Narinfo.{Narinfo}
use spongix.Narinfo.Validate.{nar_stem, url_end, valid_url, valid_compression, compression_ext}
use spongix.Narinfo.Valid.{IsValid}
use spongix.Narinfo.Sanitize.{sanitize_nar}

-- The three shapes of a valid URL behind its stem `nar/<hash>`.
pub data UrlShape (u : Bytes) : Type 0 where
  drv : (stem : Bytes) → Matches nar_stem stem → u ≡ stem ++ codes ".drv" → UrlShape u
  plain : (stem : Bytes) → Matches nar_stem stem → u ≡ stem ++ codes ".nar" → UrlShape u
  packed :
      (stem e : Bytes)
      → Matches nar_stem stem
      → Matches compression_ext e
      → u ≡ stem ++ (codes ".nar" ++ b'.' ∷ e)
      → UrlShape u

pub url_shape : {u : Bytes} → Matches valid_url u → UrlShape u
unfolding valid_url url_end
url_shape (m_seq {a} h (m_left k) e) =
    let d = lit-Matches (codes ".drv") k in drv a h (sym e ∙ ap (◌++◌ a) d)
url_shape (m_seq {a} h (m_right (m_seq k (m_left m_empty) p)) e) =
    let d = lit-Matches (codes ".nar") k in plain a h (sym e ∙ ap (◌++◌ a) (sym p ∙ rw d))
url_shape (m_seq {a} h (m_right (m_seq k (m_right (m_seq {b} dot m q)) p)) e) =
    let d = lit-Matches (codes ".nar") k in
    let f = lit-Matches (codes ".") dot in
    packed a b h m (sym e ∙ ap (◌++◌ a) (sym p ∙ rw (d, ← q, f)))

-- The URL ends in `.nar` and the extension of a compression.
pub record IsPacked (u : Bytes) : Type 0 where
  pub stem : Bytes
  pub packed_by : Bytes
  pub stem_ok : Matches nar_stem stem
  pub packed_by_ok : Matches compression_ext packed_by
  pub spells : u ≡ stem ++ (codes ".nar" ++ b'.' ∷ packed_by)

chop :
    (p e : Bytes)
    → Lacks b'/' e
    → Lacks b'.' e
    → without_end (p ++ b'.' ∷ e) (ext (p ++ b'.' ∷ e)) ≡ p
chop p e h k = rw (ext-append p e h k) (without_end-append p (b'.' ∷ e))

sanitized_url :
    (info : Narinfo) (p e : Bytes)
    → info.compression ≢ codes "none"
    → info.url ≡ p ++ b'.' ∷ e
    → Lacks b'/' e
    → Lacks b'.' e
    → (sanitize_nar info).url ≡ p
unfolding sanitize_nar
sanitized_url info p e ne u h k = elim (Bool-cases (equal info.compression (codes "none"))) [
  | inl y ↦ absurd (ne ((equal_iff info.compression (codes "none")).0 y))
  | inr n ↦ rw (n, u) (chop p e h k)
]

-- A stem alone is no URL: it is too short.
not-valid_url-stem : {s : Bytes} → Matches nar_stem s → ¬ Matches valid_url s
unfolding valid_url nar_stem url_end star_free width least
not-valid_url-stem m v = omega (arith, Matches-width m refl, least-Matches v)

stem_broken :
    (info : Narinfo) (stem e : Bytes)
    → info.compression ≢ codes "none"
    → Matches nar_stem stem
    → info.url ≡ stem ++ b'.' ∷ e
    → Lacks b'/' e
    → Lacks b'.' e
    → ¬ IsValid (sanitize_nar info)
stem_broken info stem e ne m u h k v =
    not-valid_url-stem m (subst (Matches valid_url) (sanitized_url info stem e ne u h k) v.url_ok)

ext-Lacks : {e : Bytes} → Matches compression_ext e → Lacks b'/' e × Lacks b'.' e
unfolding avoids
ext-Lacks m = (Matches-Lacks b'/' m refl, Matches-Lacks b'.' m refl)

-- The URL of a packed archive becomes that of the archive itself.
pub sanitize_nar_url :
    (info : Narinfo) (p : IsPacked info.url)
    → info.compression ≢ codes "none"
    → (sanitize_nar info).url ≡ p.stem ++ codes ".nar"
sanitize_nar_url info p ne =
    let l = ext-Lacks p.packed_by_ok in
    sanitized_url info (p.stem ++ codes ".nar") p.packed_by ne
      (p.spells ∙ sym (append_assoc p.stem (codes ".nar") (b'.' ∷ p.packed_by))) l.0 l.1

nar_url : {s : Bytes} → Matches nar_stem s → Matches valid_url (s ++ codes ".nar")
unfolding valid_url url_end
nar_url m = m_seq m (m_right (m_seq (Matches-lit (codes ".nar")) (m_left m_empty) refl)) refl

packed-IsValid :
    (info : Narinfo)
    → IsValid info
    → info.compression ≢ codes "none"
    → IsPacked info.url
    → IsValid (sanitize_nar info)
unfolding sanitize_nar valid_compression
packed-IsValid info v ne p = elim (Bool-cases (equal info.compression (codes "none"))) [
  | inl y ↦ absurd (ne ((equal_iff info.compression (codes "none")).0 y))
  | inr n ↦ subst IsValid (sym (changed n)) (record {
    store_path_ok = v.store_path_ok;
    url_ok = subst (Matches valid_url) (sym (sanitize_nar_url info p ne)) (nar_url p.stem_ok);
    compression_ok = m_right (m_left (Matches-lit (codes "none")));
    file_hash_ok = v.nar_hash_ok;
    file_size_ok = v.nar_size_ok;
    nar_hash_ok = v.nar_hash_ok;
    nar_size_ok = v.nar_size_ok;
    references_ok = v.references_ok;
    deriver_ok = v.deriver_ok;
  })
]
  where
    changed :
        equal info.compression (codes "none") ≡ false
        → sanitize_nar info ≡ record info {
          file_hash = info.nar_hash;
          file_size = info.nar_size;
          compression = codes "none";
          url = (sanitize_nar info).url;
        }
    changed n = rw n

-- Of a valid record that names a compression, `SanitizeNar` gives a valid record exactly when the URL
-- ends in the extension of a compression. From `….nar` or `….drv` it cuts the extension that the URL needs.
pub sanitize_nar-IsValid_iff :
    (info : Narinfo)
    → IsValid info
    → info.compression ≢ codes "none"
    → IsValid (sanitize_nar info) ↔ IsPacked info.url
sanitize_nar-IsValid_iff info v ne = (packed_of, packed-IsValid info v ne)
  where
    packed_of : IsValid (sanitize_nar info) → IsPacked info.url
    packed_of w = elim (url_shape v.url_ok) [
      | drv stem m u ↦
          absurd (stem_broken info stem (codes "drv") ne m u (omega arith) (omega arith) w)
      | plain stem m u ↦
          absurd (stem_broken info stem (codes "nar") ne m u (omega arith) (omega arith) w)
      | packed stem e m k u ↦ record {
        stem = stem;
        packed_by = e;
        stem_ok = m;
        packed_by_ok = k;
        spells = u;
      }
    ]

-- A second pass of SanitizeNar changes nothing.
pub sanitize_nar_idem : (info : Narinfo) → sanitize_nar (sanitize_nar info) ≡ sanitize_nar info
unfolding sanitize_nar equal
sanitize_nar_idem info = elim (Bool-cases (equal info.compression (codes "none"))) [
  | inl y ↦ rw (y, y)
  | inr n ↦ rw n
]
