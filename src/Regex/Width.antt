-- ===== src/Regex/Width.antt =====
-- A pattern without repetition matches texts of a bounded length.
use spongix.Base.{
  ℕ, ◌+◌, ◌≤◌, ◌≡◌, Bool, true, false, ◌&&◌, Bytes, min, length, length-append, arith, subst,
}
use spongix.Regex.{
  Regex, never, empty, cls, any, seq, alt, star, Matches, m_empty, m_cls, m_any, m_seq, m_left,
  m_right, m_stop, m_more,
}

unfoldable pub star_free : Regex → Bool
star_free never = true
star_free empty = true
star_free (cls rs) = true
star_free any = true
star_free (seq r t) = star_free r && star_free t
star_free (alt r t) = star_free r && star_free t
star_free (star r) = false

unfoldable pub width : Regex → ℕ
width never = 0
width empty = 0
width (cls rs) = 1
width any = 1
width (seq r t) = width r + width t
width (alt r t) = width r + width t
width (star r) = 0

pub Matches-width : {r : Regex} {s : Bytes} → Matches r s → star_free r ≡ true → length s ≤ width r
unfolding star_free width
Matches-width m_empty h = omega arith
Matches-width (m_cls m) h = omega arith
Matches-width (m_any m) h = omega arith
Matches-width (m_seq {r} {t} {a} {b} m k e) h =
    subst (λ s. length s ≤ width r + width t) e
      (ground (arith, length-append a b, Matches-width m, Matches-width k))
Matches-width (m_left m) h = ground (arith, Matches-width m)
Matches-width (m_right m) h = ground (arith, Matches-width m)
Matches-width m_stop h = cc
Matches-width (m_more m k e) h = cc

-- No text of the pattern is shorter.
unfoldable pub least : Regex → ℕ
least never = 0
least empty = 0
least (cls rs) = 1
least any = 1
least (seq r t) = least r + least t
least (alt r t) = min (least r) (least t)
least (star r) = 0

pub least-Matches : {r : Regex} {s : Bytes} → Matches r s → least r ≤ length s
unfolding least
least-Matches m_empty = omega arith
least-Matches (m_cls m) = omega arith
least-Matches (m_any m) = omega arith
least-Matches (m_seq {r} {t} {a} {b} m k e) =
    subst (λ s. least r + least t ≤ length s) e
      (omega (arith, length-append a b, least-Matches m, least-Matches k))
least-Matches (m_left m) = omega (arith, least-Matches m)
least-Matches (m_right m) = omega (arith, least-Matches m)
least-Matches m_stop = omega arith
least-Matches (m_more m k e) = omega arith
