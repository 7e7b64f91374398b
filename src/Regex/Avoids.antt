-- ===== src/Regex/Avoids.antt =====
-- A byte that a pattern never takes does not occur in what it matches.
use spongix.Base.{
  ℕ, ◌≡◌, ◌≢◌, Bool, true, ◌∷◌, Bytes, Lacks, All-append, newline, ◌==◌, arith, subst, ◌&&◌, not,
  ap,
}
use spongix.Regex.{
  Regex, never, empty, cls, any, seq, alt, star, Matches, m_empty, m_cls, m_any, m_seq, m_left,
  m_right, m_stop, m_more, in_class,
}

-- No class of the pattern holds the byte; `.` takes all but the newline.
unfoldable pub avoids : ℕ → Regex → Bool
unfolding in_class
avoids b never = true
avoids b empty = true
avoids b (cls rs) = not (in_class rs b)
avoids b any = b == newline
avoids b (seq r t) = avoids b r && avoids b t
avoids b (alt r t) = avoids b r && avoids b t
avoids b (star r) = avoids b r

pub Matches-Lacks : {r : Regex} {s : Bytes} (b : ℕ) → Matches r s → avoids b r ≡ true → Lacks b s
unfolding avoids
Matches-Lacks b m_empty h = tt
Matches-Lacks b (m_cls {rs} {c} m) h = ((λ (e : c ≡ b). ground (arith, ap (in_class rs) e)), tt)
Matches-Lacks b (m_any {c} m) h = ((λ (e : c ≡ b). ground arith), tt)
Matches-Lacks b (m_seq {a} {b = d} m k e) h = subst (Lacks b) e (
    All-append (λ c. c ≢ b) a d (Matches-Lacks b m (ground arith))
      (Matches-Lacks b k (ground arith)))
Matches-Lacks b (m_left m) h = Matches-Lacks b m (ground arith)
Matches-Lacks b (m_right m) h = Matches-Lacks b m (ground arith)
Matches-Lacks b m_stop h = tt
Matches-Lacks b (m_more {c} {a} {b = d} m k e) h =
    subst (Lacks b) e
      (All-append (λ c. c ≢ b) (c ∷ a) d (Matches-Lacks b m h) (Matches-Lacks b k h))
