-- ===== src/Cache/Remote/Sound.antt =====
-- What the answer of the remote handler is made of.
use mathlib.Core.Option.{some-injective, none-ne-some}
use spongix.Base.{
  ltb, length, arith, ◌<◌, ℕ, zero, suc, Bytes, List, [], ◌∷◌, ◌++◌, Option, none, some, true,
  get_elem?, ◌≡◌, refl, sym, ap, subst, In, Option-cases, Bool-cases, inl, inr, ◌⊎◌, if◌then◌else◌,
}
use spongix.Base.Options.{◌>>=◌, bind-some}
use spongix.Http.{Response}
use spongix.Cache.Handlers.{Request, Texts}
use spongix.Cache.Upstream.{Reply, Client, is_success}
use spongix.Cache.Remote.{
  cache_chan_size, Urls, exts_for, one_target, targets_of, targets, if_good, good_replies,
  remote_response, answer_first, pick_of, serve_remote,
}

In-get_elem : {A : Type 0} (xs : List A) (i : ℕ) (a : A) → get_elem? xs i ≡ some a → In a xs
In-get_elem [] i a h = cc
In-get_elem (x ∷ xs) zero a h = inl (sym (some-injective x a h))
In-get_elem (x ∷ xs) (suc i) a h = inr (In-get_elem xs i a h)

In-split : {A : Type 0} (a : A) (xs ys : List A) → In a (xs ++ ys) → In a xs ⊎ In a ys
In-split a [] ys h = inr h
In-split a (x ∷ xs) ys (inl e) = inl (inl e)
In-split a (x ∷ xs) ys (inr h) = elim (In-split a xs ys h) [ inl l ↦ inl (inr l) | inr l ↦ inr l ]

module _ (t : Texts) (client : Client) (urls : Urls) (r : Request) where
  -- The URL is that of the request and an ending, resolved from a substituter.
  abbrev pub Resolved : List Bytes → List Bytes → Bytes → Type 0
  Resolved substituters exts url =
      (substituter : Bytes) × (e : Bytes) × In substituter substituters
      × In e exts
      × (urls.resolve substituter (r.url ++ e) ≡ some url)

  -- A substituter answered a request of the same method with success.
  abbrev pub IsGood : List Bytes → Reply → Type 0
  IsGood asked reply =
      (url : Bytes) × In url asked
      × (client.fetch r.method url ≡ some reply)
      × (is_success reply ≡ true)

  one_target-In :
      (url : Bytes) (rest found : List Bytes) (o : Option Bytes)
      → one_target t client urls r rest o ≡ some found
      → In url found
      → (o ≡ some url) ⊎ In url rest
  one_target-In url rest found none h i = inr (subst (In url) (sym (some-injective rest found h)) i)
  one_target-In url rest found (some u) h i = elim (Bool-cases (urls.can_request r.method u)) [
    | inl y ↦ elim (subst (In url) (sym (some-injective (u ∷ rest) found (rw y at h))) i) [
      | inl e ↦ inl (ap some (sym e))
      | inr l ↦ inr l
    ]
    | inr n ↦ cc
  ]

  targets_of-In :
      (s url : Bytes) (exts found : List Bytes)
      → targets_of t client urls r s exts ≡ some found
      → In url found
      → (e : Bytes) × In e exts × (urls.resolve s (r.url ++ e) ≡ some url)
  unfolding targets_of
  targets_of-In s url [] found h i = elim (subst (In url) (sym (some-injective [] found h)) i) [ ]
  targets_of-In s url (e ∷ exts) found h i =
      let (rest, known, h') =
        bind-some (targets_of t client urls r s exts)
          (λ rest. one_target t client urls r rest (urls.resolve s (r.url ++ e))) found h in
      elim (one_target-In url rest found (urls.resolve s (r.url ++ e)) h' i) [
        | inl here ↦ (e, inl refl, here)
        | inr l ↦ let (e', i', there) = targets_of-In s url exts rest known l in (e', inr i', there)
      ]

  targets-Resolved :
      (url : Bytes) (substituters exts found : List Bytes)
      → targets t client urls r substituters exts ≡ some found
      → In url found
      → Resolved substituters exts url
  unfolding targets
  targets-Resolved url [] exts found h i =
      elim (subst (In url) (sym (some-injective [] found h)) i) [ ]
  targets-Resolved url (s ∷ substituters) exts found h i =
      let (mine, known, h') =
        bind-some (targets_of t client urls r s exts)
          (λ mine. targets t client urls r substituters exts >>= λ more. some (mine ++ more)) found
          h in
      let (more, known', h'') =
        bind-some (targets t client urls r substituters exts) (λ more. some (mine ++ more)) found
          h' in
      elim (In-split url mine more
        (subst (In url) (sym (some-injective (mine ++ more) found h'')) i)) [
          | inl l ↦
              let (e, i', here) = targets_of-In s url exts mine known l in
              (s, e, inl refl, i', here)
          | inr l ↦
              let (s', e, j, i', there) = targets-Resolved url substituters exts more known' l in
              (s', e, inr j, i', there)
        ]

  In-if_good :
      (reply : Reply) (rest : List Reply) (o : Option Reply)
      → In reply (if_good t client urls r rest o)
      → ((o ≡ some reply) × (is_success reply ≡ true)) ⊎ In reply rest
  In-if_good reply rest none i = inr i
  In-if_good reply rest (some other) i = elim (Bool-cases (is_success other)) [
    | inl y ↦ elim (subst (λ b. In reply (if b then other ∷ rest else rest)) y i) [
      | inl e ↦ inl (ap some (sym e), subst (λ z. is_success z ≡ true) (sym e) y)
      | inr l ↦ inr l
    ]
    | inr n ↦ inr (subst (λ b. In reply (if b then other ∷ rest else rest)) n i)
  ]

  good_replies-IsGood :
      (reply : Reply) (asked : List Bytes)
      → In reply (good_replies t client urls r asked)
      → IsGood asked reply
  unfolding good_replies
  good_replies-IsGood reply (url ∷ asked) i =
      elim (In-if_good reply (good_replies t client urls r asked) (client.fetch r.method url) i) [
        | inl (here, good) ↦ (url, inl refl, here, good)
        | inr l ↦
            let (url', j, there, good) = good_replies-IsGood reply asked l in
            (url', inr j, there, good)
      ]
  good_replies-IsGood reply [] i = elim i [ ]

  picked_In :
      (pick : Option ℕ) (replies : List Reply) (reply : Reply)
      → pick_of t client urls r pick replies ≡ some reply
      → In reply replies
  picked_In none replies reply h = cc
  picked_In (some i) replies reply h = In-get_elem replies i reply h

  -- What the select comes to: nothing, or a reply, if the channel has a place.
  answer_first-cases :
      (queue queue' : List Bytes) (next a : Response) (o : Option Reply)
      → answer_first t client urls r next queue o ≡ some (queue', a)
      → ((queue' ≡ queue) × (a ≡ next))
        ⊎ ((reply : Reply) × (o ≡ some reply)
            × ((queue' ≡ queue ++ reply.url ∷ []) × (a ≡ remote_response t client urls r reply))
            × (length queue < cache_chan_size))
  answer_first-cases queue queue' next a none h =
      let same = some-injective (queue, next) (queue', a) h in
      inl (sym (ap (λ p. p.0) same), sym (ap (λ p. p.1) same))
  answer_first-cases queue queue' next a (some reply) h =
      elim (Bool-cases (ltb (length queue) cache_chan_size)) [
        | inl room ↦
            let same =
              some-injective (queue ++ reply.url ∷ [], remote_response t client urls r reply)
                (queue', a) (rw room at h) in
            inr (reply, refl, (sym (ap (λ p. p.0) same), sym (ap (λ p. p.1) same)), ground arith)
        | inr full ↦ absurd (none-ne-some (queue', a) (rw full at h))
      ]

  -- Every answer of the remote handler is that of the handler behind it, with no URL queued for the cache,
  -- or the body of an answer with success, which is queued in a free place of the channel, to a request of
  -- the same method for the URL of the request and one of the endings that its extension asks for,
  -- resolved from a substituter.
  pub serve_remote-Resolved :
      (substituters exts queue queue' : List Bytes) (pick : Option ℕ) (next a : Response)
      → serve_remote t client urls r substituters exts pick next queue ≡ some (queue', a)
      → ((queue' ≡ queue) × (a ≡ next))
        ⊎ ((endings : List Bytes) × (url : Bytes) × (reply : Reply) × (exts_for r.url exts
              ≡ some endings)
            × (Resolved substituters endings url
                × ((client.fetch r.method url ≡ some reply)
                    × ((is_success reply ≡ true)
                        × (((queue' ≡ queue ++ reply.url ∷ [])
                              × (a ≡ remote_response t client urls r reply))
                            × (length queue < cache_chan_size))))))
  unfolding serve_remote
  serve_remote-Resolved substituters exts queue queue' pick next a h =
      elim (Option-cases (exts_for r.url exts)) [
        | inl e ↦
            let same = some-injective (queue, next) (queue', a) (rw e at h) in
            inl (sym (ap (λ p. p.0) same), sym (ap (λ p. p.1) same))
        | inr (endings, e) ↦
            let picked : List Bytes → Option Reply =
              λ asked. pick_of t client urls r pick (good_replies t client urls r asked) in
            let (asked, known, h') =
              bind-some (targets t client urls r substituters endings)
                (λ asked. answer_first t client urls r next queue (picked asked)) (queue', a)
                (rw e at h) in
            elim (answer_first-cases queue queue' next a (picked asked) h') [
              | inl passed ↦ inl passed
              | inr (reply, chosen, sent, room) ↦
                  let (url, i, got, good) =
                    good_replies-IsGood reply asked
                      (picked_In pick (good_replies t client urls r asked) reply chosen) in
                  inr (
                    endings,
                    url,
                    reply,
                    e,
                    (
                      targets-Resolved url substituters endings asked known i,
                      (got, (good, (sent, room))),
                    ),
                  )
            ]
      ]
