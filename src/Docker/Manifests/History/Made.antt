-- ===== src/Docker/Manifests/History/Made.antt =====
-- The history for a configuration whose ids are digests of SHA-256.
use spongix.Base.{
  ℕ, zero, suc, ◌+◌, ◌-◌, ◌≤◌, ◌<◌, ◌==◌, Bytes, List, [], ◌∷◌, ◌++◌, Option, none, some, true,
  false, codes, if◌then◌else◌, ◌&&◌, not, ltb, length, get_elem?, drop_next, ◌≡◌, refl, arith, inl,
  inr, ◌⊎◌,
}
use spongix.Strings.{equal}
use spongix.Docker.Manifests.History.{
  Value, text, literal, Values, end, item, Fields, field, value_at, panic, made, index_of, id_at,
  diff_ids, with_config, created, entry_fields, history_from,
}

-- The field diff_ids of an image whose layers have these ids.
abbrev pub digests : List Bytes → Values
digests [] = end
digests (id ∷ ids) = item (text (codes "sha256:" ++ id)) (digests ids)

index_of-digests :
    (ids : List Bytes) (i : ℕ) (id : Bytes)
    → get_elem? ids i ≡ some id
    → index_of (digests ids) i ≡ some (text (codes "sha256:" ++ id))
index_of-digests [] i id h = cc
index_of-digests (x ∷ ids) zero id h = cc
index_of-digests (x ∷ ids) (suc i) id h = index_of-digests ids i id h

index_of-end : (ids : List Bytes) (i : ℕ) → length ids ≤ i → index_of (digests ids) i ≡ none
index_of-end [] i h = refl
index_of-end (x ∷ ids) zero h = absurd (omega arith)
index_of-end (x ∷ ids) (suc i) h = index_of-end ids i (omega arith)

id_at-digests :
    (ids : List Bytes) (i : ℕ) (id : Bytes)
    → get_elem? ids i ≡ some id
    → id_at (digests ids) i ≡ made id
unfolding id_at
id_at-digests ids i id h = rw (index_of-digests ids i id h) refl

id_at-end : (ids : List Bytes) (i : ℕ) → length ids ≤ i → id_at (digests ids) i ≡ panic
unfolding id_at
id_at-end ids i h = rw (index_of-end ids i h) refl

abbrev pub text_or_nil : Option Bytes → Value
text_or_nil none = literal (codes "null")
text_or_nil (some s) = text s

-- The id of the layer `i`, and nil if there are not so many layers.
abbrev pub id_value : List Bytes → ℕ → ℕ → Value
id_value ids n i = text_or_nil (if ltb i n then get_elem? ids i else none)

-- The entry names the layer `i` of `n` and the one behind it, if there is one; only the first one has
-- the configuration.
abbrev pub IsEntry : Fields → List Bytes → ℕ → ℕ → Fields → Type 0
IsEntry cfg ids n i m =
    (value_at (codes "id") m ≡ id_value ids n i)
    × ((value_at (codes "parent") m ≡ id_value ids n (i + 1))
        × (value_at (codes "config") m
            ≡ (if i == 0 then value_at (codes "config") cfg else literal (codes "null"))))

-- Whether there is a layer behind `i`.
module _ (n i : ℕ) where
  has_next : i + 1 < n → ((ltb 1 n && not (i == n - 1)) ≡ true) × (ltb (i + 1) n ≡ true)
  has_next h = (ground arith, ground arith)

  is_last : i < n → n ≤ i + 1 → ((ltb 1 n && not (i == n - 1)) ≡ false) × (ltb (i + 1) n ≡ false)
  is_last h k = (ground arith, ground arith)

  inside : i < n → ltb i n ≡ true
  inside h = ground arith

pub next_cases : (n i : ℕ) → (i + 1 < n) ⊎ (n ≤ i + 1)
next_cases n i = omega arith

-- The keys of an entry, with its parent and without.
config_fields :
    (i : ℕ) (cfg : Fields) (id next : Bytes)
    → let a = with_config i cfg (field (codes "parent") (text next) (created id)) in
      let b = with_config i cfg (created id) in
      let config = if i == 0 then value_at (codes "config") cfg else literal (codes "null") in
      ((value_at (codes "id") a ≡ text id)
        × ((value_at (codes "parent") a ≡ text next) × (value_at (codes "config") a ≡ config)))
      × ((value_at (codes "id") b ≡ text id)
          × ((value_at (codes "parent") b ≡ literal (codes "null"))
              × (value_at (codes "config") b ≡ config)))
unfolding value_at equal
config_fields zero cfg id next = ((refl, (refl, refl)), (refl, (refl, refl)))
config_fields (suc i) cfg id next =
    let positive : (suc i == 0) ≡ false = ground arith in
    rw positive ((refl, (refl, refl)), (refl, (refl, refl)))

fields-IsEntry :
    (cfg : Fields) (ids : List Bytes) (n i : ℕ)
    → i < n
    → n ≤ length ids
    → (m : Fields) × (entry_fields cfg (digests ids) n i ≡ made m) × IsEntry cfg ids n i m
unfolding entry_fields value_at equal
fields-IsEntry cfg ids n i h k =
    let (id, found, _) = drop_next ids i (omega arith) in
    elim (next_cases n i) [
      | inl more ↦
          let (next, found', _) = drop_next ids (i + 1) (omega arith) in
          let (a, b) = has_next n i more in
          rw
            (
              id_at-digests ids i id found,
              a,
              b,
              inside n i h,
              found,
              id_at-digests ids (i + 1) next found',
              found',
            )
            (
              with_config i cfg (field (codes "parent") (text next) (created id)),
              refl,
              (config_fields i cfg id next).0,
            )
      | inr last ↦
          let (a, b) = is_last n i h last in
          rw (id_at-digests ids i id found, a, b, inside n i h, found)
            (with_config i cfg (created id), refl, (config_fields i cfg id []).1)
    ]

pub le_cases : (a b : ℕ) → (a ≤ b) ⊎ (b < a)
le_cases a b = omega arith

fields_short :
    (cfg : Fields) (ids : List Bytes) (n i : ℕ)
    → i < n
    → length ids ≤ i + 1
    → length ids < n
    → entry_fields cfg (digests ids) n i ≡ panic
unfolding entry_fields
fields_short cfg ids n i h k short = elim (le_cases (length ids) i) [
  | inl out ↦ rw (id_at-end ids i out) refl
  | inr at ↦
      let (id, found, _) = drop_next ids i at in
      rw (id_at-digests ids i id found, (has_next n i (omega arith)).0, id_at-end ids (i + 1) k)
        refl
]

fields_made :
    (cfg : Fields) (ids : List Bytes) (n i : ℕ)
    → i < n
    → i + 1 < length ids
    → (m : Fields) × (entry_fields cfg (digests ids) n i ≡ made m)
unfolding entry_fields
fields_made cfg ids n i h k =
    let (id, found, _) = drop_next ids i (omega arith) in
    let (next, found', _) = drop_next ids (i + 1) k in
    elim (next_cases n i) [
      | inl more ↦
          rw
            (
              id_at-digests ids i id found,
              (has_next n i more).0,
              id_at-digests ids (i + 1) next found',
            )
            (with_config i cfg (field (codes "parent") (text next) (created id)), refl)
      | inr last ↦
          rw (id_at-digests ids i id found, (is_last n i h last).0)
            (with_config i cfg (created id), refl)
    ]

module _ (marshal : Fields → Option Bytes) where
  -- The entries for the layers from `i` on.
  abbrev pub IsHistory : Fields → List Bytes → ℕ → ℕ → List Bytes → Type 0
  IsHistory cfg ids n i [] = n ≡ i
  IsHistory cfg ids n i (c ∷ cs) =
      ((m : Fields) × (marshal m ≡ some c) × IsEntry cfg ids n i m) × IsHistory cfg ids n (i + 1) cs

  pub history_from-IsHistory :
      {L : Type 0} (cfg : Fields) (ids : List Bytes) (n i : ℕ) (layers : List L)
      → ((m : Fields) → (c : Bytes) × (marshal m ≡ some c))
      → diff_ids cfg ≡ made (digests ids)
      → n ≡ i + length layers
      → n ≤ length ids
      → (cs : List Bytes) × (history_from marshal cfg n i layers ≡ made cs)
        × IsHistory cfg ids n i cs
  unfolding history_from
  history_from-IsHistory cfg ids n i [] total known sum fits = ([], refl, omega arith)
  history_from-IsHistory cfg ids n i (layer ∷ layers) total known sum fits =
      let (m, entry, is) = fields-IsEntry cfg ids n i (omega arith) fits in
      let (c, encoded) = total m in
      let (cs, rest, all) =
        history_from-IsHistory cfg ids n (i + 1) layers total known (omega arith) fits in
      (c ∷ cs, rw (known, entry, encoded, rest) refl, ((m, encoded, is), all))

  pub history_from-panic :
      {L : Type 0} (cfg : Fields) (ids : List Bytes) (n i : ℕ) (layers : List L)
      → ((m : Fields) → (c : Bytes) × (marshal m ≡ some c))
      → diff_ids cfg ≡ made (digests ids)
      → n ≡ i + length layers
      → i < n
      → length ids < n
      → history_from marshal cfg n i layers ≡ panic
  unfolding history_from
  history_from-panic cfg ids n i [] total known sum some_left short = absurd (omega arith)
  history_from-panic cfg ids n i (layer ∷ layers) total known sum some_left short =
      elim (next_cases (length ids) i) [
        | inl more ↦
            let (m, entry) = fields_made cfg ids n i (omega arith) more in
            let (c, encoded) = total m in
            rw
              (
                known,
                entry,
                encoded,
                history_from-panic cfg ids n (i + 1) layers total known (omega arith) (omega arith)
                    short,
              )
              refl
        | inr last ↦ rw (known, fields_short cfg ids n i some_left last short) refl
      ]
