-- ===== src/Docker/Manifests/History.antt =====
-- docker.go: the loop of `manifestGet` over the layers, which makes the history of the answer from the
-- configuration of the image, and the JSON values of Go, as `json.Unmarshal` makes them.
pub mod Made
use spongix.Base.{
  ℕ, zero, suc, ◌+◌, ◌==◌, Bytes, List, [], ◌∷◌, ◌++◌, Option, none, some, Bool, true, false, codes,
  if◌then◌else◌, ◌&&◌, not, ltb, ◌-◌,
}
use spongix.Strings.{equal, split_pair}

-- `interface{}`; a number, a Boolean or null is its literal, nil is the literal null.
mutual
  pub data Value : Type 0 where
    text : Bytes → Value
    array : Values → Value
    object : Fields → Value
    literal : Bytes → Value

  pub data Values : Type 0 where
    end : Values
    item : Value → Values → Values

  -- A map with string keys; a key that stands twice has its first value.
  pub data Fields : Type 0 where
    empty : Fields
    field : Bytes → Value → Fields → Fields

-- m[k], and nil for a key that is missing.
unfoldable pub value_at : Bytes → Fields → Value
unfolding equal
value_at k empty = literal (codes "null")
value_at k (field j v m) = if equal j k then v else value_at k m

-- The type assertions: `none` where the type is another.
abbrev pub as_map : Value → Option Fields
as_map (object m) = some m
as_map _ = none

abbrev pub as_array : Value → Option Values
as_array (array vs) = some vs
as_array _ = none

abbrev pub as_string : Value → Option Bytes
as_string (text s) = some s
as_string _ = none

-- vs[i], and `none` out of range.
abbrev pub index_of : Values → ℕ → Option Value
index_of end i = none
index_of (item v vs) zero = some v
index_of (item v vs) (suc i) = index_of vs i

-- What a piece of the handler comes to: a panic, an answer that ends the handler, or a value.
pub data Outcome (A : Type 0) : Type 0 where
  panic : Outcome A
  manifest_invalid not_encoded : Outcome A
  made : A → Outcome A

infixl 5 ◌>>=◌
abbrev pub ◌>>=◌ : {A B : Type 0} → Outcome A → (A → Outcome B) → Outcome B
panic >>= f = panic
manifest_invalid >>= f = manifest_invalid
not_encoded >>= f = not_encoded
made a >>= f = f a

abbrev pub or_panic : {A : Type 0} → Option A → Outcome A
or_panic none = panic
or_panic (some a) = made a

abbrev pub or_invalid : {A : Type 0} → Option A → Outcome A
or_invalid none = manifest_invalid
or_invalid (some a) = made a

abbrev pub or_not_encoded : {A : Type 0} → Option A → Outcome A
or_not_encoded none = not_encoded
or_not_encoded (some a) = made a

-- `SplitN(s, ":", 2)[1]`.
abbrev pub second : Option (Bytes × Bytes) → Option Bytes
second none = none
second (some (a, b)) = some b

-- The id in `diffIds[i]`.
unfoldable pub id_at : Values → ℕ → Outcome Bytes
unfolding split_pair
id_at vs i = do
  v ← or_panic (index_of vs i)
  s ← or_panic (as_string v)
  or_panic (second (split_pair (codes ":") s))

-- `cfg["rootfs"]["diff_ids"]`.
unfoldable pub diff_ids : Fields → Outcome Values
unfolding value_at
diff_ids cfg = do
  rootfs ← or_invalid (as_map (value_at (codes "rootfs") cfg))
  or_invalid (as_array (value_at (codes "diff_ids") rootfs))

-- The key "parent", for all layers but the last.
abbrev pub with_parent : Bool → Values → ℕ → Fields → Outcome Fields
with_parent false vs i m = made m
with_parent true vs i m = do
  parent ← id_at vs (i + 1)
  made (field (codes "parent") (text parent) m)

abbrev pub with_config : ℕ → Fields → Fields → Fields
with_config zero cfg m =
    field (codes "architecture") (text (codes "amd64"))
      (field (codes "config") (value_at (codes "config") cfg) m)
with_config (suc i) cfg m = m

abbrev pub created : Bytes → Fields
created id =
    field (codes "created") (text (codes "1970-01-01T00:00:01+00:00"))
      (field (codes "id") (text id) empty)

-- The entry of the layer `i` of `n`.
unfoldable pub entry_fields : Fields → Values → ℕ → ℕ → Outcome Fields
unfolding id_at value_at
entry_fields cfg vs n i = do
  id ← id_at vs i
  m ← with_parent (ltb 1 n && not (i == n - 1)) vs i (created id)
  made (with_config i cfg m)

-- `json.Marshal` of a map is the argument; the layers themselves are not read.
module _ {L : Type 0} (marshal : Fields → Option Bytes) where
  unfoldable pub history_from : Fields → ℕ → ℕ → List L → Outcome (List Bytes)
  unfolding diff_ids entry_fields
  history_from cfg n i [] = made []
  history_from cfg n i (layer ∷ layers) = do
    vs ← diff_ids cfg
    entry ← entry_fields cfg vs n i
    c ← or_not_encoded (marshal entry)
    rest ← history_from cfg n (i + 1) layers
    made (c ∷ rest)
