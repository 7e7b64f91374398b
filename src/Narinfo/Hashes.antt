-- ===== src/Narinfo/Hashes.antt =====
-- The accessors of the two hashes: `NarHashType`, `NarHashValue`, `FileHashType` and `FileHashValue`. A
-- value is `none` where the code panics, since the hash has one part.
use spongix.Base.{Bytes, Option, none, some, ◌++◌, ◌≡◌, refl, sym, ap, ◌∙◌, codes, arith}
use spongix.Strings.{split_pair, split_head, first_or}
use spongix.Strings.Parts.{split_pair-append}
use spongix.Regex.{Matches, m_seq, times}
use spongix.Regex.Correct.{lit-Matches}
use spongix.Narinfo.{Narinfo}
use spongix.Narinfo.Validate.{valid_hash, nix_hash}
use spongix.Narinfo.Valid.{IsValid}

abbrev second : Option (Bytes × Bytes) → Option Bytes
second none = none
second (some (a, b)) = some b

unfoldable pub nar_hash_type : Narinfo → Bytes
unfolding split_head
nar_hash_type info = split_head (codes ":") info.nar_hash

unfoldable pub nar_hash_value : Narinfo → Option Bytes
unfolding split_pair
nar_hash_value info = second (split_pair (codes ":") info.nar_hash)

unfoldable pub file_hash_type : Narinfo → Bytes
unfolding split_head
file_hash_type info = split_head (codes ":") info.file_hash

unfoldable pub file_hash_value : Narinfo → Option Bytes
unfolding split_pair
file_hash_value info = second (split_pair (codes ":") info.file_hash)

-- A hash that is split into its type and a value of 52 digits.
abbrev pub IsSplit : Bytes → Bytes → Option Bytes → Type 0
IsSplit hash kind value =
    (kind ≡ codes "sha256")
    × ((v : Bytes) × (value ≡ some v)
        × ((hash ≡ codes "sha256:" ++ v) × Matches (times 52 nix_hash) v))

IsSplit-of :
    (hash v : Bytes) (o : Option (Bytes × Bytes))
    → o ≡ some (codes "sha256", v)
    → hash ≡ codes "sha256:" ++ v
    → Matches (times 52 nix_hash) v
    → IsSplit hash (first_or hash o) (second o)
IsSplit-of hash v o e spells k = rw e (refl, (v, refl, (spells, k)))

valid-IsSplit :
    (hash : Bytes)
    → Matches valid_hash hash
    → IsSplit hash (split_head (codes ":") hash) (second (split_pair (codes ":") hash))
unfolding valid_hash split_head
valid-IsSplit hash (m_seq {b = v} h k e) =
    let spells : hash ≡ codes "sha256:" ++ v =
      sym e ∙ ap (λ z. z ++ v) (lit-Matches (codes "sha256:") h) in
    let split = split_pair-append b':' (codes "sha256") v (omega arith) in
    IsSplit-of hash v (split_pair (codes ":") hash) (ap (split_pair (codes ":")) spells ∙ split)
      spells k

-- For a valid narinfo no accessor panics: both hashes are split into the type sha256 and the value, 52
-- digits of the Nix alphabet.
pub IsValid-hashes :
    (info : Narinfo)
    → IsValid info
    → IsSplit info.nar_hash (nar_hash_type info) (nar_hash_value info)
      × IsSplit info.file_hash (file_hash_type info) (file_hash_value info)
unfolding nar_hash_type nar_hash_value file_hash_type file_hash_value
IsValid-hashes info v =
    (valid-IsSplit info.nar_hash v.nar_hash_ok, valid-IsSplit info.file_hash v.file_hash_ok)
