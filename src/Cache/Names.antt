-- ===== src/Cache/Names.antt =====
-- cache.go: `urlToMime` and `urlToIndexName`, with what they use of `path/filepath` and `strings`.
use spongix.Base.{
  Bytes, List, [], ◌∷◌, ◌++◌, Option, none, some, Bool, true, false, codes, reverse, null, ◌==◌,
  ◌||◌, if◌then◌else◌,
}
use spongix.Strings.{equal, strip_prefix, split_pair, split, join, ext}

abbrev pub mime_nar : Bytes
mime_nar = codes "application/x-nix-nar"

abbrev pub mime_narinfo : Bytes
mime_narinfo = codes "text/x-nix-narinfo"

abbrev pub mime_text : Bytes
mime_text = codes "text/plain"

unfoldable pub url_to_mime : Bytes → Bytes
unfolding ext equal
url_to_mime u =
    if equal (ext u) (codes ".nar") || equal (ext u) (codes ".xz")
    then mime_nar
    else if equal (ext u) (codes ".narinfo")
    then mime_narinfo
    else mime_text

-- `strings.HasPrefix` and `strings.HasSuffix`.
abbrev pub is_some : Option Bytes → Bool
is_some none = false
is_some (some rest) = true

unfoldable pub has_prefix : Bytes → Bytes → Bool
unfolding strip_prefix
has_prefix s p = is_some (strip_prefix p s)

unfoldable pub has_suffix : Bytes → Bytes → Bool
unfolding strip_prefix
has_suffix s e = is_some (strip_prefix (reverse e) (reverse s))

-- `strings.Replace(s, old, new, 1)` for an `old` that is not empty.
abbrev pub replaced : Bytes → Bytes → Option (Bytes × Bytes) → Bytes
replaced s new none = s
replaced s new (some (a, b)) = a ++ new ++ b

unfoldable pub replace_first : Bytes → Bytes → Bytes → Bytes
unfolding split_pair
replace_first s old new = replaced s new (split_pair old s)

-- `filepath.Clean` on the elements of a rooted path, with those that are kept in reverse order: empty
-- elements and dots go, and two dots take the element before them away.
abbrev pub dropped : List Bytes → List Bytes
dropped [] = []
dropped (p ∷ ps) = ps

unfoldable pub clean_parts : List Bytes → List Bytes → List Bytes
unfolding equal
clean_parts kept [] = reverse kept
clean_parts kept (p ∷ ps) =
    let skip = clean_parts kept ps in
    let up = clean_parts (dropped kept) ps in
    let down = clean_parts (p ∷ kept) ps in
    if null p || equal p (codes ".") then skip else if equal p (codes "..") then up else down

abbrev pub or_dot : List Bytes → Bytes
or_dot [] = codes "."
or_dot (p ∷ ps) = join (codes "/") (p ∷ ps)

-- `filepath.Rel("/", name)`: the cleaned path without its slash, and an error if there is none.
unfoldable pub rel_root : Bytes → Option Bytes
unfolding split clean_parts join
rel_root [] = none
rel_root (c ∷ s) = if c == b'/' then some (or_dot (clean_parts [] (split b'/' s))) else none

unfoldable pub without_cache : Bytes → Bytes
unfolding has_prefix replace_first
without_cache name =
    if has_prefix name (codes "/cache/")
    then replace_first name (codes "/cache/") (codes "/")
    else name

unfoldable pub without_xz : Bytes → Bytes
unfolding has_suffix replace_first
without_xz name =
    if has_suffix name (codes ".nar.xz")
    then replace_first name (codes ".nar.xz") (codes ".nar")
    else name

-- The name of the index for the escaped path of a URL.
unfoldable pub url_to_index_name : Bytes → Option Bytes
unfolding rel_root without_cache without_xz
url_to_index_name path = rel_root (without_xz (without_cache path))
