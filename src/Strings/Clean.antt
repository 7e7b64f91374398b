-- ===== src/Strings/Clean.antt =====
-- `filepath.Clean` and `filepath.Join` on Unix.
use spongix.Base.{
  Bytes, List, [], ◌∷◌, ◌++◌, Bool, true, false, codes, reverse, null, ◌==◌, ◌||◌, if◌then◌else◌,
}
use spongix.Strings.{equal, split, join}

-- Two dots take the element before them away; at the start a relative path keeps them.
abbrev pub backed : Bool → List Bytes → List Bytes
backed true [] = []
backed false [] = codes ".." ∷ []
backed rooted (p ∷ ps) = if equal p (codes "..") then codes ".." ∷ p ∷ ps else ps

-- The elements that stay; `kept` has those before, in reverse order.
unfoldable pub clean_elements : Bool → List Bytes → List Bytes → List Bytes
unfolding equal
clean_elements rooted kept [] = reverse kept
clean_elements rooted kept (p ∷ ps) =
    let skip = clean_elements rooted kept ps in
    let up = clean_elements rooted (backed rooted kept) ps in
    let down = clean_elements rooted (p ∷ kept) ps in
    if null p || equal p (codes ".") then skip else if equal p (codes "..") then up else down

abbrev pub is_rooted : Bytes → Bool
is_rooted [] = false
is_rooted (c ∷ s) = c == b'/'

abbrev pub spelled : Bool → List Bytes → Bytes
spelled true ps = codes "/" ++ join (codes "/") ps
spelled false [] = codes "."
spelled false (p ∷ ps) = join (codes "/") (p ∷ ps)

unfoldable pub clean : Bytes → Bytes
unfolding clean_elements split join
clean path = spelled (is_rooted path) (clean_elements (is_rooted path) [] (split b'/' path))

-- Empty elements at the start are skipped; the path of none is empty.
unfoldable pub join_paths : List Bytes → Bytes
unfolding clean join
join_paths [] = []
join_paths (p ∷ ps) =
    let rest = join_paths ps in if null p then rest else clean (join (codes "/") (p ∷ ps))
