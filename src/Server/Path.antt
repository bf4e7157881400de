-- ===== src/Server/Path.antt =====
-- Packages strings and path/filepath on whole paths, as the server uses them on the names in a URL:
-- Contains, Split, Clean, Join.
pub mod Dots
pub mod Append
use ubuntu_insights.Base.{
  Bool, Bytes, List, [], bytes_dec, codes, false, if◌then◌else◌, is_nil, refl, same_bytes, true, ℕ,
  ◌++◌, ◌==◌, ◌||◌, ◌∷◌, ◌≡◌,
}
use ubuntu_insights.System.World.{FilePath}

-- strings.HasPrefix
unfoldable pub has_prefix : Bytes → Bytes → Bool
has_prefix s [] = true
has_prefix [] (x ∷ xs) = false
has_prefix (c ∷ s) (x ∷ xs) = if c == x then has_prefix s xs else false

-- strings.Contains
unfoldable pub contains : Bytes → Bytes → Bool
contains [] t = has_prefix [] t
contains (c ∷ s) t = let rest = contains s t in if has_prefix (c ∷ s) t then true else rest

-- strings.Split(s, "/")
abbrev pub onto_first : ℕ → List Bytes → List Bytes
onto_first c [] = (c ∷ []) ∷ []
onto_first c (e ∷ es) = (c ∷ e) ∷ es

unfoldable pub split : Bytes → List Bytes
split [] = [] ∷ []
split (c ∷ s) = let rest = split s in if c == b'/' then [] ∷ rest else onto_first c rest

abbrev pub dot : Bytes
dot = codes "."

abbrev pub dot_dot : Bytes
dot_dot = codes ".."

-- Clean walks over the elements: an empty one and a dot are dropped, and ".." takes the element
-- before it away, or stays in front of a path that does not start at the root.
abbrev pub up : Bool → FilePath → FilePath
up rooted [] = if rooted then [] else dot_dot ∷ []
up rooted (e ∷ p) = if same_bytes e dot_dot then dot_dot ∷ e ∷ p else p

unfoldable pub walk_element : Bool → FilePath → Bytes → FilePath
walk_element rooted p e =
    if is_nil e || same_bytes e dot then p else if same_bytes e dot_dot then up rooted p else e ∷ p

unfoldable pub walk : Bool → FilePath → List Bytes → FilePath
walk rooted p [] = p
walk rooted p (e ∷ es) = walk rooted (walk_element rooted p e) es

unfoldable pub join_elements : FilePath → Bytes
join_elements [] = []
join_elements (e ∷ []) = e
join_elements (e ∷ f ∷ p) = join_elements (f ∷ p) ++ (b'/' ∷ e)

abbrev or_dot : Bytes → Bytes
or_dot [] = dot
or_dot (c ∷ s) = c ∷ s

-- filepath.Clean
unfoldable pub clean : Bytes → Bytes
clean s =
    if has_prefix s (codes "/")
    then b'/' ∷ join_elements (walk true [] (split s))
    else or_dot (join_elements (walk false [] (split s)))

-- filepath.Join(d, s), of a directory with an absolute path
unfoldable pub join_path : FilePath → Bytes → FilePath
join_path d s = walk true d (split s)

clean_lem : clean (codes "a//b/./../c/") ≡ codes "a/c"
unfolding clean split has_prefix walk walk_element join_elements bytes_dec
clean_lem = refl

clean_up_lem : clean (codes "../a/../../b") ≡ codes "../../b"
unfolding clean split has_prefix walk walk_element join_elements bytes_dec
clean_up_lem = refl
