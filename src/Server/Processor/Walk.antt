-- ===== src/Server/Processor/Walk.antt =====
-- The walk of getJSONFiles comes to its end.
use ubuntu_insights.Base.{
  Bytes, Has, List, [], arith, inl, inr, length, refl, some, subst, suc, sym, zero, ℕ, ◌++◌, ◌+◌,
  ◌∷◌, ◌≡◌, ◌≤◌,
}
use ubuntu_insights.Server.Processor.Files.{deepest, get_json_files, walk_json}
use ubuntu_insights.System.Calm.{IsCalm, calm_now, IsCalm-of_fault, read_dir_fault, stat_fault}
use ubuntu_insights.System.Files.{entries_of, node_at, read_dir, sort_entries, stat}
use ubuntu_insights.System.Files.Entries.{sort_entries-Has}
use ubuntu_insights.System.World.{
  FilePath, Io, Node, Tree, World, continue, dir, file, ok, path_dec, pure, ◌>>=◌,
}

-- From `w` on, a calm world with the tree `t`, the action returns a value and keeps both.
abbrev IsTotal : {A : Type 0} → Tree → Io A → World → Type 0
IsTotal {A = A} t m w = (a : A) × ((m w).0 ≡ ok a) × IsCalm (m w).1 × ((m w).1.tree ≡ t)

IsTotal-pure :
    {A : Type 0} (t : Tree) (a : A) (w : World) → IsCalm w → w.tree ≡ t → IsTotal t (pure a) w
IsTotal-pure t a w c h = (a, refl, c, h)

IsTotal-bind :
    {A B : Type 0} (t : Tree) (m : Io A) (f : A → Io B) (w : World)
    → IsTotal t m w
    → ((a : A) (w' : World) → (m w).0 ≡ ok a → IsCalm w' → w'.tree ≡ t → IsTotal t (f a) w')
    → IsTotal t (m >>= f) w
IsTotal-bind t m f w (a, e, c, h) k =
    subst (λ r. IsTotal t (λ _. continue r f (m w).1) w) (sym e) (k a (m w).1 e c h)

read_dir-IsTotal :
    (t : Tree) (d : FilePath) (w : World) → IsCalm w → w.tree ≡ t → IsTotal t (read_dir d) w
unfolding read_dir
read_dir-IsTotal t d w c h = (
  sort_entries (entries_of d w.tree),
  ground (arith, calm_now w c),
  IsCalm-of_fault w (read_dir d w).1 (read_dir_fault d w) c,
  ground arith,
)

read_dir_entries :
    (d : FilePath) (w : World) (l : List (Bytes × Node))
    → (read_dir d w).0 ≡ ok l
    → l ≡ sort_entries (entries_of d w.tree)
unfolding read_dir
read_dir_entries d w l e = ground arith

entries_bounded :
    (d : FilePath) (t : Tree) (e : Bytes × Node)
    → Has e (entries_of d t)
    → suc (length d) ≤ deepest t
unfolding entries_of deepest
entries_bounded d [] e h = absurd h
entries_bounded d (([], b) ∷ t) e h = let le = entries_bounded d t e h in omega arith
entries_bounded d (((m ∷ p), b) ∷ t) e h = elim (path_dec p d) [
  | yes y ↦ rw y (omega arith)
  | no n ↦ let le = entries_bounded d t e (ground arith) in omega arith
]

stat-IsTotal :
    (n : Bytes) (d : FilePath) (w : World)
    → IsCalm w
    → node_at (n ∷ d) w.tree ≡ some dir
    → IsTotal w.tree (stat (n ∷ d)) w
unfolding stat
stat-IsTotal n d w c h = (
  dir,
  ground (arith, calm_now w c),
  IsCalm-of_fault w (stat (n ∷ d) w).1 (stat_fault (n ∷ d) w) c,
  ground arith,
)

module _ (t : Tree) where
  abbrev IsBounded : FilePath → List (Bytes × Node) → Type 0
  IsBounded d l = (e : Bytes × Node) → Has e l → suc (length d) ≤ deepest t

  listed-IsBounded :
      (d : FilePath) (l : List (Bytes × Node)) (w : World)
      → (read_dir d w).0 ≡ ok l
      → w.tree ≡ t
      → IsBounded d l
  listed-IsBounded d l w e h f m = entries_bounded d t f (
      (sort_entries-Has f (entries_of d t)).0 (
        subst (λ x. Has f (sort_entries (entries_of d x))) h
          (subst (Has f) (read_dir_entries d w l e) m)))

  walk_json-IsTotal :
      (depth : ℕ) (d : FilePath) (l : List (Bytes × Node)) (w : World)
      → deepest t ≤ depth + length d
      → IsBounded d l
      → IsCalm w
      → w.tree ≡ t
      → IsTotal t (walk_json depth d l) w
  unfolding walk_json
  walk_json-IsTotal depth d [] w le b c h = IsTotal-pure t [] w c h
  walk_json-IsTotal depth d ((n, file x) ∷ l) w le b c h =
      IsTotal-bind t (walk_json depth d l) _ w
        (walk_json-IsTotal depth d l w le (λ e m. b e (inr m)) c h)
        (λ rest w' _ c' h'. IsTotal-pure t _ w' c' h')
  walk_json-IsTotal zero d ((n, dir) ∷ l) w le b c h =
      let lt = b (n, dir) (inl refl) in absurd (omega arith)
  walk_json-IsTotal (suc depth) d ((n, dir) ∷ l) w le b c h =
      IsTotal-bind t (read_dir (n ∷ d)) _ w (read_dir-IsTotal t (n ∷ d) w c h)
        (λ entries w1 e c1 h1.
          IsTotal-bind t (walk_json depth (n ∷ d) entries) _ w1
            (walk_json-IsTotal depth (n ∷ d) entries w1 (omega arith)
              (listed-IsBounded (n ∷ d) entries w e h) c1 h1)
            (λ inner w2 _ c2 h2.
              IsTotal-bind t (walk_json (suc depth) d l) _ w2
                (walk_json-IsTotal (suc depth) d l w2 le (λ f m. b f (inr m)) c2 h2)
                (λ rest w3 _ c3 h3. IsTotal-pure t (inner ++ rest) w3 c3 h3)))

-- In a calm world the walk over a directory comes to its end: the depth that it is given is enough
-- for every tree.
pub get_json_files_total :
    (n : Bytes) (d : FilePath) (w : World)
    → IsCalm w
    → node_at (n ∷ d) w.tree ≡ some dir
    → (files : List FilePath) × ((get_json_files (n ∷ d) w).0 ≡ ok files)
unfolding get_json_files
get_json_files_total n d w c h =
    let (files, e, _, _) =
      IsTotal-bind w.tree (stat (n ∷ d)) _ w (stat-IsTotal n d w c h) (λ _ w1 _ c1 h1.
        IsTotal-bind w.tree (read_dir (n ∷ d)) _ w1 (read_dir-IsTotal w.tree (n ∷ d) w1 c1 h1)
          (λ entries w2 e c2 h2.
            walk_json-IsTotal w.tree (deepest w.tree) (n ∷ d) entries w2 (omega arith)
              (listed-IsBounded w.tree (n ∷ d) entries w1 e h1) c2 h2)) in
    (files, e)
