-- ===== src/System/Files/Entries.antt =====
-- Listing a directory, against looking paths up: no entry is missed, and none is made up in a
-- tree that holds no path twice.
use ubuntu_insights.Base.{Bytes, Has, List, [], arith, none, refl, some, ◌↔◌, ◌∷◌, ◌≡◌, ◌⊎◌}
use ubuntu_insights.Base.Dict.{erase, insert, lookup, lookup-erase, lookup-insert}
use ubuntu_insights.System.Files.{entries_of, insert_entry, sort_entries}
use ubuntu_insights.System.World.{FilePath, Node, Tree, path_dec}

-- No path stands twice.
abbrev pub HasUniquePaths : Tree → Type 0
HasUniquePaths [] = Unit
HasUniquePaths ((p, a) ∷ t) = (lookup path_dec p t ≡ none) × HasUniquePaths t

pub insert-HasUniquePaths :
    (p : FilePath) (a : Node) (t : Tree) → HasUniquePaths t → HasUniquePaths (insert path_dec p a t)
unfolding insert lookup
insert-HasUniquePaths p a [] u = (refl, tt)
insert-HasUniquePaths p a ((q, b) ∷ t) u =
    ground (arith, insert-HasUniquePaths p a t u.1, lookup-insert path_dec q p a t)

pub erase-HasUniquePaths :
    (p : FilePath) (t : Tree) → HasUniquePaths t → HasUniquePaths (erase path_dec p t)
unfolding erase lookup
erase-HasUniquePaths p [] u = tt
erase-HasUniquePaths p ((q, b) ∷ t) u =
    ground (arith, erase-HasUniquePaths p t u.1, lookup-erase path_dec q p t)

-- An entry (n, a) of `d` stands for the path `n ∷ d`.
pub entries_of-Has :
    (d : FilePath) (n : Bytes) (a : Node) (t : Tree)
    → lookup path_dec (n ∷ d) t ≡ some a
    → Has (n, a) (entries_of d t)
unfolding lookup entries_of
entries_of-Has d n a [] h = cc
entries_of-Has d n a (([], b) ∷ t) h = entries_of-Has d n a t (ground arith)
entries_of-Has d n a (((m ∷ p), b) ∷ t) h = ground (arith, entries_of-Has d n a t)

-- In a tree without duplicates the converse holds.
pub node_at-entries_of :
    (d : FilePath) (n : Bytes) (a : Node) (t : Tree)
    → HasUniquePaths t
    → Has (n, a) (entries_of d t)
    → lookup path_dec (n ∷ d) t ≡ some a
unfolding lookup entries_of
node_at-entries_of d n a [] u h = absurd h
node_at-entries_of d n a (([], b) ∷ t) u h = ground (arith, node_at-entries_of d n a t u.1)
node_at-entries_of d n a (((m ∷ p), b) ∷ t) u h = ground (arith, node_at-entries_of d n a t u.1)

insert_entry-Has :
    (e f : Bytes × Node) (l : List (Bytes × Node))
    → ((e ≡ f) ⊎ Has e l → Has e (insert_entry f l))
      × (Has e (insert_entry f l) → (e ≡ f) ⊎ Has e l)
unfolding insert_entry
insert_entry-Has e (n, a) [] = (λ h. h, λ h. h)
insert_entry-Has e (n, a) ((m, b) ∷ l) = ground (arith, insert_entry-Has e (n, a) l)

-- Sorting keeps the members.
pub sort_entries-Has :
    (e : Bytes × Node) (l : List (Bytes × Node)) → Has e (sort_entries l) ↔ Has e l
unfolding sort_entries
sort_entries-Has e [] = (λ h. h, λ h. h)
sort_entries-Has e (f ∷ l) =
    ground (arith, sort_entries-Has e l, insert_entry-Has e f (sort_entries l))
