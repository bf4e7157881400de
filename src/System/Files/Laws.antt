-- ===== src/System/Files/Laws.antt =====
-- Each call's effect on the tree, and its result, on every branch.
use ubuntu_insights.Base.{Bytes, [], arith, false, ite, none, refl, some, ◌∷◌, ◌≡◌, ◌⊎◌}
use ubuntu_insights.Base.Dict.{erase, insert, lookup-erase, lookup-insert}
use ubuntu_insights.System.Files.{
  chmod, close, create_temp, made, mkdir_all, node_at, read_dir, read_file, remove, rename, stat,
  syscall, temp_name, write,
}
use ubuntu_insights.System.Steps.{bind_elim}
use ubuntu_insights.System.World.{
  FilePath, Node, Tree, World, dir, done, err, file, not_exist, ok, path_dec, plain,
}

pub node_at-insert :
    (q : FilePath) (n : Bytes) (p : FilePath) (a : Node) (t : Tree)
    → node_at q (insert path_dec (n ∷ p) a t) ≡ ite (path_dec q (n ∷ p)) (some a) (node_at q t)
unfolding node_at
node_at-insert [] n p a t = ground arith
node_at-insert (m ∷ q) n p a t = lookup-insert path_dec (m ∷ q) (n ∷ p) a t

pub node_at-erase :
    (q : FilePath) (n : Bytes) (p : FilePath) (t : Tree)
    → node_at q (erase path_dec (n ∷ p) t) ≡ ite (path_dec q (n ∷ p)) none (node_at q t)
unfolding node_at
node_at-erase [] n p t = ground arith
node_at-erase (m ∷ q) n p t = lookup-erase path_dec (m ∷ q) (n ∷ p) t

pub create_temp_cases :
    (d : FilePath) (w : World)
    → let p = temp_name (w.random w.draws) ∷ d in
      (((create_temp d w).0 ≡ err plain) × ((create_temp d w).1.tree ≡ w.tree))
      ⊎ (((create_temp d w).0 ≡ ok p)
          × (node_at p w.tree ≡ none)
          × ((create_temp d w).1.tree ≡ insert path_dec p (file []) w.tree))
unfolding create_temp
create_temp_cases d w = ground arith

pub write_cases :
    (p : FilePath) (data' : Bytes) (w : World)
    → (((write p data' w).0 ≡ err plain) × ((write p data' w).1.tree ≡ w.tree))
      ⊎ (((write p data' w).0 ≡ done)
          × ((write p data' w).1.tree ≡ insert path_dec p (file data') w.tree))
unfolding write
write_cases p data' w = ground arith

pub close_tree : (w : World) → (close w).1.tree ≡ w.tree
unfolding close
close_tree w = ground arith

pub chmod_tree : (p : FilePath) (w : World) → (chmod p w).1.tree ≡ w.tree
unfolding chmod stat
chmod_tree p w = ground arith

pub stat_tree : (p : FilePath) (w : World) → (stat p w).1.tree ≡ w.tree
unfolding stat
stat_tree p w = ground arith

pub read_file_tree : (p : FilePath) (w : World) → (read_file p w).1.tree ≡ w.tree
unfolding read_file
read_file_tree p w = ground arith

pub read_dir_tree : (p : FilePath) (w : World) → (read_dir p w).1.tree ≡ w.tree
unfolding read_dir
read_dir_tree p w = ground arith

pub rename_cases :
    (p q : FilePath) (b : Bytes) (w : World)
    → node_at p w.tree ≡ some (file b)
    → (((rename p q w).0 ≡ err plain) × ((rename p q w).1.tree ≡ w.tree))
      ⊎ (((rename p q w).0 ≡ done)
          × ((rename p q w).1.tree ≡ insert path_dec q (file b) (erase path_dec p w.tree)))
unfolding rename
rename_cases p q b w h = ground arith

pub remove_cases :
    (p : FilePath) (w : World)
    → (((remove p w).0 ≡ err plain) × ((remove p w).1.tree ≡ w.tree))
      ⊎ (((remove p w).0 ≡ err (not_exist ∷ []))
          × (node_at p w.tree ≡ none)
          × ((remove p w).1.tree ≡ w.tree))
      ⊎ ((b : Bytes) × (node_at p w.tree ≡ some (file b))
          × ((remove p w).0 ≡ done)
          × ((remove p w).1.tree ≡ erase path_dec p w.tree))
unfolding remove
remove_cases p w = ground arith

-- A removal leaves a path as it was, or it was the path removed and is gone.
pub remove-node_at :
    (p : FilePath) (n : Bytes) (d : FilePath) (w : World)
    → (node_at (n ∷ d) (remove p w).1.tree ≡ node_at (n ∷ d) w.tree)
      ⊎ ((p ≡ n ∷ d) × (node_at (n ∷ d) (remove p w).1.tree ≡ none))
unfolding remove node_at
remove-node_at p n d w = ground (arith, lookup-erase path_dec (n ∷ d) p w.tree)

-- When its call does not fail, the removal of a file succeeds.
pub remove_calm :
    (n : Bytes) (d : FilePath) (w : World) (b : Bytes)
    → w.fault w.calls ≡ false
    → node_at (n ∷ d) w.tree ≡ some (file b)
    → ((remove (n ∷ d) w).0 ≡ done) × (node_at (n ∷ d) (remove (n ∷ d) w).1.tree ≡ none)
unfolding remove
remove_calm n d w b calm h = ground (arith, node_at-erase (n ∷ d) n d w.tree)

made_keeps :
    (n : Bytes) (p q : FilePath) (a : Node) (w : World)
    → node_at q w.tree ≡ some a
    → node_at q (syscall (λ v. made (n ∷ p) (node_at (n ∷ p) v.tree) v) w).1.tree ≡ some a
unfolding syscall
made_keeps n p q a w h = ground (arith, node_at-insert q n p dir w.tree)

-- Making directories keeps whatever is there.
pub mkdir_all_keeps :
    (p q : FilePath) (a : Node) (w : World)
    → node_at q w.tree ≡ some a
    → node_at q (mkdir_all p w).1.tree ≡ some a
unfolding mkdir_all
mkdir_all_keeps [] q a w h = h
mkdir_all_keeps (n ∷ p) q a w h =
    bind_elim (λ _ w'. node_at q w'.tree ≡ some a) (mkdir_all p) _ w
      (λ _ _. made_keeps n p q a (mkdir_all p w).1 (mkdir_all_keeps p q a w h))
      (λ _ _. mkdir_all_keeps p q a w h)

made-dir :
    (n : Bytes) (p : FilePath) (w : World)
    → (syscall (λ v. made (n ∷ p) (node_at (n ∷ p) v.tree) v) w).0 ≡ done
    → node_at (n ∷ p) (syscall (λ v. made (n ∷ p) (node_at (n ∷ p) v.tree) v) w).1.tree ≡ some dir
unfolding syscall
made-dir n p w h = ground (arith, node_at-insert (n ∷ p) n p dir w.tree)

-- After an os.MkdirAll that returns no error there is a directory.
pub mkdir_all-dir :
    (p : FilePath) (w : World)
    → (mkdir_all p w).0 ≡ done
    → node_at p (mkdir_all p w).1.tree ≡ some dir
unfolding mkdir_all node_at
mkdir_all-dir [] w h = refl
mkdir_all-dir (n ∷ p) w h =
    bind_elim (λ r w'. r ≡ done → node_at (n ∷ p) w'.tree ≡ some dir) (mkdir_all p) _ w
      (λ _ _ k. made-dir n p (mkdir_all p w).1 k) (λ _ _ k. absurd (ground arith)) h
