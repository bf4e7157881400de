-- ===== src/System/Files.antt =====
-- Package os and path/filepath: the calls that the program makes, on the tree of a world.
-- Every call first asks whether it fails for a reason of its own (permissions, a full disk).
pub mod Laws
pub mod Entries
pub mod Trace
use ubuntu_insights.Base.{
  Bool, Bytes, List, Option, [], codes, false, if◌then◌else◌, ite, ltb, none, some, suc, true, ℕ,
  ◌++◌, ◌==◌, ◌∷◌,
}
use ubuntu_insights.Base.Decimal.{format_ℕ}
use ubuntu_insights.Base.Dict.{erase, insert, lookup}
use ubuntu_insights.System.World.{
  FilePath, Io, Node, Result, Status, Tree, World, dir, err, file, not_exist, ok, path_dec, plain,
  pure, ◌>>=◌, ◌>>◌,
}

-- What stands at a path; the root is a directory.
unfoldable pub node_at : FilePath → Tree → Option Node
node_at [] t = some dir
node_at (n ∷ p) t = lookup path_dec (n ∷ p) t

abbrev pub put : FilePath → Node → World → World
put p node w = record w { tree = insert path_dec p node w.tree }

abbrev pub drop_path : FilePath → World → World
drop_path p w = record w { tree = erase path_dec p w.tree }

-- One system call: it fails, or does its work.
unfoldable pub syscall {ℓ} : {A : Type ℓ} → Io A → Io A
syscall m w =
    let w' = record w { calls = suc w.calls } in if w.fault w.calls then (err plain, w') else m w'

abbrev found : Option Node → World → Result Node × World
found none w = (err (not_exist ∷ []), w)
found (some node) w = (ok node, w)

-- os.Stat
unfoldable pub stat : FilePath → Io Node
unfolding syscall
stat p = syscall (λ w. found (node_at p w.tree) w)

abbrev contents : Option Node → World → Result Bytes × World
contents none w = (err (not_exist ∷ []), w)
contents (some dir) w = (err plain, w)
contents (some (file b)) w = (ok b, w)

-- os.ReadFile
unfoldable pub read_file : FilePath → Io Bytes
unfolding syscall
read_file p = syscall (λ w. contents (node_at p w.tree) w)

-- The entries of a directory, in the order of the tree.
unfoldable pub entries_of : FilePath → Tree → List (Bytes × Node)
entries_of d [] = []
entries_of d (([], node) ∷ t) = entries_of d t
entries_of d (((n ∷ p), node) ∷ t) =
    let rest = entries_of d t in ite (path_dec p d) ((n, node) ∷ rest) rest

-- Go compares strings byte by byte.
unfoldable pub bytes_before : Bytes → Bytes → Bool
bytes_before [] [] = false
bytes_before [] (y ∷ ys) = true
bytes_before (x ∷ xs) [] = false
bytes_before (x ∷ xs) (y ∷ ys) =
    let rest = bytes_before xs ys in if ltb x y then true else if x == y then rest else false

unfoldable pub insert_entry : Bytes × Node → List (Bytes × Node) → List (Bytes × Node)
insert_entry (n, a) [] = (n, a) ∷ []
insert_entry (n, a) ((m, b) ∷ l) =
    if bytes_before m n then (m, b) ∷ insert_entry (n, a) l else (n, a) ∷ (m, b) ∷ l

unfoldable pub sort_entries : List (Bytes × Node) → List (Bytes × Node)
sort_entries [] = []
sort_entries (e ∷ l) = insert_entry e (sort_entries l)

-- os.ReadDir of a directory that was found before: its entries, sorted by name
unfoldable pub read_dir : FilePath → Io (List (Bytes × Node))
unfolding syscall
read_dir d = syscall (λ w. (ok (sort_entries (entries_of d w.tree)), w))

abbrev listed : FilePath → Option Node → World → Result (List (Bytes × Node)) × World
listed d none w = (err (not_exist ∷ []), w)
listed d (some (file b)) w = (err plain, w)
listed d (some dir) w = (ok (sort_entries (entries_of d w.tree)), w)

-- os.ReadDir of any path
unfoldable pub list_dir : FilePath → Io (List (Bytes × Node))
unfolding syscall
list_dir d = syscall (λ w. listed d (node_at d w.tree) w)

abbrev removed : FilePath → Option Node → World → Status × World
removed p none w = (err (not_exist ∷ []), w)
removed p (some dir) w = (err plain, w)
removed p (some (file b)) w = (ok tt, drop_path p w)

-- os.Remove, of a file. (The program removes no directory.)
unfoldable pub remove : FilePath → Io (Unit {0})
unfolding syscall
remove p = syscall (λ w. removed p (node_at p w.tree) w)

abbrev renamed : FilePath → FilePath → Option Node → Option Node → World → Status × World
renamed p q (some (file b)) (some dir) w = (err plain, w)
renamed p q (some (file b)) _ w = (ok tt, put q (file b) (drop_path p w))
renamed p q _ _ w = (err plain, w)

-- os.Rename, of a file within one directory
unfoldable pub rename : FilePath → FilePath → Io (Unit {0})
unfolding syscall
rename p q = syscall (λ w. renamed p q (node_at p w.tree) (node_at q w.tree) w)

abbrev pub made : FilePath → Option Node → World → Status × World
made p none w = (ok tt, put p dir w)
made p (some dir) w = (ok tt, w)
made p (some (file b)) w = (err plain, w)

-- os.MkdirAll: the parents first
unfoldable pub mkdir_all : FilePath → Io (Unit {0})
unfolding syscall
mkdir_all [] = pure tt
mkdir_all (n ∷ p) = do mkdir_all p; syscall (λ w. made (n ∷ p) (node_at (n ∷ p) w.tree) w)

abbrev created : FilePath → Option Node → Option Node → World → Result FilePath × World
created p (some dir) none w = (ok p, put p (file []) w)
created p _ _ w = (err plain, w)

-- The name that os.CreateTemp makes of the pattern tmp-*.tmp and a random number.
unfoldable pub temp_name : ℕ → Bytes
temp_name n = codes "tmp-" ++ (format_ℕ n ++ codes ".tmp")

-- os.CreateTemp(d, "tmp-*.tmp"): a new empty file. The call tries other numbers while the name is
-- taken; here the number that was drawn is the last one tried, and a taken name is a failure.
unfoldable pub create_temp : FilePath → Io FilePath
unfolding syscall
create_temp d = syscall λ w.
    let p = temp_name (w.random w.draws) ∷ d in
    created p (node_at d w.tree) (node_at p w.tree) (record w { draws = suc w.draws })

abbrev written : FilePath → Bytes → Option Node → World → Status × World
written p data' (some (file b)) w = (ok tt, put p (file data') w)
written p data' _ w = (err plain, w)

-- tmp.Write, to a file just created
unfoldable pub write : FilePath → Bytes → Io (Unit {0})
unfolding syscall
write p data' = syscall (λ w. written p data' (node_at p w.tree) w)

-- tmp.Close
unfoldable pub close : Io (Unit {0})
unfolding syscall
close = syscall (pure tt)

-- os.Chmod, of a file that is there. Modes are not modelled.
unfoldable pub chmod : FilePath → Io (Unit {0})
unfolding syscall
chmod p = do _ ← stat p; pure tt
