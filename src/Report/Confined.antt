-- ===== src/Report/Confined.antt =====
-- What the operations on reports below a directory do to a file outside of it.
pub mod Found
use ubuntu_insights.Base.{
  All, Bool, Bytes, List, [], ap, false, if◌then◌else◌, inl, inr, is_nil, refl, some, subst, sym,
  take, true, ℕ, ◌++◌, ◌∙◌, ◌∷◌, ◌≡◌, ◌≢◌, ◌⊎◌,
}
use ubuntu_insights.Base.Int.{ℤ}
use ubuntu_insights.FileUtils.{write_file}
use ubuntu_insights.FileUtils.Atomic.{atomic_write-OldOrNew}
use ubuntu_insights.Report.{
  Report, cleanup, get_all, mark_as_processed, read_json, remove_reports, remove_surplus,
  undo_processed, walk_entries, walk_reports,
}
use ubuntu_insights.System.Files.{node_at, read_dir, read_file, remove, stat, temp_name}
use ubuntu_insights.System.Files.Laws.{read_dir_tree, read_file_tree, remove-node_at, stat_tree}
use ubuntu_insights.System.Keeps.{
  Keeps, Keeps-attempt, Keeps-bind, Keeps-hiding, Keeps-if, Keeps-pure, Keeps-raise, keeps_rules,
}
use ubuntu_insights.System.World.{FilePath, Io, Node, World, dir, file}

-- A path inside a directory, at any depth.
abbrev pub Inside : FilePath → FilePath → Type 0
Inside root p = (x : Bytes) × (d : FilePath) × (p ≡ x ∷ (d ++ root))

-- The path holds the data.
unfoldable pub Stays : FilePath → Bytes → World → Type 0
Stays q b w = node_at q w.tree ≡ some (file b)

pub Stays-of_tree {ℓ} :
    {A : Type ℓ} (q : FilePath) (b : Bytes) (m : Io A)
    → ((w : World) → (m w).1.tree ≡ w.tree)
    → Keeps (Stays q b) m
unfolding Stays
Stays-of_tree q b m h = record { at = λ w s. ap (node_at q) (h w) ∙ s }

module _ (q : FilePath) (b : Bytes) where
  pub Stays-stat : (p : FilePath) → Keeps (Stays q b) (stat p)
  Stays-stat p = Stays-of_tree q b (stat p) (stat_tree p)

  pub Stays-read_file : (p : FilePath) → Keeps (Stays q b) (read_file p)
  Stays-read_file p = Stays-of_tree q b (read_file p) (read_file_tree p)

  pub Stays-read_dir : (p : FilePath) → Keeps (Stays q b) (read_dir p)
  Stays-read_dir p = Stays-of_tree q b (read_dir p) (read_dir_tree p)

  pub Stays-read_json : (v : Bytes → Bool) (r : Report) → Keeps (Stays q b) (read_json v r)
  unfolding read_json
  Stays-read_json v r = search (keeps_rules, Stays-read_file) depth 7

  Stays-walk_entries : (d : FilePath) (a : Node) → Keeps (Stays q b) (walk_entries d a)
  Stays-walk_entries d dir = search (keeps_rules, Stays-read_dir) depth 7
  Stays-walk_entries d (file c) = search keeps_rules

  pub Stays-get_all : (d : FilePath) → Keeps (Stays q b) (get_all d)
  unfolding get_all walk_reports
  Stays-get_all d = search (keeps_rules, Stays-stat, Stays-walk_entries) depth 8

module _ (root : FilePath) (m : Bytes) (e : FilePath) (b : Bytes)
    (outside : (p : FilePath) → (m ∷ e) ≢ p ++ root) where
  pub Stays-remove : (p : FilePath) → Inside root p → Keeps (Stays (m ∷ e) b) (remove p)
  unfolding Stays
  Stays-remove p (x, d, i) = record {
    at = λ w s. elim (remove-node_at p m e w) [
      | inl same ↦ same ∙ s
      | inr gone ↦ absurd (outside (x ∷ d) (sym gone.0 ∙ i))
    ];
  }

  write_inside :
      (x : Bytes) (d : FilePath) (c : Bytes)
      → Keeps (Stays (m ∷ e) b) (write_file (x ∷ (d ++ root)) c)
  unfolding Stays write_file
  write_inside x d c = record {
    at = λ w s.
        elim (atomic_write-OldOrNew x (d ++ root) c 0 w (m ∷ e)
          (outside (temp_name (w.random w.draws) ∷ d))) [
            | inl same ↦ same ∙ s
            | inr new ↦ absurd (outside (x ∷ d) new.0)
          ];
  }

  Stays-write_file :
      (p : FilePath) (c : Bytes) → Inside root p → Keeps (Stays (m ∷ e) b) (write_file p c)
  Stays-write_file p c (x, d, i) =
      subst (λ p'. Keeps (Stays (m ∷ e) b) (write_file p' c)) (sym i) (write_inside x d c)

  pub Stays-mark_as_processed :
      (v : Bytes → Bool) (dest : FilePath) (c : Bytes) (r : Report)
      → Inside root (r.name ∷ dest)
      → Inside root r.path
      → Keeps (Stays (m ∷ e) b) (mark_as_processed v dest c r)
  unfolding mark_as_processed
  Stays-mark_as_processed v dest c r hd hp =
      search (keeps_rules, Stays-read_json, Stays-write_file, Stays-remove, hd, hp) depth 9

  pub Stays-undo_processed :
      (r : Report)
      → Inside root r.stash_path
      → Inside root r.path
      → Keeps (Stays (m ∷ e) b) (undo_processed r)
  unfolding undo_processed
  Stays-undo_processed r hs hp =
      search (keeps_rules, Stays-write_file, Stays-remove, hs, hp) depth 9

  pub Stays-remove_reports :
      (rs : List Report)
      → All (λ r. Inside root r.path) rs
      → Keeps (Stays (m ∷ e) b) (remove_reports rs)
  unfolding remove_reports
  Stays-remove_reports [] h = Keeps-pure tt
  Stays-remove_reports (r ∷ rs) h =
      Keeps-bind _ _ (Keeps-attempt _ (Stays-remove r.path h.0)) (λ _. Stays-remove_reports rs h.1)
