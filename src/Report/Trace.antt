-- ===== src/Report/Trace.antt =====
-- Operations on files and reports send no request and do not pause.
use ubuntu_insights.Base.{Bool, Bytes, List, [], ℕ, ◌∷◌}
use ubuntu_insights.Base.Int.{ℤ}
use ubuntu_insights.FileUtils.{atomic_write, fill_and_rename, remove_temp, write_file}
use ubuntu_insights.Report.{
  Report, cleanup, get_all, mark_as_processed, read_json, remove_reports, remove_surplus,
  undo_processed, walk_entries, walk_reports,
}
use ubuntu_insights.System.Files.Trace.{OnTrace, OnTrace-remove, trace_rules}
use ubuntu_insights.System.Keeps.{Keeps, Keeps-attempt, Keeps-bind, Keeps-pure}
use ubuntu_insights.System.World.{FilePath, Node, Post, dir, file}

module _ (Q : List Post → List ℕ → Type 0) where
  pub OnTrace-atomic_write :
      (p : FilePath) (b : Bytes) (perm : ℕ) → Keeps (OnTrace Q) (atomic_write p b perm)
  unfolding atomic_write fill_and_rename remove_temp
  OnTrace-atomic_write p b perm = search trace_rules depth 9

  pub OnTrace-write_file : (p : FilePath) (b : Bytes) → Keeps (OnTrace Q) (write_file p b)
  unfolding write_file
  OnTrace-write_file p b = OnTrace-atomic_write p b 0

  pub OnTrace-read_json : (v : Bytes → Bool) (r : Report) → Keeps (OnTrace Q) (read_json v r)
  unfolding read_json
  OnTrace-read_json v r = search trace_rules depth 7

  pub OnTrace-mark_as_processed :
      (v : Bytes → Bool) (dest : FilePath) (b : Bytes) (r : Report)
      → Keeps (OnTrace Q) (mark_as_processed v dest b r)
  unfolding mark_as_processed
  OnTrace-mark_as_processed v dest b r =
      search (trace_rules, OnTrace-read_json, OnTrace-write_file) depth 9

  pub OnTrace-undo_processed : (r : Report) → Keeps (OnTrace Q) (undo_processed r)
  unfolding undo_processed
  OnTrace-undo_processed r = search (trace_rules, OnTrace-write_file) depth 9

  OnTrace-walk_entries : (d : FilePath) (a : Node) → Keeps (OnTrace Q) (walk_entries d a)
  OnTrace-walk_entries d dir = search trace_rules depth 7
  OnTrace-walk_entries d (file b) = search trace_rules

  pub OnTrace-walk_reports :
      (from to : ℤ) (exit : List Report → Bool) (d : FilePath)
      → Keeps (OnTrace Q) (walk_reports from to exit d)
  unfolding walk_reports
  OnTrace-walk_reports from to exit d = search (trace_rules, OnTrace-walk_entries) depth 7

  pub OnTrace-get_all : (d : FilePath) → Keeps (OnTrace Q) (get_all d)
  unfolding get_all
  OnTrace-get_all d = OnTrace-walk_reports _ _ _ d

  OnTrace-remove_reports : (rs : List Report) → Keeps (OnTrace Q) (remove_reports rs)
  unfolding remove_reports
  OnTrace-remove_reports [] = Keeps-pure tt
  OnTrace-remove_reports (r ∷ rs) =
      Keeps-bind _ _ (Keeps-attempt _ (OnTrace-remove Q r.path)) (λ _. OnTrace-remove_reports rs)

  pub OnTrace-cleanup : (d : FilePath) (k : ℕ) → Keeps (OnTrace Q) (cleanup d k)
  unfolding cleanup remove_surplus
  OnTrace-cleanup d k = search (trace_rules, OnTrace-get_all, OnTrace-remove_reports) depth 7
