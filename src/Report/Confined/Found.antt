-- ===== src/Report/Confined/Found.antt =====
-- The reports that a walk finds are inside its directory.
use ubuntu_insights.Base.{
  All, All-Has, Bytes, List, [], ap, arith, false, leb, length, some, subst, suc, sym, take, zero,
  ℕ, ◌-◌, ◌++◌, ◌∷◌, ◌≡◌, ◌≢◌,
}
use ubuntu_insights.Base.Int.{ℤ}
use ubuntu_insights.Report.{
  Report, admit, cleanup, get_all, max_int64, min_int64, new_report, remove_reports, remove_surplus,
  sort_reports, too_many, under, walk_entries, walk_reports,
}
use ubuntu_insights.Report.Confined.{Inside, Stays, Stays-get_all, Stays-remove_reports}
use ubuntu_insights.Report.Sort.{All-sort_reports}
use ubuntu_insights.Report.Window.{All-admitted, All-collect_reports}
use ubuntu_insights.System.Files.{read_dir, stat}
use ubuntu_insights.System.Keeps.{Keeps, Keeps-if, Keeps-pure, Keeps-raise}
use ubuntu_insights.System.Steps.{bind-eq_ok, bind_elim}
use ubuntu_insights.System.World.{
  FilePath, Node, World, dir, file, hiding, ok, plain, pure, raise, ◌>>=◌,
}

admit-path :
    (from to : ℤ) (p : FilePath) (a : Node) (r : Report)
    → admit from to (p, a) ≡ some r
    → r.path ≡ p
unfolding admit new_report
admit-path from to p dir r h = absurd (ground arith)
admit-path from to p (file b) r h = ground arith

ok_value : {A : Type 0} (x y : A) → ok x ≡ ok y → x ≡ y
ok_value x y h = cc

module _ (root : FilePath) where
  abbrev InsideAll : List (FilePath × Node) → Type 0
  InsideAll = All (λ (x : FilePath × Node). Inside root x.0)

  under-Inside : (d : FilePath) (l : List (Bytes × Node)) → Inside root d → InsideAll (under d l)
  unfolding under
  under-Inside d [] i = tt
  under-Inside d ((n, a) ∷ l) (x, d', i) =
      ((n, x ∷ d', ap (λ p. n ∷ p) i), under-Inside d l (x, d', i))

  walk_entries-Inside :
      (d : FilePath) (a : Node) (w : World) (l : List (FilePath × Node))
      → Inside root d
      → (walk_entries d a w).0 ≡ ok l
      → InsideAll l
  walk_entries-Inside d (file b) w l i h = subst InsideAll (ok_value _ l h) (i, tt)
  walk_entries-Inside d dir w l i h =
      let (es, e, h') = bind-eq_ok (hiding (read_dir d)) (λ es. pure (under d es)) w h in
      subst InsideAll (ok_value _ l h') (under-Inside d es i)

  pub get_all-Inside :
      (d : FilePath) (w : World) (rs : List Report)
      → Inside root d
      → (get_all d w).0 ≡ ok rs
      → All (λ (r : Report). Inside root r.path) rs
  unfolding get_all walk_reports
  get_all-Inside d w rs i h =
      let (a, e1, h1) = bind-eq_ok (hiding (stat d)) _ w h in
      let w1 = (stat d w).1 in
      let (l, e2, h2) = bind-eq_ok (walk_entries d a) _ w1 h1 in
      let inside = walk_entries-Inside d a w1 l i e2 in
      let P : Report → Type 0 = λ r. Inside root r.path in
      subst (All P) (ok_value _ rs h2) (
        All-collect_reports min_int64 max_int64 P (λ _. false) [] l tt
          (All-admitted min_int64 max_int64 P l (λ x r has adm.
            subst (Inside root) (sym (admit-path min_int64 max_int64 x.0 x.1 r adm))
              (All-Has (λ (y : FilePath × Node). Inside root y.0) l x inside has))))

All-take : (P : Report → Type 0) (n : ℕ) (rs : List Report) → All P rs → All P (take n rs)
All-take P zero rs h = tt
All-take P (suc n) [] h = tt
All-take P (suc n) (r ∷ rs) h = (h.0, All-take P n rs h.1)

module _ (root : FilePath) (m : Bytes) (e : FilePath) (b : Bytes)
    (outside : (p : FilePath) → (m ∷ e) ≢ p ++ root) where
  Stays-remove_surplus :
      (k : ℕ) (rs : List Report)
      → All (λ (r : Report). Inside root r.path) rs
      → Keeps (Stays (m ∷ e) b) (remove_surplus k rs)
  unfolding remove_surplus
  Stays-remove_surplus k rs h =
      let P : Report → Type 0 = λ r. Inside root r.path in
      let surplus = take (length rs - k) (sort_reports rs) in
      Keeps-if (leb (length rs) k) (pure tt) (remove_reports surplus) (λ _. Keeps-pure tt)
        (λ _.
          Stays-remove_reports root m e b outside surplus
            (All-take P (length rs - k) (sort_reports rs) (All-sort_reports P rs h)))

  pub Stays-cleanup : (d : FilePath) (k : ℕ) → Inside root d → Keeps (Stays (m ∷ e) b) (cleanup d k)
  unfolding cleanup
  Stays-cleanup d k i =
      Keeps-if (too_many k) (raise plain) (get_all d >>= remove_surplus k) (λ _. Keeps-raise plain)
        (λ _. record {
          at = λ w s.
              let found = (Stays-get_all (m ∷ e) b d).at w s in
              bind_elim (λ _ w'. Stays (m ∷ e) b w') (get_all d) (remove_surplus k) w
                (λ rs h. (Stays-remove_surplus k rs (get_all-Inside root d w rs i h)).at _ found)
                (λ _ _. found);
        })
