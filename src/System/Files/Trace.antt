-- ===== src/System/Files/Trace.antt =====
-- No call on the file system sends a request or pauses: rules for what depends on those alone.
use mathlib.Core.Path.{subst₂}
use ubuntu_insights.Base.{Bytes, List, [], arith, sym, ℕ, ◌∷◌, ◌≡◌}
use ubuntu_insights.System.Files.{
  chmod, close, create_temp, made, mkdir_all, node_at, read_dir, read_file, remove, rename, stat,
  syscall, write,
}
use ubuntu_insights.System.Keeps.{Keeps, Keeps-bind, Keeps-pure, keeps_rules}
use ubuntu_insights.System.World.{FilePath, Io, Post, World}

-- A property of the requests that were sent and of the pauses that were made.
unfoldable pub OnTrace : (List Post → List ℕ → Type 0) → World → Type 0
OnTrace Q w = Q w.posts w.slept

pub OnTrace_intro : (Q : List Post → List ℕ → Type 0) (w : World) → Q w.posts w.slept → OnTrace Q w
unfolding OnTrace
OnTrace_intro Q w h = h

pub OnTrace_elim : (Q : List Post → List ℕ → Type 0) (w : World) → OnTrace Q w → Q w.posts w.slept
unfolding OnTrace
OnTrace_elim Q w h = h

pub Keeps-of_trace {ℓ} :
    {A : Type ℓ} (Q : List Post → List ℕ → Type 0) (m : Io A)
    → ((w : World) → ((m w).1.posts ≡ w.posts) × ((m w).1.slept ≡ w.slept))
    → Keeps (OnTrace Q) m
unfolding OnTrace
Keeps-of_trace Q m h = record { at = λ w q. subst₂ Q (sym (h w).0) (sym (h w).1) q }

module _ (Q : List Post → List ℕ → Type 0) where
  pub OnTrace-stat : (p : FilePath) → Keeps (OnTrace Q) (stat p)
  unfolding stat
  OnTrace-stat p = Keeps-of_trace Q (stat p) (λ w. ground arith)

  pub OnTrace-read_file : (p : FilePath) → Keeps (OnTrace Q) (read_file p)
  unfolding read_file
  OnTrace-read_file p = Keeps-of_trace Q (read_file p) (λ w. ground arith)

  pub OnTrace-read_dir : (p : FilePath) → Keeps (OnTrace Q) (read_dir p)
  unfolding read_dir
  OnTrace-read_dir p = Keeps-of_trace Q (read_dir p) (λ w. ground arith)

  pub OnTrace-remove : (p : FilePath) → Keeps (OnTrace Q) (remove p)
  unfolding remove
  OnTrace-remove p = Keeps-of_trace Q (remove p) (λ w. ground arith)

  pub OnTrace-rename : (p q : FilePath) → Keeps (OnTrace Q) (rename p q)
  unfolding rename
  OnTrace-rename p q = Keeps-of_trace Q (rename p q) (λ w. ground arith)

  pub OnTrace-create_temp : (p : FilePath) → Keeps (OnTrace Q) (create_temp p)
  unfolding create_temp
  OnTrace-create_temp p = Keeps-of_trace Q (create_temp p) (λ w. ground arith)

  pub OnTrace-write : (p : FilePath) (b : Bytes) → Keeps (OnTrace Q) (write p b)
  unfolding write
  OnTrace-write p b = Keeps-of_trace Q (write p b) (λ w. ground arith)

  pub OnTrace-close : Keeps (OnTrace Q) close
  unfolding close
  OnTrace-close = Keeps-of_trace Q close (λ w. ground arith)

  pub OnTrace-chmod : (p : FilePath) → Keeps (OnTrace Q) (chmod p)
  unfolding chmod
  OnTrace-chmod p = Keeps-bind _ _ (OnTrace-stat p) (λ _. Keeps-pure tt)

  made_trace : (p : FilePath) → Keeps (OnTrace Q) (syscall (λ w. made p (node_at p w.tree) w))
  unfolding syscall
  made_trace p = Keeps-of_trace Q (syscall (λ w. made p (node_at p w.tree) w)) (λ w. ground arith)

  pub OnTrace-mkdir_all : (p : FilePath) → Keeps (OnTrace Q) (mkdir_all p)
  unfolding mkdir_all
  OnTrace-mkdir_all [] = Keeps-pure tt
  OnTrace-mkdir_all (n ∷ p) = Keeps-bind _ _ (OnTrace-mkdir_all p) (λ _. made_trace (n ∷ p))

pub ruleset trace_rules = (
  keeps_rules, OnTrace-stat, OnTrace-read_file, OnTrace-read_dir, OnTrace-remove, OnTrace-rename,
  OnTrace-create_temp, OnTrace-write, OnTrace-close, OnTrace-chmod, OnTrace-mkdir_all,
)
