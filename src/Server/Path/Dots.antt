-- ===== src/Server/Path/Dots.antt =====
-- A name without ".." names a path below the directory that it is joined to.
use ubuntu_insights.Base.{
  Bool-cases, Bytes, Has, List, [], ap, arith, bytes_dec, false, inl, inr, refl, sym, true, ℕ, ◌++◌,
  ◌==◌, ◌∙◌, ◌∷◌, ◌≡◌, ◌≢◌, ◌⊎◌,
}
use ubuntu_insights.Server.Path.{
  contains, dot_dot, has_prefix, join_path, onto_first, split, walk, walk_element,
}
use ubuntu_insights.System.World.{FilePath}

first : List Bytes → Bytes
first [] = []
first (e ∷ es) = e

first_onto : (c : ℕ) (l : List Bytes) → first (onto_first c l) ≡ c ∷ first l
unfolding first
first_onto c [] = refl
first_onto c (e ∷ es) = refl

-- What the first element begins with, the path begins with.
first_prefix : (s t : Bytes) → has_prefix (first (split s)) t ≡ true → has_prefix s t ≡ true
unfolding split has_prefix first
first_prefix s [] h = refl
first_prefix [] (x ∷ xs) h = h
first_prefix (c ∷ s) (x ∷ xs) h = elim (Bool-cases (c == b'/')) [
  | inl e ↦ absurd (ground (arith, h))
  | inr e ↦ ground (arith, first_prefix s xs, first_onto c (split s))
]

Has-onto_first :
    (c : ℕ) (l : List Bytes)
    → Has dot_dot (onto_first c l)
    → (dot_dot ≡ first (onto_first c l)) ⊎ Has dot_dot l
unfolding first
Has-onto_first c [] h = ground arith
Has-onto_first c (e ∷ es) h = ground arith

Has-split :
    (c : ℕ) (s : Bytes)
    → Has dot_dot (split (c ∷ s))
    → (dot_dot ≡ first (split (c ∷ s))) ⊎ Has dot_dot (split s)
unfolding split first
Has-split c s h = elim (Bool-cases (c == b'/')) [
  | inl e ↦ ground (arith, h)
  | inr e ↦ ground (arith, h, Has-onto_first c (split s))
]

contains-cons :
    (c : ℕ) (s t : Bytes)
    → contains (c ∷ s) t ≡ false
    → (has_prefix (c ∷ s) t ≡ false) × (contains s t ≡ false)
unfolding contains
contains-cons c s t h = ground arith

begins_dot_dot : (s : Bytes) → dot_dot ≡ first (split s) → has_prefix s dot_dot ≡ true
unfolding has_prefix
begins_dot_dot s e = first_prefix s dot_dot (ap (λ x. has_prefix x dot_dot) (sym e))

no_elements : ¬ Has dot_dot (split [])
unfolding split
no_elements m = ground arith

-- No element of a path without ".." is "..".
pub split-Has-dot_dot : (s : Bytes) → contains s dot_dot ≡ false → ¬ Has dot_dot (split s)
split-Has-dot_dot [] h m = no_elements m
split-Has-dot_dot (c ∷ s) h m = elim (Has-split c s m) [
  | inl e ↦ absurd (ground (arith, begins_dot_dot (c ∷ s) e, contains-cons c s dot_dot h))
  | inr k ↦ split-Has-dot_dot s (contains-cons c s dot_dot h).1 k
]

-- `p` lies below `d`, or is `d`.
abbrev pub IsBelow : FilePath → FilePath → Type 0
IsBelow d p = (q : FilePath) × (p ≡ q ++ d)

walk_element_cases :
    (p : FilePath) (e : Bytes)
    → dot_dot ≢ e
    → (walk_element true p e ≡ p) ⊎ (walk_element true p e ≡ e ∷ p)
unfolding walk_element
walk_element_cases p e n = elim (bytes_dec e dot_dot) [
  | yes y ↦ absurd (n (sym y))
  | no z ↦ ground arith
]

walk_element-IsBelow :
    (d p : FilePath) (e : Bytes) → IsBelow d p → dot_dot ≢ e → IsBelow d (walk_element true p e)
walk_element-IsBelow d p e (q, h) n = elim (walk_element_cases p e n) [
  | inl y ↦ (q, y ∙ h)
  | inr y ↦ (e ∷ q, y ∙ ap (λ x. e ∷ x) h)
]

walk-IsBelow :
    (d p : FilePath) (es : List Bytes) → IsBelow d p → ¬ Has dot_dot es → IsBelow d (walk true p es)
unfolding walk
walk-IsBelow d p [] b n = b
walk-IsBelow d p (e ∷ es) b n =
    walk-IsBelow d (walk_element true p e) es (walk_element-IsBelow d p e b (λ x. n (inl x)))
      (λ x. n (inr x))

-- A name without ".." stays in the directory.
pub join_path-IsBelow :
    (d : FilePath) (s : Bytes) → contains s dot_dot ≡ false → IsBelow d (join_path d s)
unfolding join_path
join_path-IsBelow d s h = walk-IsBelow d d (split s) ([], refl) (split-Has-dot_dot s h)
