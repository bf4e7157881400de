-- ===== src/Server/Sanitize/Clean.antt =====
-- The sanitised data holds no escape of the null character.
use ubuntu_insights.Base.{
  All, Bool-cases, Bytes, [], ap, arith, codes, false, if◌then◌else◌, inl, inr, refl, suc, true,
  zero, ℕ, ◌++◌, ◌==◌, ◌∙◌, ◌∷◌, ◌≡◌, ◌≢◌, ◌⊎◌,
}
use ubuntu_insights.Server.Path.{contains, has_prefix}
use ubuntu_insights.Server.Sanitize.{
  null_escape, replace_from, replacement_escape, sanitize_invalid_unicode_escapes,
}

abbrev scanned : ℕ → Bytes → Bytes
scanned skip s = replace_from skip s null_escape replacement_escape

abbrev Step : ℕ → Bytes → Type 0
Step c s =
    ((has_prefix (c ∷ s) null_escape ≡ true)
      × (scanned 0 (c ∷ s) ≡ replacement_escape ++ scanned 5 s))
    ⊎ ((has_prefix (c ∷ s) null_escape ≡ false) × (scanned 0 (c ∷ s) ≡ c ∷ scanned 0 s))

scanned-Step : (c : ℕ) (s : Bytes) → Step c s
unfolding replace_from
scanned-Step c s = elim (Bool-cases (has_prefix (c ∷ s) null_escape)) [
  | inl m ↦ inl (m, rw m refl)
  | inr m ↦ inr (m, rw m refl)
]

prefix_nil : (s : Bytes) → has_prefix s [] ≡ true
unfolding has_prefix
prefix_nil s = refl

prefix_scanned_nil : (t : Bytes) → has_prefix (scanned 0 []) t ≡ true → has_prefix [] t ≡ true
unfolding replace_from
prefix_scanned_nil t h = h

prefix_cons :
    (c x : ℕ) (s t : Bytes)
    → has_prefix (c ∷ s) (x ∷ t) ≡ (if c == x then has_prefix s t else false)
unfolding has_prefix
prefix_cons c x s t = refl

contains_cons :
    (c : ℕ) (s t : Bytes)
    → contains (c ∷ s) t ≡ (if has_prefix (c ∷ s) t then true else contains s t)
unfolding contains
contains_cons c s t = refl

contains_nil : contains [] null_escape ≡ false
unfolding contains has_prefix
contains_nil = refl

-- Bytes other than a backslash, at the start of what is written, were read.
plain_prefix :
    (t s : Bytes) → All (λ x. x ≢ 92) t → has_prefix (scanned 0 s) t ≡ true → has_prefix s t ≡ true
plain_prefix [] s n h = prefix_nil s
plain_prefix (x ∷ t) [] n h = prefix_scanned_nil (x ∷ t) h
plain_prefix (x ∷ t) (c ∷ s) (nx, n) h = elim (scanned-Step c s) [
  | inl (m, e) ↦ absurd (
      ground (
        arith,
        ap (λ y. has_prefix y (x ∷ t)) e,
        prefix_cons 92 x (codes "ufffd" ++ scanned 5 s) t,
      ))
  | inr (m, e) ↦ ground (
    arith,
    ap (λ y. has_prefix y (x ∷ t)) e,
    prefix_cons c x (scanned 0 s) t,
    prefix_cons c x s t,
    plain_prefix t s n,
  )
]

clean_replacement :
    (r : Bytes) → contains (replacement_escape ++ r) null_escape ≡ contains r null_escape
unfolding contains has_prefix
clean_replacement r = refl

clean_kept :
    (c : ℕ) (s : Bytes)
    → has_prefix (c ∷ s) null_escape ≡ false
    → contains (scanned 0 s) null_escape ≡ false
    → contains (c ∷ scanned 0 s) null_escape ≡ false
clean_kept c s m h = ground (
  arith,
  contains_cons c (scanned 0 s) null_escape,
  prefix_cons c 92 (scanned 0 s) (codes "u0000"),
  prefix_cons c 92 s (codes "u0000"),
  plain_prefix (codes "u0000") s plain_tail,
)
  where
    plain_tail : All (λ x. x ≢ 92) (codes "u0000")
    plain_tail = (omega arith, (omega arith, (omega arith, (omega arith, (omega arith, tt)))))

-- What is written holds no escaped null character, wherever the loop stands.
scanned_clean : (skip : ℕ) (s : Bytes) → contains (scanned skip s) null_escape ≡ false
unfolding replace_from
scanned_clean skip [] = contains_nil
scanned_clean (suc skip) (c ∷ s) = scanned_clean skip s
scanned_clean zero (c ∷ s) = elim (scanned-Step c s) [
  | inl (m, e) ↦
      ap (λ x. contains x null_escape) e ∙ clean_replacement (scanned 5 s) ∙ scanned_clean 5 s
  | inr (m, e) ↦ ap (λ x. contains x null_escape) e ∙ clean_kept c s m (scanned_clean 0 s)
]

-- No data holds the escape of the null character any more, once it is sanitised.
pub sanitize-contains :
    (data' : Bytes) → contains (sanitize_invalid_unicode_escapes data') null_escape ≡ false
unfolding sanitize_invalid_unicode_escapes
sanitize-contains data' = scanned_clean 0 data'
