-- ===== src/Client/Commands/Words.antt =====
-- The words for a state on the command line, and their lower case.
use ubuntu_insights.Base.{
  All, Bool, Bool-cases, Bytes, List, Option, [], arith, bytes_dec, false, inl, inr, is_nil-eq_true,
  list_dec, none, refl, some, subst, sym, true, ℕ_discrete, ◌∷◌, ◌≡◌, ◌⊎◌,
}
use ubuntu_insights.Client.Commands.{
  false_words, is_word, parse_bool, pre_run, refused_state, to_lower, true_words,
}
use ubuntu_insights.System.World.{done}

module _ (P : Bytes → Type 0) where
  is_word-All : (b : Bytes) (words : List Bytes) → All P words → is_word b words ≡ true → P b
  unfolding is_word
  is_word-All b [] h e = cc
  is_word-All b (x ∷ xs) h e = elim (bytes_dec b x) [
    | yes p ↦ subst P (sym p) h.0
    | no n ↦ is_word-All b xs h.1 (ground (arith, n))
  ]

-- The lower case of the text stands for the same state.
abbrev pub LowersTo : Bool → Bytes → Type 0
LowersTo v b = parse_bool (to_lower b) ≡ some v

true_words_lower : All (LowersTo true) true_words
unfolding parse_bool is_word bytes_dec list_dec ℕ_discrete
true_words_lower = (refl, (refl, (refl, (refl, (refl, (refl, tt))))))

false_words_lower : All (LowersTo false) false_words
unfolding parse_bool is_word bytes_dec list_dec ℕ_discrete
false_words_lower = (refl, (refl, (refl, (refl, (refl, (refl, tt))))))

pub parse_bool-to_lower : (b : Bytes) (v : Bool) → parse_bool b ≡ some v → LowersTo v b
unfolding parse_bool
parse_bool-to_lower b v h = elim (Bool-cases (is_word b true_words)) [
  | inl t ↦
      subst (λ u. LowersTo u b) (ground arith)
        (is_word-All (LowersTo true) b true_words true_words_lower t)
  | inr f ↦ elim (Bool-cases (is_word b false_words)) [
    | inl t ↦
        subst (λ u. LowersTo u b) (ground arith)
          (is_word-All (LowersTo false) b false_words false_words_lower t)
    | inr g ↦ absurd (ground arith)
  ]
]

-- A state that PreRunE accepts is none, or it stands for a value, in its lower case too.
pub pre_run_accepts :
    (state : Bytes)
    → pre_run state ≡ done
    → (state ≡ []) ⊎ ((v : Bool) × (parse_bool state ≡ some v) × LowersTo v state)
unfolding pre_run
pre_run_accepts state h = accepted (parse_bool state) refl h
  where
    accepted :
        (o : Option Bool)
        → parse_bool state ≡ o
        → refused_state state o ≡ done
        → (state ≡ []) ⊎ ((v : Bool) × (parse_bool state ≡ some v) × LowersTo v state)
    accepted (some v) e r = inr (v, e, parse_bool-to_lower state v e)
    accepted none e r = inl (is_nil-eq_true state (ground arith))
