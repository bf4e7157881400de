-- ===== src/Base/Decimal/RoundTrip.antt =====
-- Printing an int64 in decimal and parsing it back.
use Prim.Native.Nat.{ℕ, zero, suc, ◌+◌, ◌-◌, ◌*◌, ◌/◌, ◌%◌, ◌^◌, ◌≤◌, ◌<◌}
use native.Mathlib.Nat.{pow-suc}
use mathlib.Core.Path.{◌≡◌, refl, ap, ◌∙◌}
use mathlib.Core.Logic.{◌≢◌, inl, inr}
use mathlib.Core.Option.{some}
use mathlib.Core.List.{[], ◌∷◌, ◌++◌}
use native.Mathlib.Omega.{arith}
use ubuntu_insights.Base.Tests.{ltb, Bool-cases, ltb→lt}
use ubuntu_insights.Base.Lists.{All, All-append}
use ubuntu_insights.Base.Text.{Bytes}
use ubuntu_insights.Base.Int.{ℤ, pos, negsuc, IsInt64}
use ubuntu_insights.Base.Decimal.{
  digits, max_digits, format_ℕ, format_int, scan, parse_digits, parse_int,
}

-- A byte that is a decimal digit.
abbrev pub IsDigit : ℕ → Type 0
IsDigit c = (b'0' ≤ c) × (c ≤ b'9')

scan-append : (s t : Bytes) (n m : ℕ) → scan n s ≡ some m → scan n (s ++ t) ≡ scan m t
unfolding scan
scan-append [] t n m h = ground arith
scan-append (c ∷ s) t n m h = ground (arith, scan-append s t (n * 10 + (c - b'0')) m)

last_digit : (n : ℕ) → scan (n / 10) ((b'0' + n % 10) ∷ []) ≡ some n
unfolding scan
last_digit n = ground arith

scan-digits : (fuel n : ℕ) → n < 10 ^ fuel → scan 0 (digits fuel n) ≡ some n
unfolding digits scan
scan-digits zero n h = ap some (omega arith)
scan-digits (suc fuel) n h = elim (Bool-cases (ltb n 10)) [
  | inl small ↦ rw small (ground (arith, ltb→lt n 10 small))
  | inr large ↦ rw large (
      scan-append (digits fuel (n / 10)) _ 0 (n / 10)
        (scan-digits fuel (n / 10) (omega (arith, rw pow-suc at h)))
      ∙ last_digit n)
]

digits-IsDigit : (fuel n : ℕ) → All IsDigit (digits fuel n)
unfolding digits
digits-IsDigit zero n = tt
digits-IsDigit (suc fuel) n = elim (Bool-cases (ltb n 10)) [
  | inl small ↦ rw small (ground arith)
  | inr large ↦ rw large (All-append IsDigit _ _ (digits-IsDigit fuel (n / 10)) (omega arith))
]

append-ne-nil : (xs : Bytes) (y : ℕ) → xs ++ (y ∷ []) ≢ []
append-ne-nil [] y e = cc
append-ne-nil (x ∷ xs) y e = cc

module _ (fuel n : ℕ) where
  digits-ne-nil : digits (suc fuel) n ≢ []
  unfolding digits
  digits-ne-nil = elim (Bool-cases (ltb n 10)) [
    | inl small ↦ rw small (λ e. cc)
    | inr large ↦ rw large (append-ne-nil (digits fuel (n / 10)) (b'0' + n % 10))
  ]

  Starts : Bytes → Type 0
  Starts s = (c : ℕ) × (r : Bytes) × (s ≡ c ∷ r) × IsDigit c

  Starts-of_digits : (s : Bytes) → All IsDigit s → s ≢ [] → Starts s
  unfolding Starts
  Starts-of_digits [] h ne = absurd (ne refl)
  Starts-of_digits (c ∷ r) h ne = (c, r, refl, h.0)

  digits-Starts : Starts (digits (suc fuel) n)
  digits-Starts = Starts-of_digits _ (digits-IsDigit (suc fuel) n) digits-ne-nil

-- A printed number parses to itself.
pub parse_digits-format_ℕ : (n : ℕ) → n < 10 ^ max_digits → parse_digits (format_ℕ n) ≡ some n
unfolding parse_digits scan format_ℕ Starts
parse_digits-format_ℕ n h =
    let (c, r, e, d) = digits-Starts 19 n in rw e (rw e at (scan-digits max_digits n h))

pub format_ℕ-IsDigit : (n : ℕ) → All IsDigit (format_ℕ n)
unfolding format_ℕ
format_ℕ-IsDigit n = digits-IsDigit max_digits n

format_ℕ-Starts : (n : ℕ) → (c : ℕ) × (r : Bytes) × (format_ℕ n ≡ c ∷ r) × IsDigit c
unfolding format_ℕ Starts
format_ℕ-Starts n = digits-Starts 19 n

parse_int-unsigned :
    (c m : ℕ) (r : Bytes)
    → IsDigit c
    → parse_digits (c ∷ r) ≡ some m
    → m < 2 ^ 63
    → parse_int (c ∷ r) ≡ some (pos m)
unfolding parse_int
parse_int-unsigned c m r d e h = ground arith

parse_int-minus :
    (n : ℕ) (s : Bytes)
    → parse_digits s ≡ some (suc n)
    → n < 2 ^ 63
    → parse_int (b'-' ∷ s) ≡ some (negsuc n)
unfolding parse_int
parse_int-minus n s e h = ground arith

-- Parsing what `%v` prints of an int64 gives that int64.
pub parse_int-format_int : (t : ℤ) → IsInt64 t → parse_int (format_int t) ≡ some t
unfolding format_int
parse_int-format_int (pos n) h =
    let (c, r, e, d) = format_ℕ-Starts n in
    rw e
      (parse_int-unsigned c n r d (rw e at (parse_digits-format_ℕ n (omega arith))) (omega arith))
parse_int-format_int (negsuc n) h =
    parse_int-minus n (format_ℕ (suc n)) (parse_digits-format_ℕ (suc n) (omega arith)) (omega arith)
