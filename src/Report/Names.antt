-- ===== src/Report/Names.antt =====
-- The name that the collector gives a report, read back; and the bounds of the period's start.
use ubuntu_insights.Base.{
  All, Bytes, [], arith, bytes_dec, ext, refl, suc, trim_suffix, ℕ, ◌++◌, ◌<◌, ◌^◌, ◌∷◌, ◌≡◌, ◌≢◌,
  ◌⊎◌,
}
use ubuntu_insights.Base.Decimal.{format_int}
use ubuntu_insights.Base.Decimal.RoundTrip.{IsDigit, format_ℕ-IsDigit, parse_int-format_int}
use ubuntu_insights.Base.Int.{IsInt64, min_int64, negsuc, pos, ℤ, ◌-ℤ◌, ◌≤ℤ◌}
use ubuntu_insights.Report.{new_report, period_start, report_ext, report_time}
use ubuntu_insights.System.World.{FilePath, ok}

-- fmt.Sprintf("%v.json", time), as the collector writes it
unfoldable pub report_name : ℤ → Bytes
report_name t = format_int t ++ report_ext

-- A byte of a printed number: it is no dot.
abbrev IsPlain : ℕ → Type 0
IsPlain c = c ≢ b'.'

digits_IsPlain : (s : Bytes) → All IsDigit s → All IsPlain s
digits_IsPlain [] h = tt
digits_IsPlain (c ∷ s) h = (omega arith, digits_IsPlain s h.1)

format_int-IsPlain : (t : ℤ) → All IsPlain (format_int t)
unfolding format_int
format_int-IsPlain (pos n) = digits_IsPlain _ (format_ℕ-IsDigit n)
format_int-IsPlain (negsuc n) = (omega arith, digits_IsPlain _ (format_ℕ-IsDigit (suc n)))

ext-append : (s : Bytes) → All IsPlain s → ext (s ++ report_ext) ≡ report_ext
unfolding ext
ext-append [] h = refl
ext-append (c ∷ s) h = ground (arith, ext-append s h.1)

trim_suffix_whole : trim_suffix report_ext report_ext ≡ []
unfolding trim_suffix bytes_dec
trim_suffix_whole = refl

trim_suffix-append : (s : Bytes) → All IsPlain s → trim_suffix (s ++ report_ext) report_ext ≡ s
unfolding trim_suffix
trim_suffix-append [] h = trim_suffix_whole
trim_suffix-append (c ∷ s) h = ground (arith, trim_suffix-append s h.1)

ext-report_name : (t : ℤ) → ext (report_name t) ≡ report_ext
unfolding report_name
ext-report_name t = ext-append (format_int t) (format_int-IsPlain t)

report_time-report_name : (t : ℤ) → IsInt64 t → report_time (report_name t) ≡ ok t
unfolding report_time report_name
report_time-report_name t h =
    rw (ext-append (format_int t) (format_int-IsPlain t)) (
      rw (trim_suffix-append (format_int t) (format_int-IsPlain t)) (rw (parse_int-format_int t h)))

-- Reading the file name that the collector writes for an int64 time, in any directory, gives a
-- report of that time, at that path, with nothing stashed.
pub new_report-report_name :
    (t : ℤ) (d : FilePath)
    → IsInt64 t
    → new_report (report_name t ∷ d)
      ≡ ok (record {
        path = report_name t ∷ d;
        name = report_name t;
        time_stamp = t;
        stash_path = [];
        stash_data = [];
      })
unfolding new_report
new_report-report_name t d h = ground (arith, ext-report_name t, report_time-report_name t h)

-- The start of a period is `t - period`, or the least int64 where that is less: no wrap-around.
pub period_start_clamped :
    (t : ℤ) (period : ℕ)
    → IsInt64 t
    → period < 2 ^ 32
    → let s = period_start t period in
      IsInt64 s
      × (s ≤ℤ t)
      × ((s ≡ t -ℤ pos period) ⊎ ((s ≡ min_int64) × (t -ℤ pos period ≤ℤ min_int64)))
unfolding period_start
period_start_clamped (pos n) period h k = ground arith
period_start_clamped (negsuc n) period h k = ground arith
