-- ===== src/Server/Sanitize.antt =====
-- sanitizeInvalidUnicodeEscapes of server/internal/ingest/processor/processor.go, with Go's
-- bytes.ReplaceAll.
pub mod Clean
use ubuntu_insights.Base.{
  Bytes, [], codes, if◌then◌else◌, length, refl, suc, zero, ℕ, ◌++◌, ◌-◌, ◌∷◌, ◌≡◌,
}
use ubuntu_insights.Server.Path.{has_prefix}

-- bytes.ReplaceAll of a pattern that is not empty: `skip` bytes of a match are left to pass.
unfoldable pub replace_from : ℕ → Bytes → Bytes → Bytes → Bytes
replace_from skip [] old new = []
replace_from (suc skip) (c ∷ s) old new = replace_from skip s old new
replace_from zero (c ∷ s) old new =
    let after = replace_from (length old - 1) s old new in
    let rest = replace_from zero s old new in
    if has_prefix (c ∷ s) old then new ++ after else c ∷ rest

abbrev pub replace_all : Bytes → Bytes → Bytes → Bytes
replace_all s old new = replace_from 0 s old new

abbrev pub null_escape : Bytes
null_escape = codes "\\u0000"

abbrev pub replacement_escape : Bytes
replacement_escape = codes "\\ufffd"

unfoldable pub sanitize_invalid_unicode_escapes : Bytes → Bytes
sanitize_invalid_unicode_escapes data' = replace_all data' null_escape replacement_escape

sanitize_lem :
    sanitize_invalid_unicode_escapes (codes "a\\u0000\\u0000b") ≡ codes "a\\ufffd\\ufffdb"
unfolding sanitize_invalid_unicode_escapes replace_from has_prefix
sanitize_lem = refl
