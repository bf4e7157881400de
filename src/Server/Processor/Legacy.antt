-- ===== src/Server/Processor/Legacy.antt =====
-- The name that the web service gives to a legacy report, as the ingest service reads it.
use ubuntu_insights.Base.{
  All, Bytes, [], ap, arith, bytes_dec, codes, false, is_nil, refl, true, ◌++◌, ◌==◌, ◌∙◌, ◌∷◌, ◌≡◌,
}
use ubuntu_insights.Server.Handlers.{legacy_app, legacy_report_tag}
use ubuntu_insights.Server.Path.{split}
use ubuntu_insights.Server.Processor.{is_legacy, parse_legacy_app}

-- A name of one path element.
abbrev pub IsElement : Bytes → Type 0
IsElement = All (λ c. (c == b'/') ≡ false)

split_element : (a : Bytes) → IsElement a → split a ≡ a ∷ []
unfolding split
split_element [] h = refl
split_element (c ∷ a) (hc, h) = rw (hc, split_element a h) refl

split-append : (a b : Bytes) → IsElement a → split (a ++ (b'/' ∷ b)) ≡ a ∷ split b
unfolding split
split-append [] b h = refl
split-append (c ∷ a) b (hc, h) = rw (hc, split-append a b h) refl

tag-IsElement : IsElement legacy_report_tag
tag-IsElement = ground arith

desktop-IsElement : IsElement (codes "desktop")
desktop-IsElement = ground arith

split-legacy_app :
    (d v : Bytes)
    → IsElement d
    → IsElement v
    → split (legacy_app d v) ≡ legacy_report_tag ∷ d ∷ codes "desktop" ∷ v ∷ []
unfolding legacy_app
split-legacy_app d v hd hv =
    split-append legacy_report_tag (d ++ (codes "/desktop/" ++ v)) tag-IsElement
    ∙ ap (λ l. legacy_report_tag ∷ l)
        (split-append d (codes "desktop/" ++ v) hd
          ∙ ap (λ l. d ∷ l)
              (split-append (codes "desktop") v desktop-IsElement
                ∙ ap (λ l. codes "desktop" ∷ l) (split_element v hv)))

-- The ingest service takes the directory of a legacy report for one, and reads off it the
-- distribution and the version that the web service made it of, when these are path elements and
-- not empty.
pub parse_legacy_app-legacy_app :
    (d v : Bytes)
    → IsElement d
    → IsElement v
    → is_nil d ≡ false
    → is_nil v ≡ false
    → (is_legacy (legacy_app d v) ≡ true) × (parse_legacy_app (legacy_app d v) ≡ (d, v))
unfolding is_legacy parse_legacy_app bytes_dec
parse_legacy_app-legacy_app d v hd hv nd nv = rw (split-legacy_app d v hd hv, nd, nv) (refl, refl)
