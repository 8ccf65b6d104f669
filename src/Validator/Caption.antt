-- ===== src/Validator/Caption.antt =====
-- validator.py: the caption caps, the presence checks and the clamps at the end of
-- `validate_and_correct`, and the override of the surface at its start.
use marketer.Prelude.{
  ℕ, ◌+◌, ◌≤◌, min, max, String, Bool, ◌&&◌, not, Option, none, some, List, [], ◌++◌, arith, ◌==◌,
  ltb, if◌then◌else◌, length, length-take, take, Bool-cases, inl, inr,
}
use marketer.Schemas.{Warning, CaptionParts, HashtagStrategy}
use marketer.Text.{len, strip}
use marketer.Validator.Visual.{warn_if}

-- The surface that the enrichment gets, and the warning when it is not the chosen one.
unfoldable pub override_surface : Option String → String → String × List Warning
override_surface none chosen = (chosen, [])
override_surface (some asked) chosen =
    let b = not (asked == "") && not (chosen == asked) in
    (if b then asked else chosen, warn_if b "surface_format_overridden" (some "surface_format"))

pub record Caps : Type 0 where
  pub hook : ℕ
  pub body : ℕ
  pub cta_line : ℕ
  pub total : ℕ

abbrev pub post_caps : Caps
post_caps = record { hook = 125; body = 1900; cta_line = 180; total = 2200 }

-- `_CAPTION_CAPS.get(surface_format, _CAPTION_CAPS["post"])`
unfoldable pub caps_of : String → Caps
caps_of surface =
    if surface == "story"
    then (record { hook = 80; body = 220; cta_line = 80; total = 250 })
    else if surface == "reel"
    then (record { hook = 100; body = 850; cta_line = 150; total = 1000 })
    else post_caps

-- `len(hook) + len(body) + len(cta_line)`
abbrev pub total_len : CaptionParts → ℕ
total_len parts = len parts.hook + len parts.body + len parts.cta_line

unfoldable pub check_lengths : String → CaptionParts → List Warning
unfolding caps_of
check_lengths surface parts =
    let caps = caps_of surface in
    warn_if (ltb caps.hook (len parts.hook)) "caption_length_exceeded" (some "caption.hook")
    ++ warn_if (ltb caps.body (len parts.body)) "caption_length_exceeded" (some "caption.body")
    ++ warn_if (ltb caps.cta_line (len parts.cta_line)) "caption_length_exceeded"
        (some "caption.cta_line")
    ++ warn_if (ltb caps.total (total_len parts)) "caption_length_exceeded" (some "caption")

abbrev is_blank : String → Bool
is_blank s = strip s == ""

unfoldable pub check_presence : String → String → String → CaptionParts → List Warning
unfolding strip
check_presence title objective concept parts =
    warn_if (is_blank title) "field_missing" (some "title")
    ++ warn_if (is_blank objective) "field_missing" (some "objective")
    ++ warn_if (is_blank concept) "field_missing" (some "image.concept")
    ++ warn_if (is_blank parts.hook) "field_missing" (some "caption.hook")
    ++ warn_if (is_blank parts.body) "field_missing" (some "caption.body")

unfoldable pub cap_do_not : List String → List String × List Warning
cap_do_not items =
    let b = ltb 5 (length items) in
    (if b then take 5 items else items, warn_if b "do_not_truncated" (some "do_not"))

unfoldable pub clamp_volume : HashtagStrategy → HashtagStrategy × List Warning
clamp_volume h =
    let b = ltb 30 h.suggested_volume in
    (
      record {
        suggested_volume = if b then min (max (length h.tags) 0) 30 else h.suggested_volume;
        tags = h.tags;
      },
      warn_if b "hashtag_volume_clamped" (some "hashtag_strategy.suggested_volume"),
    )

pub cap_do_not_bound : (items : List String) → length (cap_do_not items).0 ≤ 5
unfolding cap_do_not
cap_do_not_bound items = elim (Bool-cases (ltb 5 (length items))) [
  | inl b ↦ rw b (omega (arith, length-take 5 items))
  | inr b ↦ rw b (ground arith)
]

pub clamp_volume_bound : (h : HashtagStrategy) → (clamp_volume h).0.suggested_volume ≤ 30
unfolding clamp_volume
clamp_volume_bound h = ground arith
