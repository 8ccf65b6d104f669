-- ===== src/Validator/Cta/Stable.antt =====
-- validator.py: a second run of `_validate_cta`.
use marketer.Prelude.{
  String, Bool, true, false, ◌&&◌, not, Option, none, some, List, [], ◌≡◌, refl, subst, ◌==◌,
  if◌then◌else◌, contains, map,
}
use marketer.Value.{Result, ok, err}
use marketer.Schemas.{Warning, CallToAction}
use marketer.Context.{AvailableChannel}
use marketer.Validator.Facts.{Language}
use marketer.Validator.Cta.{
  UrlParser, offers, handles_of, without_handle, refuse, is_open, is_phone, phone_known, has_handle,
  is_malformed, check_url, check_handle, validate_cta,
}

module _ (l : Language) (urlparse : UrlParser) (chans : List AvailableChannel) where
  unfoldable Fixed : Result (CallToAction × List Warning) → Type 0
  Fixed (err e) = Unit
  Fixed (ok r) = validate_cta l urlparse chans r.0 ≡ ok (r.0, [])

  refuse-Fixed : (cta : CallToAction) (code about : String) → Fixed (ok (refuse cta code about))
  unfolding validate_cta Fixed
  refuse-Fixed cta code about = refl

  kept-Fixed :
      (cta : CallToAction) (b : Bool) (r : CallToAction × List Warning)
      → Fixed (ok r)
      → validate_cta l urlparse chans cta ≡ ok (if b then r else (cta, []))
      → Fixed (ok (if b then r else (cta, [])))
  unfolding Fixed
  kept-Fixed cta true r f h = f
  kept-Fixed cta false r f h = h

  check_url-Fixed :
      (cta : CallToAction) (q : Result (String × String))
      → validate_cta l urlparse chans cta ≡ check_url l urlparse chans cta q
      → Fixed (check_url l urlparse chans cta q)
  unfolding Fixed
  check_url-Fixed cta (err e) h = tt
  check_url-Fixed cta (ok p) h =
      kept-Fixed cta (cta.channel == "website" && is_malformed p)
        (refuse cta "cta_url_invalid" "cta.url_or_handle")
        (refuse-Fixed cta "cta_url_invalid" "cta.url_or_handle") h

  handle-Fixed :
      (cta : CallToAction) (b : Bool) (q : Result (String × String))
      → validate_cta l urlparse chans cta ≡ (
          if b
          then check_url l urlparse chans cta q
          else ok (refuse cta "cta_channel_invalid" "cta.url_or_handle"))
      → Fixed (
          if b
          then check_url l urlparse chans cta q
          else ok (refuse cta "cta_channel_invalid" "cta.url_or_handle"))
  handle-Fixed cta true q h = check_url-Fixed cta q h
  handle-Fixed cta false q h = refuse-Fixed cta "cta_channel_invalid" "cta.url_or_handle"

  check_handle-Fixed :
      (cta : CallToAction) (u : Option String)
      → validate_cta l urlparse chans cta ≡ check_handle l urlparse chans cta u
      → Fixed (check_handle l urlparse chans cta u)
  check_handle-Fixed cta none h = refuse-Fixed cta "cta_channel_invalid" "cta.url_or_handle"
  check_handle-Fixed cta (some u) h =
      handle-Fixed cta (contains (l.lower u) (map l.lower (handles_of chans cta.channel)))
        (urlparse u) h

  phone-Fixed :
      (cta : CallToAction) (b : Bool)
      → validate_cta l urlparse chans cta
        ≡ ok (if b then (cta, []) else refuse cta "cta_channel_invalid" "cta.url_or_handle")
      → Fixed (ok (if b then (cta, []) else refuse cta "cta_channel_invalid" "cta.url_or_handle"))
  unfolding Fixed
  phone-Fixed cta true h = h
  phone-Fixed cta false h = refuse-Fixed cta "cta_channel_invalid" "cta.url_or_handle"

  branches-Fixed :
      (cta : CallToAction) (b1 b2 b3 b4 b5 : Bool) (last : Result (CallToAction × List Warning))
      → (validate_cta l urlparse chans cta ≡ last → Fixed last)
      → (cta.channel == "none") ≡ b1
      → offers chans cta.channel ≡ b2
      → is_open cta.channel ≡ b3
      → validate_cta l urlparse chans cta ≡ (
          if b1
          then ok (without_handle cta, [])
          else if not b2
          then ok (refuse cta "cta_channel_invalid" "cta.channel")
          else if b3
          then ok (without_handle cta, [])
          else if b4
          then ok (if b5 then (cta, []) else refuse cta "cta_channel_invalid" "cta.url_or_handle")
          else last)
      → Fixed (
          if b1
          then ok (without_handle cta, [])
          else if not b2
          then ok (refuse cta "cta_channel_invalid" "cta.channel")
          else if b3
          then ok (without_handle cta, [])
          else if b4
          then ok (if b5 then (cta, []) else refuse cta "cta_channel_invalid" "cta.url_or_handle")
          else last)
  unfolding validate_cta Fixed
  branches-Fixed cta true b2 b3 b4 b5 last k p q r h = rw p refl
  branches-Fixed cta false false b3 b4 b5 last k p q r h =
      refuse-Fixed cta "cta_channel_invalid" "cta.channel"
  branches-Fixed cta false true true b4 b5 last k p q r h = rw (p, q, r) refl
  branches-Fixed cta false true false true b5 last k p q r h = phone-Fixed cta b5 h
  branches-Fixed cta false true false false b5 last k p q r h = k h

  validate_cta-Fixed : (cta : CallToAction) → Fixed (validate_cta l urlparse chans cta)
  unfolding validate_cta
  validate_cta-Fixed cta =
      branches-Fixed cta (cta.channel == "none") (offers chans cta.channel) (is_open cta.channel)
        (is_phone cta.channel && has_handle cta.url_or_handle)
        (phone_known chans cta cta.url_or_handle)
        (check_handle l urlparse chans cta cta.url_or_handle)
        (check_handle-Fixed cta cta.url_or_handle) refl refl refl refl

  -- The check of the call to action is idempotent: run again on what it delivered, it changes nothing
  -- and gives no warning.
  pub validate_cta_idem :
      (cta r : CallToAction) (ws : List Warning)
      → validate_cta l urlparse chans cta ≡ ok (r, ws)
      → validate_cta l urlparse chans r ≡ ok (r, [])
  unfolding Fixed
  validate_cta_idem cta r ws h = subst Fixed h (validate_cta-Fixed cta)
