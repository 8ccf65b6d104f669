-- ===== src/Validator/Cta/Offered.antt =====
-- validator.py: what a call to action is after `_validate_cta`.
use marketer.Prelude.{
  String, Bool, true, false, ◌&&◌, ◌||◌, not, Option, none, some, List, [], ◌≡◌, refl, arith, subst,
  ◌==◌, if◌then◌else◌, contains, map, inl, inr, Bool-cases, if_keeps,
}
use marketer.Value.{Exc, Result, ok, err}
use marketer.Schemas.{Warning, CallToAction}
use marketer.Context.{AvailableChannel}
use marketer.Validator.Facts.{Language, normalize_phone}
use marketer.Validator.Cta.{
  UrlParser, offers, handles_of, refuse, is_open, is_phone, phone_known, has_handle, is_malformed,
  check_url, check_handle, validate_cta,
}

abbrev no_handle : Option String → Bool
no_handle none = true
no_handle (some u) = false

module _ (l : Language) (chans : List AvailableChannel) where
  abbrev handle_offered : String → Option String → Bool
  handle_offered name none = false
  handle_offered name (some u) =
      contains (l.lower u) (map l.lower (handles_of chans name))
      || (is_phone name
          && contains (normalize_phone u) (map normalize_phone (handles_of chans name)))

  -- A call to action that the context allows: no action at all, or an offered channel, without a
  -- handle where it is an open one, and else with a handle that was offered for it.
  abbrev pub is_offered : CallToAction → Bool
  is_offered cta =
      if cta.channel == "none"
      then no_handle cta.url_or_handle
      else offers chans cta.channel
        && (if is_open cta.channel
            then no_handle cta.url_or_handle
            else handle_offered cta.channel cta.url_or_handle)

  abbrev pub Sound : Result (CallToAction × List Warning) → Type 0
  Sound (err e) = Unit
  Sound (ok r) = is_offered r.0 ≡ true

module _ (l : Language) (urlparse : UrlParser) (chans : List AvailableChannel) where
  check_url-Sound :
      (cta : CallToAction) (r : Result (String × String))
      → is_offered l chans cta ≡ true
      → Sound l chans (check_url l urlparse chans cta r)
  check_url-Sound cta (err e) h = tt
  check_url-Sound cta (ok p) h = elim (Bool-cases (cta.channel == "website" && is_malformed p)) [
    | inl b ↦ rw b refl
    | inr b ↦ rw b h
  ]

  check_handle-Sound :
      (cta : CallToAction) (u : Option String)
      → (cta.channel == "none") ≡ false
      → offers chans cta.channel ≡ true
      → is_open cta.channel ≡ false
      → cta.url_or_handle ≡ u
      → Sound l chans (check_handle l urlparse chans cta u)
  check_handle-Sound cta none a b c d = refl
  check_handle-Sound cta (some u) a b c d =
      elim (Bool-cases (contains (l.lower u) (map l.lower (handles_of chans cta.channel)))) [
        | inl e ↦ rw e (check_url-Sound cta (urlparse u) (rw (a, b, c, d, e) refl))
        | inr e ↦ rw e refl
      ]

  phone-Sound :
      (cta : CallToAction) (u : Option String)
      → (cta.channel == "none") ≡ false
      → offers chans cta.channel ≡ true
      → is_open cta.channel ≡ false
      → is_phone cta.channel ≡ true
      → cta.url_or_handle ≡ u
      → Sound l chans (
          ok (
            if phone_known chans cta u
            then (cta, [])
            else refuse cta "cta_channel_invalid" "cta.url_or_handle"))
  phone-Sound cta none a b c p d = refl
  phone-Sound cta (some u) a b c p d = elim (Bool-cases (phone_known chans cta (some u))) [
    | inl e ↦ rw e (rw (a, b, c, d, p, e) (ground arith))
    | inr e ↦ rw e refl
  ]

  validate_cta-Sound : (cta : CallToAction) → Sound l chans (validate_cta l urlparse chans cta)
  unfolding validate_cta
  validate_cta-Sound cta = elim (Bool-cases (cta.channel == "none")) [
    | inl a ↦ rw a (rw a refl)
    | inr a ↦ rw a (elim (Bool-cases (offers chans cta.channel)) [
      | inr b ↦ rw b refl
      | inl b ↦ rw b (elim (Bool-cases (is_open cta.channel)) [
        | inl c ↦ rw c (rw (a, b, c) refl)
        | inr c ↦ rw c (elim (Bool-cases (is_phone cta.channel && has_handle cta.url_or_handle)) [
          | inl d ↦ rw d (phone-Sound cta cta.url_or_handle a b c (ground arith) refl)
          | inr d ↦ rw d (check_handle-Sound cta cta.url_or_handle a b c refl)
        ])
      ])
    ])
  ]

  -- Whatever the model answered, the call to action that is delivered is one the context allows: no
  -- action at all, or an offered channel, without a handle for dm and link_sticker, and with a handle
  -- that was offered for it for every other.
  pub validate_cta_offered :
      (cta r : CallToAction) (ws : List Warning)
      → validate_cta l urlparse chans cta ≡ ok (r, ws)
      → is_offered l chans r ≡ true
  validate_cta_offered cta r ws h = subst (Sound l chans) h (validate_cta-Sound cta)

  -- An exception is that of `urlparse`, on a handle that the context has for the channel.
  abbrev pub Raises : CallToAction → Exc → Type 0
  Raises cta x =
      (u : String) × (cta.url_or_handle ≡ some u)
      × (contains (l.lower u) (map l.lower (handles_of chans cta.channel)) ≡ true)
      × (urlparse u ≡ err x)

  abbrev Excused : CallToAction → Result (CallToAction × List Warning) → Type 0
  Excused cta (ok r) = Unit
  Excused cta (err x) = Raises cta x

  check_url-Excused :
      (cta : CallToAction) (u : String) (q : Result (String × String))
      → cta.url_or_handle ≡ some u
      → contains (l.lower u) (map l.lower (handles_of chans cta.channel)) ≡ true
      → urlparse u ≡ q
      → Excused cta (check_url l urlparse chans cta q)
  check_url-Excused cta u (ok p) h k e = tt
  check_url-Excused cta u (err x) h k e = (u, h, k, e)

  check_handle-Excused :
      (cta : CallToAction) (o : Option String)
      → cta.url_or_handle ≡ o
      → Excused cta (check_handle l urlparse chans cta o)
  check_handle-Excused cta none h = tt
  check_handle-Excused cta (some u) h =
      elim (Bool-cases (contains (l.lower u) (map l.lower (handles_of chans cta.channel)))) [
        | inl e ↦ rw e (check_url-Excused cta u (urlparse u) h e refl)
        | inr e ↦ rw e tt
      ]

  validate_cta-Excused : (cta : CallToAction) → Excused cta (validate_cta l urlparse chans cta)
  unfolding validate_cta
  validate_cta-Excused cta = if_keeps (Excused cta) (cta.channel == "none") tt (
      if_keeps (Excused cta) (not (offers chans cta.channel)) tt (
        if_keeps (Excused cta) (is_open cta.channel) tt (
          if_keeps (Excused cta) (is_phone cta.channel && has_handle cta.url_or_handle) tt
            (check_handle-Excused cta cta.url_or_handle refl))))

  pub validate_cta-Raises :
      (cta : CallToAction) (x : Exc) → validate_cta l urlparse chans cta ≡ err x → Raises cta x
  validate_cta-Raises cta x h = subst (Excused cta) h (validate_cta-Excused cta)
