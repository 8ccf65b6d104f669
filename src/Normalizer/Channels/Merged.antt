-- ===== src/Normalizer/Channels/Merged.antt =====
-- normalizer.py: the channels that the merge with a profile gives.
use marketer.Prelude.{
  String, Bool, true, false, ◌&&◌, ◌||◌, not, Option, none, some, List, [], ◌∷◌, ◌++◌, ◌≡◌, refl,
  arith, ◌==◌, eq_iff, eq_refl, map, any, All, Bool-cases, inl, inr,
}
use marketer.Context.{AvailableChannel}
use marketer.Normalizer.Channels.{
  same_option, has_handle, is_kept, profile_handle, has_kind, overridden, new_kinds, always_channel,
  merge_channels,
}
use marketer.Normalizer.Channels.Handles.{
  is_with, All-filter, any-filter, any-left, any-right, always_channel-any, has_kind-always_channel,
  any-overridden, any-new_kinds, same_option_refl, has_handle-same_option, or_right, same_handle,
}

module _ (ups : List (String × Option String)) (channels : List AvailableChannel) where
  before_always : List AvailableChannel
  before_always = map (overridden ups) channels ++ new_kinds channels ups

  with_profile :
      (kind url : String)
      → profile_handle kind ups ≡ some url
      → (url == "") ≡ false
      → any (is_with kind url) before_always ≡ true
  unfolding before_always
  with_profile kind url h n = elim (Bool-cases (has_kind kind channels)) [
    | inl e ↦
        any-left (is_with kind url) (map (overridden ups) channels) (new_kinds channels ups)
          (any-overridden kind url ups channels h n e)
    | inr e ↦
        any-right (is_with kind url) (map (overridden ups) channels) (new_kinds channels ups)
          (any-new_kinds kind url ups channels h n e)
  ]

  is_with-kept :
      (kind url : String)
      → (url == "") ≡ false
      → (c : AvailableChannel) → is_with kind url c ≡ true
      → is_kept c ≡ true
  is_with-kept kind url n c h =
      let k = same_handle url n c.url_or_handle (ground arith) in ground arith

  abbrev always : List AvailableChannel
  always =
      always_channel "link_sticker" "Toca el sticker"
        (always_channel "dm" "Escríbenos por DM" before_always)

  -- What was there before the two channels are added, and is kept, is still there.
  merged_any :
      (p : AvailableChannel → Bool)
      → ((c : AvailableChannel) → p c ≡ true → is_kept c ≡ true)
      → any p before_always ≡ true
      → any p (merge_channels ups channels) ≡ true
  unfolding merge_channels before_always
  merged_any p f h =
      any-filter p is_kept always f
        (always_channel-any p "link_sticker" _ _ (always_channel-any p "dm" _ before_always h))

  -- The channels of the profile: each of its handles has a channel of its kind.
  abbrev pub given_here : String → Option String → Bool
  given_here kind none = true
  given_here kind (some url) = url == "" || any (is_with kind url) (merge_channels ups channels)

  given_here_lem :
      (kind : String) (o : Option String) → profile_handle kind ups ≡ o → given_here kind o ≡ true
  given_here_lem kind none h = refl
  given_here_lem kind (some url) h = elim (Bool-cases (url == "")) [
    | inl e ↦ rw e refl
    | inr e ↦
        rw e (merged_any (is_with kind url) (is_with-kept kind url e) (with_profile kind url h e))
  ]

  abbrev like : AvailableChannel → AvailableChannel → Bool
  like c k = k.channel == c.channel && same_option k.url_or_handle c.url_or_handle

  like_self : (c : AvailableChannel) → like c c ≡ true
  like_self c = rw (eq_refl c.channel) (same_option_refl c.url_or_handle)

  -- A channel that is to be kept and whose kind has no handle in the profile is there as it was.
  abbrev kept_as_is : AvailableChannel → Bool
  kept_as_is c = not (is_kept c) || any (like c) (merge_channels ups channels)

  abbrev pub kept_here : AvailableChannel → Option String → Bool
  kept_here c none = kept_as_is c
  kept_here c (some up) = not (up == "") || kept_as_is c

  like-IsKept :
      (c : AvailableChannel)
      → is_kept c ≡ true
      → (k : AvailableChannel) → like c k ≡ true
      → is_kept k ≡ true
  like-IsKept c h k e =
      let same : k.channel ≡ c.channel = (eq_iff k.channel c.channel).0 (ground arith) in
      let handles : has_handle k.url_or_handle ≡ has_handle c.url_or_handle =
        has_handle-same_option k.url_or_handle c.url_or_handle (ground arith) in
      rw (same, handles) h

  as_is_lem :
      (c : AvailableChannel)
      → any (like c) (map (overridden ups) channels) ≡ true
      → kept_as_is c ≡ true
  unfolding before_always
  as_is_lem c h = elim (Bool-cases (is_kept c)) [
    | inr e ↦ rw e refl
    | inl e ↦ rw e (
        merged_any (like c) (like-IsKept c e)
          (any-left (like c) (map (overridden ups) channels) (new_kinds channels ups) h))
  ]

  kept_here_lem :
      (c : AvailableChannel) (o : Option String)
      → profile_handle c.channel ups ≡ o
      → ((p : AvailableChannel → Bool)
          → p (overridden ups c) ≡ true
          → any p (map (overridden ups) channels) ≡ true)
      → kept_here c o ≡ true
  kept_here_lem c none h g = as_is_lem c (g (like c) (rw h (like_self c)))
  kept_here_lem c (some up) h g = elim (Bool-cases (up == "")) [
    | inr e ↦ rw e refl
    | inl e ↦ rw e (as_is_lem c (g (like c) (rw h (rw e (like_self c)))))
  ]

  All-kept_here :
      (xs : List AvailableChannel)
      → ((p : AvailableChannel → Bool)
          → any p (map (overridden ups) xs) ≡ true
          → any p (map (overridden ups) channels) ≡ true)
      → All (λ c. kept_here c (profile_handle c.channel ups) ≡ true) xs
  All-kept_here [] f = tt
  All-kept_here (c ∷ cs) f = (
    kept_here_lem c (profile_handle c.channel ups) refl (λ p h. f p (rw h refl)),
    All-kept_here cs (λ p h. f p (or_right (p (overridden ups c)) _ h)),
  )

  -- After the merge every channel has a handle or is one of the two that need none, and those two are
  -- there. For each kind for which the profile gives a handle there is a channel with that handle, and
  -- each channel that was to be kept and for whose kind it gives none is still there with its own.
  pub merge_channels_complete :
      (kind : String)
      → All (λ c. is_kept c ≡ true) (merge_channels ups channels)
        × (has_kind "dm" (merge_channels ups channels) ≡ true)
        × (has_kind "link_sticker" (merge_channels ups channels) ≡ true)
        × (given_here kind (profile_handle kind ups) ≡ true)
        × All (λ c. kept_here c (profile_handle c.channel ups) ≡ true) channels
  unfolding merge_channels before_always
  merge_channels_complete kind =
      let dm = always_channel "dm" "Escríbenos por DM" before_always in
      (
        All-filter is_kept always,
        any-filter (λ c. c.channel == "dm") is_kept always (λ c e. ground arith)
            (always_channel-any (λ c. c.channel == "dm") "link_sticker" "Toca el sticker" dm
              (has_kind-always_channel "dm" "Escríbenos por DM" before_always)),
        any-filter (λ c. c.channel == "link_sticker") is_kept always (λ c e. ground arith)
            (has_kind-always_channel "link_sticker" "Toca el sticker" dm),
        given_here_lem kind (profile_handle kind ups) refl,
        All-kept_here channels (λ p h. h),
      )
