-- ===== src/Normalizer/Channels.antt =====
-- normalizer.py: `_extract_available_channels`, and the merge of channels in `_apply_user_profile`.
-- `lower` is `str.lower`.
pub mod Handles
pub mod Merged
use marketer.Prelude.{
  String, Bool, true, false, ◌&&◌, ◌||◌, not, Option, none, some, List, [], ◌∷◌, ◌++◌, ◌==◌, map,
  any, filter, is_some, if◌then◌else◌,
}
use marketer.Value.{Value, str, Fields, Result, ok, err, truthy, get, get_attr, or_empty, ◌>>=◌}
use marketer.Context.{AvailableChannel}
use marketer.Normalizer.Clean.{clean_string}

abbrev pub same_option : Option String → Option String → Bool
same_option none none = true
same_option (some a) (some b) = a == b
same_option _ _ = false

-- `c.channel in ("dm", "link_sticker")`
abbrev pub is_always : String → Bool
is_always channel = channel == "dm" || channel == "link_sticker"

-- `... or c.url_or_handle`; a handle is never empty once it is cleaned
abbrev pub has_handle : Option String → Bool
has_handle none = false
has_handle (some s) = not (s == "")

abbrev pub is_kept : AvailableChannel → Bool
is_kept c = is_always c.channel || has_handle c.url_or_handle

-- `add(...)`, after its cleaning of the value: a channel that was seen with this handle is not added
unfoldable pub add_channel :
    String → Option String → Option String → List AvailableChannel → List AvailableChannel
add_channel channel handle label channels =
    if any (λ c. c.channel == channel && same_option c.url_or_handle handle) channels
    then channels
    else channels ++ (record { channel = channel; url_or_handle = handle; label_hint = label }) ∷ []

module _ (lower : String → String) where
  -- `form_values.get(k) or profile.get(j)`
  abbrev or_profile : Value → String → Value → Result Value
  or_profile v j profile = if truthy v then ok v else get_attr j profile

  -- a field of the form, or else one of the profile, cleaned
  abbrev read_handle : Value → Value → String → String → Result (Option String)
  read_handle form profile k j =
      get_attr k form >>= (λ v. or_profile v j profile >>= (λ w. ok (clean_string lower w)))

  abbrev read_form : Value → String → Result (Option String)
  read_form form k = get_attr k form >>= (λ v. ok (clean_string lower v))

  abbrev add_website : Option String → List AvailableChannel → List AvailableChannel
  add_website none channels = channels
  add_website (some url) channels =
      if url == ""
      then channels
      else add_channel "website" (clean_string lower (str url)) (some "Visita la web") channels

  -- the two channels that are always there, and the filter at the end
  abbrev pub close_channels : List AvailableChannel → List AvailableChannel
  close_channels channels = filter is_kept (
      add_channel "link_sticker" none (some "Toca el sticker")
        (add_channel "dm" none (some "Escríbenos por DM") channels))

  unfoldable pub extract_available_channels :
      Option String → Value → Fields → Result (List AvailableChannel)
  extract_available_channels website form top =
      let profile = or_empty (get "profile" top) in
      read_handle form profile "FIELD_INSTAGRAM_URL" "instagram" >>= (λ instagram.
        read_handle form profile "FIELD_FACEBOOK_URL" "facebook" >>= (λ facebook.
          read_form form "FIELD_TIKTOK_URL" >>= (λ tiktok.
            read_form form "FIELD_LINKEDIN_URL" >>= (λ linkedin.
              read_handle form profile "FIELD_BUSINESS_PHONE" "contact_phone" >>= (λ phone.
                read_handle form profile "FIELD_BUSINESS_EMAIL" "email" >>= (λ email. ok (
                  close_channels (
                    add_channel "email" email none (
                      add_channel "phone" phone (some "Llámanos") (
                        add_channel "linkedin" linkedin none (
                          add_channel "tiktok" tiktok none (
                            add_channel "facebook" facebook none (
                              add_channel "instagram_profile" instagram (some "Síguenos")
                                (add_website website []))))))))))))))

  -- `up_channel_map`
  unfoldable pub profile_channels : Fields → Fields → List (String × Option String)
  profile_channels company social =
      ("website", clean_string lower (get "websiteUrl" company))
      ∷ ("instagram_profile", clean_string lower (get "instagramUrl" social))
      ∷ ("facebook", clean_string lower (get "facebookUrl" social))
      ∷ ("tiktok", clean_string lower (get "tiktokUrl" social))
      ∷ ("linkedin", clean_string lower (get "linkedinUrl" social))
      ∷ ("phone", clean_string lower (get "businessPhone" company))
      ∷ ("email", clean_string lower (get "email" company))
      ∷ []

-- `up_channel_map.get(channel)`, where an empty handle counts as none
unfoldable pub profile_handle : String → List (String × Option String) → Option String
profile_handle channel [] = none
profile_handle channel ((kind, handle) ∷ rest) =
    let later = profile_handle channel rest in if kind == channel then handle else later

abbrev pub override : Option String → Option String → Option String
override (some up) handle = if up == "" then handle else some up
override none handle = handle

abbrev pub has_kind : String → List AvailableChannel → Bool
has_kind kind channels = any (λ c. c.channel == kind) channels

-- the loop that overrides the channels that are there
abbrev pub overridden : List (String × Option String) → AvailableChannel → AvailableChannel
overridden ups c = record c {
  url_or_handle = override (profile_handle c.channel ups) c.url_or_handle;
}

-- the loop that adds the kinds that were not seen; the kinds of the map are different
unfoldable pub new_kinds :
    List AvailableChannel → List (String × Option String) → List AvailableChannel
new_kinds channels [] = []
new_kinds channels ((kind, handle) ∷ rest) =
    let later = new_kinds channels rest in
    if has_handle handle && not (has_kind kind channels)
    then (record { channel = kind; url_or_handle = handle; label_hint = none }) ∷ later
    else later

abbrev pub always_channel : String → String → List AvailableChannel → List AvailableChannel
always_channel kind hint channels =
    if has_kind kind channels
    then channels
    else channels ++ (record { channel = kind; url_or_handle = none; label_hint = some hint }) ∷ []

unfoldable pub merge_channels :
    List (String × Option String) → List AvailableChannel → List AvailableChannel
merge_channels ups channels = filter is_kept (
    always_channel "link_sticker" "Toca el sticker" (
      always_channel "dm" "Escríbenos por DM"
        (map (overridden ups) channels ++ new_kinds channels ups)))
