-- ===== src/Validator/Cta.antt =====
-- validator.py: `_validate_cta` and `_check_cta_caption_coherence`. `urlparse` is a parameter; it may
-- raise, as it does on a malformed address of a host.
pub mod Offered
pub mod Stable
use marketer.Prelude.{
  String, Bool, true, false, ◌&&◌, ◌||◌, not, Option, none, some, List, [], ◌∷◌, ◌++◌, ◌≡◌, refl,
  arith, ap, sym, ◌∙◌, ◌==◌, if◌then◌else◌, filter, any, is_empty, contains, map, inl, inr,
  Bool-cases,
}
use marketer.Value.{Result, ok, err, ◌>>=◌}
use marketer.Schemas.{Warning, CallToAction}
use marketer.Context.{AvailableChannel}
use marketer.Text.{has_substring}
use marketer.Validator.Facts.{Language, normalize_phone}

-- `urlparse(u)`: the scheme and the netloc
abbrev pub UrlParser : Type 0
UrlParser = String → Result (String × String)

-- `ch in channel_index`
abbrev pub offers : List AvailableChannel → String → Bool
offers chans name = any (λ ch. ch.channel == name) chans

abbrev handle_of : Option String → List String
handle_of none = []
handle_of (some u) = if u == "" then [] else u ∷ []

-- `channel_index[ch]`: the handles that are not empty of the channels of that name
abbrev pub handles_of : List AvailableChannel → String → List String
handles_of [] name = []
handles_of (ch ∷ chans) name =
    let rest = handles_of chans name in
    if ch.channel == name then handle_of ch.url_or_handle ++ rest else rest

abbrev pub without_handle : CallToAction → CallToAction
without_handle cta = record { channel = cta.channel; url_or_handle = none; label = cta.label }

abbrev pub refuse : CallToAction → String → String → CallToAction × List Warning
refuse cta code about = (
  record { channel = "none"; url_or_handle = none; label = cta.label },
  (record { code = code; about = some about }) ∷ [],
)

-- the channels that need no handle, and those whose handle is a number
abbrev pub is_open : String → Bool
is_open name = name == "dm" || name == "link_sticker"

abbrev pub is_phone : String → Bool
is_phone name = name == "phone" || name == "whatsapp"

abbrev pub phone_known : List AvailableChannel → CallToAction → Option String → Bool
phone_known chans cta none = false
phone_known chans cta (some u) =
    contains (normalize_phone u) (map normalize_phone (handles_of chans cta.channel))

-- `bool(cta.url_or_handle)`
abbrev pub has_handle : Option String → Bool
has_handle none = false
has_handle (some u) = not (u == "")

abbrev pub is_malformed : String × String → Bool
is_malformed p = not (p.0 == "http" || p.0 == "https") || p.1 == ""

module _ (l : Language) (urlparse : UrlParser) (chans : List AvailableChannel) where
  abbrev pub check_url :
      CallToAction → Result (String × String) → Result (CallToAction × List Warning)
  check_url cta (err e) = err e
  check_url cta (ok p) = ok (
      if cta.channel == "website" && is_malformed p
      then refuse cta "cta_url_invalid" "cta.url_or_handle"
      else (cta, []))

  abbrev pub check_handle : CallToAction → Option String → Result (CallToAction × List Warning)
  check_handle cta none = ok (refuse cta "cta_channel_invalid" "cta.url_or_handle")
  check_handle cta (some u) =
      if contains (l.lower u) (map l.lower (handles_of chans cta.channel))
      then check_url cta (urlparse u)
      else ok (refuse cta "cta_channel_invalid" "cta.url_or_handle")

  unfoldable pub validate_cta : CallToAction → Result (CallToAction × List Warning)
  validate_cta cta =
      if cta.channel == "none"
      then ok (without_handle cta, [])
      else if not (offers chans cta.channel)
      then ok (refuse cta "cta_channel_invalid" "cta.channel")
      else if is_open cta.channel
      then ok (without_handle cta, [])
      else if is_phone cta.channel && has_handle cta.url_or_handle
      then ok (
          if phone_known chans cta cta.url_or_handle
          then (cta, [])
          else refuse cta "cta_channel_invalid" "cta.url_or_handle")
      else check_handle cta cta.url_or_handle

abbrev channel_keywords : List (String × List String)
channel_keywords =
    (
      "dm",
      "dm" ∷ "mensaje directo" ∷ "mensaje privado" ∷ "mándanos un mensaje" ∷ "escríbenos un mensaje"
          ∷ [],
    )
    ∷ (
      "website",
      "web" ∷ "sitio web" ∷ "página web" ∷ "en la web" ∷ "visita nuestra web" ∷ "en nuestra web"
          ∷ "tienda online" ∷ "tienda en línea" ∷ "shop online" ∷ [],
    )
    ∷ (
      "link_sticker",
      "sticker" ∷ "enlace de la bio" ∷ "link in bio" ∷ "toca el sticker" ∷ "bio link" ∷ [],
    )
    ∷ ("instagram_profile", "perfil" ∷ "síguenos" ∷ [])
    ∷ ("facebook", "facebook" ∷ [])
    ∷ ("tiktok", "tiktok" ∷ "tik tok" ∷ [])
    ∷ ("linkedin", "linkedin" ∷ [])
    ∷ ("phone", "llámanos" ∷ "llama al" ∷ "teléfono" ∷ "llamada" ∷ [])
    ∷ ("whatsapp", "whatsapp" ∷ "wasap" ∷ [])
    ∷ ("email", "email" ∷ "correo" ∷ "escríbenos a" ∷ [])
    ∷ []

-- `mentioned`, for a text in lower case
unfoldable pub mentioned_in : List (String × List String) → String → List String
unfolding has_substring
mentioned_in [] text = []
mentioned_in ((name, kws) ∷ rows) text =
    let rest = mentioned_in rows text in
    if any (λ kw. has_substring kw text) kws then name ∷ rest else rest

unfoldable pub check_coherence : Language → CallToAction → String → List Warning
unfolding mentioned_in
check_coherence l cta cta_line =
    let mentioned = mentioned_in channel_keywords (l.lower cta_line) in
    let foreign = filter (λ name. not (name == cta.channel)) mentioned in
    let mismatch =
      (record { code = "cta_caption_channel_mismatch"; about = some "caption.cta_line" }) ∷ [] in
    if cta_line == ""
    then []
    else if cta.channel == "none"
    then (if is_empty mentioned then [] else mismatch)
    else if is_empty foreign
    then []
    else mismatch
