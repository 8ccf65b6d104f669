-- ===== src/Validator/Facts.antt =====
-- validator.py: `_check_text_facts`, the guard on every text field. The matches of the five regular
-- expressions and the lower case of a text are parameters.
use marketer.Prelude.{
  ℕ, String, Bool, ◌||◌, not, some, List, [], ◌∷◌, ◌++◌, ◌==◌, if◌then◌else◌, filter, contains, eqb,
  map,
}
use marketer.Schemas.{Warning}
use marketer.Text.{is_space, rstrip, strip, delete, replace_from}

-- `lower()` and the `findall` of the compiled patterns
pub record Language : Type 0 where
  pub lower : String → String
  pub find_urls : String → List String
  pub find_hexes : String → List String
  pub find_emails : String → List String
  pub find_phones : String → List String
  pub find_prices : String → List String

-- the sets that a text may cite
pub record Allowed : Type 0 where
  pub urls : List String
  pub phones : List String
  pub emails : List String
  pub prices : List String
  pub palette : List String

-- the class [\s\-().]
unfoldable pub in_phone_class : ℕ → Bool
unfolding is_space
in_phone_class c = is_space c || (eqb c b'-' || (eqb c b'(' || (eqb c b')' || eqb c b'.')))

unfoldable pub normalize_phone : String → String
unfolding in_phone_class delete
normalize_phone raw = delete in_phone_class raw

unfoldable pub scrub_token : String → String → String
unfolding replace_from
scrub_token text token = if token == "" then text else replace_from token "[…]" 0 text

abbrev trailing : ℕ → Bool
trailing c = eqb c b'.' || (eqb c b',' || (eqb c b';' || (eqb c b':' || eqb c b')')))

-- `url.rstrip(".,;:)")`
unfoldable pub clean_url : String → String
unfolding rstrip
clean_url url = rstrip trailing url

-- One of the four loops that scrub: a token that is not allowed gives a warning and is replaced.
unfoldable pub guard_tokens :
    (String → Bool) → String → String → List String → String → String × List Warning
guard_tokens ok code about [] scrubbed = (scrubbed, [])
guard_tokens ok code about (tok ∷ toks) scrubbed =
    let (out, ws) =
      guard_tokens ok code about toks (if ok tok then scrubbed else scrub_token scrubbed tok) in
    (out, if ok tok then ws else (record { code = code; about = some about }) ∷ ws)

-- The loop over the prices, which only warns.
unfoldable pub warn_tokens : (String → Bool) → String → String → List String → List Warning
warn_tokens ok code about [] = []
warn_tokens ok code about (tok ∷ toks) =
    let ws = warn_tokens ok code about toks in
    if ok tok then ws else (record { code = code; about = some about }) ∷ ws

module _ (l : Language) (allowed : Allowed) where
  abbrev pub url_ok : String → Bool
  url_ok url = contains (l.lower (clean_url url)) allowed.urls

  abbrev pub hex_ok : String → Bool
  hex_ok hx = contains (l.lower hx) allowed.palette

  abbrev pub email_ok : String → Bool
  email_ok em = contains (l.lower em) allowed.emails

  abbrev pub phone_ok : String → Bool
  phone_ok ph = contains (normalize_phone ph) allowed.phones

  abbrev pub price_ok : String → Bool
  price_ok pr = contains (strip pr) allowed.prices

  unfoldable pub check_text_facts : String → String → String × List Warning
  check_text_facts about text =
      let (a, u) = guard_tokens url_ok "claim_not_in_brief" about (l.find_urls text) text in
      let (b, v) = guard_tokens hex_ok "palette_mismatch" about (l.find_hexes text) a in
      let (c, w) = guard_tokens email_ok "claim_not_in_brief" about (l.find_emails text) b in
      let (d, x) = guard_tokens phone_ok "claim_not_in_brief" about (l.find_phones text) c in
      if text == "" then (text, []) else (
        d,
        u ++ v ++ w ++ x ++ warn_tokens price_ok "price_not_in_brief" about (l.find_prices text),
      )

-- The tokens that a list of allowed ones refuses, in their order.
abbrev pub refused : (String → Bool) → List String → List String
refused p toks = filter (λ t. not (p t)) toks

abbrev pub scrub_each : List String → String → String
scrub_each [] text = text
scrub_each (t ∷ ts) text = scrub_each ts (scrub_token text t)

abbrev pub warn_each : String → String → List String → List Warning
warn_each code about toks = map (λ t. record { code = code; about = some about }) toks
