-- ===== src/Tests/Checks.antt =====
-- The validator on an output that breaks several rules.
use marketer.Prelude.{
  String, true, false, none, some, List, [], ◌∷◌, ◌≡◌, refl, ◌==◌, contains, map,
}
use marketer.Value.{ok, err, value_error}
use marketer.Schemas.{Warning, VisualSelection, CallToAction, PostEnrichment}
use marketer.Context.{GalleryItem, AvailableChannel, InternalContext}
use marketer.Validator.Facts.{Language, Allowed}
use marketer.Validator.Cta.{UrlParser, handles_of, validate_cta}
use marketer.Validator.Cta.Stable.{validate_cta_idem}
use marketer.Validator.Correction.{
  Verdict, IsDeliverable, validate_and_correct, validate_and_correct-IsDeliverable,
  validate_and_correct_total, validate_and_correct_raises, scrub_all,
}
use marketer.Tests.Data.{sample_enrichment}

-- A language whose texts have no upper case, and only the one link or colour.
abbrev pub sample_language : Language
sample_language = record {
  lower = λ s. s;
  find_urls = λ s. if_same s "http://a.es";
  find_hexes = λ s. if_same s "#fff";
  find_emails = λ s. [];
  find_phones = λ s. [];
  find_prices = λ s. [];
}
  where
    if_same : String → String → List String
    if_same s t = elim (s == t) [ true ↦ t ∷ [] | false ↦ [] ]

abbrev pub answering : UrlParser
answering u = ok ("http", u)

abbrev image : String → String → GalleryItem
image url role = record {
  url = url;
  name = none;
  extension = some "png";
  mime_type = none;
  size_bytes = none;
  width = none;
  height = none;
  tags = [];
  description = none;
  category = none;
  role = role;
  used_previously = none;
}

abbrev pub sample_gallery : List GalleryItem
sample_gallery = image "u1" "content" ∷ image "u2" "reference" ∷ []

abbrev pub email_channel : List AvailableChannel
email_channel =
    (record { channel = "email"; url_or_handle = some "c@d.es"; label_hint = none }) ∷ []

abbrev pub sample_internal : InternalContext
sample_internal = record {
  task_id = "task";
  action_code = "create_post";
  surface = "post";
  mode = "create";
  attachments = [];
  gallery = sample_gallery;
  palette = "#000" ∷ [];
  available_channels = email_channel;
  brief_facts = record { urls = "http://a.es" ∷ []; phones = []; emails = []; prices = [] };
  prior_post = none;
  requested_surface_format = some "story";
  gallery_raw_count = 2;
  gallery_rejected_count = 0;
  gallery_truncated = false;
  subscription_jobs = none;
}

abbrev sample_selection : VisualSelection
sample_selection = sample_enrichment.visual_selection

abbrev sample_allowed : Allowed
sample_allowed = record {
  urls = "http://a.es" ∷ [];
  phones = [];
  emails = [];
  prices = [];
  palette = "#000" ∷ [];
}

abbrev refused_action : CallToAction
refused_action = record { channel = "none"; url_or_handle = none; label = "Write" }

abbrev refusal : List Warning
refusal = (record { code = "cta_channel_invalid"; about = some "cta.url_or_handle" }) ∷ []

refuses :
    validate_cta sample_language answering email_channel sample_enrichment.cta
    ≡ ok (refused_action, refusal)
unfolding validate_cta
refuses = refl

validate_cta_idem_example :
    validate_cta sample_language answering email_channel refused_action ≡ ok (refused_action, [])
validate_cta_idem_example =
    validate_cta_idem sample_language answering email_channel sample_enrichment.cta refused_action
      refusal refuses

abbrev sample_verdict :
    (v : Verdict) × (validate_and_correct sample_language answering sample_internal
        sample_enrichment
      ≡ ok v)
sample_verdict =
    validate_and_correct_total sample_language answering sample_internal
      (λ name u h. (("http", u), refl)) sample_enrichment

validate_and_correct-IsDeliverable_example :
    IsDeliverable sample_language answering sample_internal sample_enrichment sample_verdict.0
validate_and_correct-IsDeliverable_example =
    validate_and_correct-IsDeliverable sample_language answering sample_internal sample_enrichment
      sample_verdict.0 sample_verdict.1

-- A parser that takes no address, and a channel with one that it does not take.
abbrev refusing : UrlParser
refusing u = err value_error

abbrev bracket_context : InternalContext
bracket_context = record sample_internal {
  available_channels =
      (record { channel = "website"; url_or_handle = some "http://[a"; label_hint = none }) ∷ [];
}

abbrev bracket_enrichment : PostEnrichment
bracket_enrichment = record sample_enrichment {
  cta = record { channel = "website"; url_or_handle = some "http://[a"; label = "See" };
}

bracket_raises :
    validate_and_correct sample_language refusing bracket_context bracket_enrichment
    ≡ err value_error
unfolding validate_and_correct scrub_all validate_cta
bracket_raises = refl

validate_and_correct_raises_example :
    (u : String) × (bracket_enrichment.cta.url_or_handle ≡ some u)
    × (contains u (map (λ s. s) (handles_of bracket_context.available_channels "website")) ≡ true)
    × (refusing u ≡ err value_error)
validate_and_correct_raises_example =
    validate_and_correct_raises sample_language refusing bracket_context bracket_enrichment
      value_error bracket_raises
