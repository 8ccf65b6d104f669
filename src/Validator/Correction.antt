-- ===== src/Validator/Correction.antt =====
-- validator.py: `validate_and_correct`, the checks in their order, and what they establish together.
use marketer.Prelude.{
  ◌≤◌, String, true, not, Option, none, some, List, [], ◌++◌, ◌≡◌, refl, subst, ◌==◌, filter, map,
  length, contains, arith, eq_iff, if◌then◌else◌,
}
use marketer.Value.{Exc, Result, ok, err, ◌>>=◌}
use marketer.Schemas.{Warning, CallToAction, VisualSelection, PostEnrichment}
use marketer.Context.{InternalContext}
use marketer.Validator.Visual.{correct_visual, in_gallery, is_reference}
use marketer.Validator.Visual.Containment.{Each, correct_visual_contained}
use marketer.Validator.Facts.{Language, Allowed, normalize_phone, check_text_facts}
use marketer.Validator.Cta.{UrlParser, handles_of, validate_cta, check_coherence}
use marketer.Validator.Cta.Offered.{is_offered, validate_cta_offered, validate_cta-Raises}
use marketer.Validator.Caption.{
  override_surface, check_lengths, check_presence, cap_do_not, clamp_volume, cap_do_not_bound,
  clamp_volume_bound,
}

-- The surface that the user asked for, or else the one that the model chose.
abbrev pub wanted_surface : Option String → String → String
wanted_surface none chosen = chosen
wanted_surface (some asked) chosen = if asked == "" then chosen else asked

override_surface_lem :
    (requested : Option String) (chosen : String)
    → (override_surface requested chosen).0 ≡ wanted_surface requested chosen
unfolding override_surface
override_surface_lem none chosen = refl
override_surface_lem (some asked) chosen = ground (arith, eq_iff chosen asked)

-- `(corrected, warnings, blocking_errors)`
pub record Verdict : Type 0 where
  pub enrichment : PostEnrichment
  pub warnings : List Warning
  pub blocking : List String

module _ (l : Language) (urlparse : UrlParser) (ctx : InternalContext) where
  -- the sets that the texts may cite, from the facts of the brief and the palette of the brand
  unfoldable pub allowed_of : Allowed
  allowed_of = record {
    urls = map l.lower ctx.brief_facts.urls;
    phones = map normalize_phone (filter (λ p. not (p == "")) ctx.brief_facts.phones);
    emails = map l.lower ctx.brief_facts.emails;
    prices = ctx.brief_facts.prices;
    palette = map l.lower ctx.palette;
  }

  -- The nine text fields, scrubbed in the order of the code.
  unfoldable pub scrub_all : PostEnrichment → PostEnrichment × List Warning
  scrub_all e =
      let scrub = check_text_facts l allowed_of in
      let (dna, a) = scrub "brand_dna" e.brand_dna in
      let (notes, b) = scrub "visual_style_notes" e.visual_style_notes in
      let (concept, c) = scrub "image.concept" e.image.concept in
      let (prompt, d) = scrub "image.generation_prompt" e.image.generation_prompt in
      let (alt, f) = scrub "image.alt_text" e.image.alt_text in
      let (hook, g) = scrub "caption.hook" e.caption.hook in
      let (body, h) = scrub "caption.body" e.caption.body in
      let (line, i) = scrub "caption.cta_line" e.caption.cta_line in
      let (brief, j) = scrub "cf_post_brief" e.cf_post_brief in
      (
        record {
          surface_format = e.surface_format;
          title = e.title;
          objective = e.objective;
          brand_dna = dna;
          visual_style_notes = notes;
          image = record { concept = concept; generation_prompt = prompt; alt_text = alt };
          caption = record { hook = hook; body = body; cta_line = line };
          cta = e.cta;
          hashtag_strategy = e.hashtag_strategy;
          do_not = e.do_not;
          selected_images = e.selected_images;
          visual_selection = e.visual_selection;
          brand_intelligence = e.brand_intelligence;
          cf_post_brief = brief;
        },
        a ++ b ++ c ++ d ++ f ++ g ++ h ++ i ++ j,
      )

  -- What is left once the call to action is known: coherence, lengths, presence and the clamps.
  unfoldable pub finish :
      String
      → VisualSelection
      → PostEnrichment
      → List Warning
      → CallToAction × List Warning
      → Verdict
  finish surface vs e ws c =
      let (items, m) = cap_do_not e.do_not in
      let (tags, n) = clamp_volume e.hashtag_strategy in
      record {
        enrichment = record {
          surface_format = surface;
          title = e.title;
          objective = e.objective;
          brand_dna = e.brand_dna;
          visual_style_notes = e.visual_style_notes;
          image = e.image;
          caption = e.caption;
          cta = c.0;
          hashtag_strategy = tags;
          do_not = items;
          selected_images = e.selected_images;
          visual_selection = vs;
          brand_intelligence = e.brand_intelligence;
          cf_post_brief = e.cf_post_brief;
        };
        warnings =
            ws
            ++ c.1
            ++ check_coherence l c.0 e.caption.cta_line
            ++ check_lengths surface e.caption
            ++ check_presence e.title e.objective e.image.concept e.caption
            ++ m
            ++ n;
        blocking = [];
      }

  unfoldable pub validate_and_correct : PostEnrichment → Result Verdict
  validate_and_correct e =
      let (surface, a) = override_surface ctx.requested_surface_format e.surface_format in
      let (vs, b) = correct_visual ctx.gallery e.visual_selection in
      let (scrubbed, c) = scrub_all e in
      validate_cta l urlparse ctx.available_channels scrubbed.cta
      >>= (λ r. ok (finish surface vs scrubbed (a ++ b ++ c) r))

  -- What a verdict promises to whoever delivers the enrichment.
  pub record IsDeliverable (e : PostEnrichment) (v : Verdict) : Type 0 where
    pub never_blocked : v.blocking ≡ []
    pub surface_chosen :
        v.enrichment.surface_format ≡ wanted_surface ctx.requested_surface_format e.surface_format
    pub assets_known :
        Each (in_gallery ctx.gallery) v.enrichment.visual_selection.recommended_asset_urls
    pub assets_ordinary :
        Each
          (λ u. not (is_reference ctx.gallery u))
          v.enrichment.visual_selection.recommended_asset_urls
    pub references_known :
        Each (in_gallery ctx.gallery) v.enrichment.visual_selection.recommended_reference_urls
    pub avoided_known : Each (in_gallery ctx.gallery) v.enrichment.visual_selection.avoid_asset_urls
    pub assets_unshared :
        Each
          (λ u. not (contains u v.enrichment.visual_selection.recommended_reference_urls))
          v.enrichment.visual_selection.recommended_asset_urls
    pub action_offered : is_offered l ctx.available_channels v.enrichment.cta ≡ true
    pub do_not_short : length v.enrichment.do_not ≤ 5
    pub volume_safe : v.enrichment.hashtag_strategy.suggested_volume ≤ 30

  Judged : PostEnrichment → Result Verdict → Type 0
  Judged e (err x) = Unit
  Judged e (ok v) = IsDeliverable e v

  bind_raises :
      (q : Result (CallToAction × List Warning)) (f : CallToAction × List Warning → Verdict)
      (x : Exc)
      → (q >>= (λ r. ok (f r))) ≡ err x
      → q ≡ err x
  bind_raises (ok q) f x h = cc
  bind_raises (err y) f x h = cc

  finish-IsDeliverable :
      (e : PostEnrichment) (q : Result (CallToAction × List Warning))
      → ((r : CallToAction) (ws : List Warning)
          → q ≡ ok (r, ws)
          → is_offered l ctx.available_channels r ≡ true)
      → (ws : List Warning)
      → Judged e (
          q >>= (λ r. ok (
            finish
              (override_surface ctx.requested_surface_format e.surface_format).0
              (correct_visual ctx.gallery e.visual_selection).0
              (scrub_all e).0
              ws
              r)))
  unfolding Judged finish scrub_all
  finish-IsDeliverable e (err x) h ws = tt
  finish-IsDeliverable e (ok (c, w)) h ws =
      let k = correct_visual_contained ctx.gallery e.visual_selection in
      record {
        never_blocked = refl;
        surface_chosen = override_surface_lem ctx.requested_surface_format e.surface_format;
        assets_known = k.0;
        assets_ordinary = k.1;
        references_known = k.3;
        avoided_known = k.4;
        assets_unshared = k.2;
        action_offered = h c w refl;
        do_not_short = cap_do_not_bound e.do_not;
        volume_safe = clamp_volume_bound e.hashtag_strategy;
      }

  -- Whatever the model answered, a verdict of the validator never blocks, and its enrichment has the
  -- surface that the user asked for, if any, or else the one of the model; recommends and avoids only
  -- URLs of the gallery, recommends as an asset none of a reference and none that it recommends as a
  -- reference too, has a call to action that the context allows, at most 5 items not to do, and
  -- suggests at most 30 hashtags.
  pub validate_and_correct-IsDeliverable :
      (e : PostEnrichment) (v : Verdict) → validate_and_correct e ≡ ok v → IsDeliverable e v
  unfolding validate_and_correct Judged
  validate_and_correct-IsDeliverable e v h = subst (Judged e) h (
      finish-IsDeliverable e (validate_cta l urlparse ctx.available_channels (scrub_all e).0.cta)
        (λ r ws. validate_cta_offered l urlparse ctx.available_channels (scrub_all e).0.cta r ws) _)

  -- The validator raises nothing but what `urlparse` raises, and that only on the handle of the model's
  -- call to action, if it is one that the context has for that channel.
  pub validate_and_correct_raises :
      (e : PostEnrichment) (x : Exc)
      → validate_and_correct e ≡ err x
      → (u : String) × (e.cta.url_or_handle ≡ some u)
        × (contains (l.lower u) (map l.lower (handles_of ctx.available_channels e.cta.channel))
            ≡ true)
        × (urlparse u ≡ err x)
  unfolding validate_and_correct scrub_all
  validate_and_correct_raises e x h =
      validate_cta-Raises l urlparse ctx.available_channels e.cta x (bind_raises _ _ x h)

  -- The validator answers for every enrichment, if `urlparse` answers for the handles of the context.
  pub validate_and_correct_total :
      ((name u : String)
        → contains (l.lower u) (map l.lower (handles_of ctx.available_channels name)) ≡ true
        → (p : String × String) × (urlparse u ≡ ok p))
      → (e : PostEnrichment) → (v : Verdict) × (validate_and_correct e ≡ ok v)
  validate_and_correct_total answers e = told (validate_and_correct e) refl
    where
      told :
          (r : Result Verdict)
          → validate_and_correct e ≡ r
          → (v : Verdict) × (validate_and_correct e ≡ ok v)
      told (ok v) h = (v, h)
      told (err x) h =
          let (u, o, k, raised) = validate_and_correct_raises e x h in
          let (p, answered) = answers e.cta.channel u k in cc
