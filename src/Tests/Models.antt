-- ===== src/Tests/Models.antt =====
-- A language model that answers badly twice and then well.
use marketer.Prelude.{
  ℕ, zero, suc, String, true, false, none, some, [], ◌∷◌, ◌≡◌, refl, ◌==◌, contains, map, ◌||◌, ◌≤◌,
  if◌then◌else◌,
}
use marketer.Value.{pos, Value, str, Result, ok, get}
use marketer.Schemas.{CallbackBody, CallbackOutputData}
use marketer.Context.{InternalContext, Normalized, normalized}
use marketer.Validator.Cta.{validate_cta}
use marketer.Validator.Correction.{scrub_all, finish, validate_and_correct}
use marketer.Llm.{
  read_response, generate_structured, repair, is_timeout_exception, Failure, Attempt, returned,
  raised, Response, Client, Log,
}
use marketer.Catalog.{overlays}
use marketer.Reasoner.Assembly.{
  Runtime, build_user_prompt, is_truncated_json_error, assemble_single_callback,
}
use marketer.Reasoner.Resources.{resources_of, total_items_of, no_repeats, resources_of_complete}
use marketer.Reasoner.Single.{compose, conclude, reason}
use marketer.Reasoner.Single.Calls.{Within}
use marketer.Reasoner.Single.Outcome.{
  is_settled, IsReported, reason-IsReported, reason_answers, reason_calls,
}
use marketer.Tests.Data.{sample_enrichment, sample_envelope, sample_job}
use marketer.Tests.Checks.{sample_language, answering, sample_internal}

abbrev cut_short : Failure
cut_short = record {
  is_timeout_error = false;
  type_name = "ValidationError";
  message = "eof while parsing";
}

abbrev reply_with : String → Attempt Response
reply_with s = returned (record {
  text = some s;
  usage_metadata = some (record {
    prompt_token_count = some 10;
    candidates_token_count = some 5;
    thoughts_token_count = none;
  });
})

abbrev pub patient_client : Client
patient_client = record {
  model_name = "m";
  timeout_seconds = pos 30;
  backend = λ k q. third k;
  parse = λ s. if s == "good" then returned sample_enrichment else raised cut_short;
}
  where
    third : ℕ → Attempt Response
    third zero = reply_with "bad"
    third (suc zero) = reply_with "bad"
    third (suc (suc k)) = reply_with "good"

abbrev pub batch_internal : InternalContext
batch_internal = record sample_internal {
  action_code = "subscription_strategy";
  subscription_jobs = some (sample_job none ∷ []);
}

abbrev normalize_action : Value → Normalized
normalize_action (str s) =
    if s == "create_post" then normalized sample_internal [] else normalized batch_internal []
normalize_action _ = normalized batch_internal []

abbrev pub sample_runtime : Runtime
sample_runtime = record {
  client = patient_client;
  language = sample_language;
  urlparse = answering;
  normalize = λ e. normalize_action (get "action_code" e);
  system_prompt = "system";
  overlay_text = λ s. s;
  render_context = λ ctx. "{}";
  render_jobs = λ js. "[]";
  repair_prompt = λ e p. "repair";
  parse_items = λ s. if s == "good" then returned (sample_enrichment ∷ []) else raised cut_short;
  parse_dna = λ s. if s == "bad" then returned (some "shared") else raised cut_short;
  dna_system_prompt = "dna";
  dna_prompt = λ ctx. "brand";
  dump_json = λ e. "{}";
  show_texts = λ ts. "[]";
  join_texts = λ ts. "";
  show = λ n. "1";
  show_exc = λ e. "Error";
}

reason_calls_example :
    Within sample_runtime 100 3 (reason sample_runtime 100 (some "warm") sample_envelope 7 []).1
reason_calls_example = reason_calls sample_runtime 100 (some "warm") sample_envelope 7

reason_answers_example :
    (cb : CallbackBody) × ((reason sample_runtime 100 (some "warm") sample_envelope 7 []).0 ≡ ok cb)
    × (is_settled cb ≡ true)
unfolding overlays
reason_answers_example =
    reason_answers sample_runtime 100 sample_internal (some "warm")
      (λ name u h. (("http", u), refl)) sample_envelope [] 7 refl refl

abbrev sample_run : Result CallbackBody × Log
sample_run = reason sample_runtime 100 (some "warm") sample_envelope 7 []

reported_run :
    (cb : CallbackBody) × (log : Log) × (out : CallbackOutputData) × (sample_run ≡ (ok cb, log))
    × (cb.output_data ≡ some out)
unfolding overlays reason build_user_prompt conclude compose generate_structured read_response
    is_timeout_exception repair is_truncated_json_error validate_and_correct validate_cta scrub_all
    finish assemble_single_callback
reported_run = (_, _, _, refl, refl)

reason-IsReported_example :
    IsReported sample_runtime 100 sample_internal (some "warm") reported_run.1 reported_run.2
reason-IsReported_example =
    reason-IsReported sample_runtime 100 sample_internal (some "warm") sample_envelope [] 7
      reported_run.0 reported_run.1 reported_run.2 refl reported_run.3 reported_run.4

resources_of_complete_example :
    (no_repeats (resources_of sample_internal sample_enrichment) ≡ true)
    × ((u : String)
        → contains u (resources_of sample_internal sample_enrichment) ≡ (
            contains u sample_internal.attachments
            || (contains u (map (λ img. img.content_url) sample_enrichment.selected_images)
                || contains u sample_enrichment.visual_selection.recommended_asset_urls)))
    × (1
        ≤ total_items_of sample_enrichment.surface_format
            (resources_of sample_internal sample_enrichment))
resources_of_complete_example = resources_of_complete sample_internal sample_enrichment
