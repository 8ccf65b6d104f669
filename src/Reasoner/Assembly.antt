-- ===== src/Reasoner/Assembly.antt =====
-- reasoner.py: what the functions take from elsewhere, the texts of errors and prompts, and
-- `_assemble_single_callback`. `reason` writes the same assembly out, with no job.
use Prim.Native.String.{◌++◌ as str_append}
use marketer.Prelude.{
  ℕ, String, Bool, false, ◌&&◌, ◌||◌, not, Option, none, some, List, [], ◌∷◌, ◌==◌, length, any,
  is_empty, contains, if◌then◌else◌,
}
use marketer.Value.{Exc, Fields, Result, ok, err, key_error}
use marketer.Schemas.{
  Warning, PostEnrichment, TraceInfo, CfPayload, CallbackBody, Status, SubscriptionJob,
}
use marketer.Context.{InternalContext, Normalized}
use marketer.Text.{has_substring}
use marketer.Validator.Facts.{Language}
use marketer.Validator.Cta.{UrlParser}
use marketer.Catalog.{overlays}
use marketer.Llm.{Failure, Client, Usage, Attempt, is_timeout_exception}
use marketer.Reasoner.Resources.{resources_of, total_items_of}

-- The client; `str.lower` and the matches of the regular expressions; `urlparse`; `normalize` with the
-- profile and the pool that the task has; the prompts; what pydantic makes of a text that should hold
-- the items of a batch or a brand DNA; and how texts, numbers and exceptions are shown in messages.
pub record Runtime : Type 0 where
  pub client : Client
  pub language : Language
  pub urlparse : UrlParser
  pub normalize : Fields → Normalized
  pub system_prompt : String
  pub overlay_text : String → String
  pub render_context : InternalContext → String
  pub render_jobs : List SubscriptionJob → String
  pub repair_prompt : String → String → String
  pub parse_items : String → Attempt (List PostEnrichment)
  pub parse_dna : String → Attempt (Option String)
  pub dna_system_prompt : String
  pub dna_prompt : InternalContext → String
  pub dump_json : PostEnrichment → String
  pub show_texts : List String → String
  pub join_texts : List String → String
  pub show : ℕ → String
  pub show_exc : Exc → String

abbrev pub text_of : Option Failure → String
text_of none = "None"
text_of (some e) = e.message

-- `_format_reasoning_error`
unfoldable pub format_reasoning_error : (String → String) → String → Option Failure → String
format_reasoning_error lower prefix e =
    if is_timeout_exception lower e
    then str_append "llm_timeout: " (text_of e)
    else str_append prefix (str_append ": " (text_of e))

abbrev truncation_markers : List String
truncation_markers =
    "json_invalid" ∷ "eof while parsing" ∷ "unterminated string" ∷ "unexpected end of json input"
    ∷ []

-- `_is_truncated_json_error`
unfoldable pub is_truncated_json_error : (String → String) → Option Failure → Bool
unfolding has_substring
is_truncated_json_error lower none = false
is_truncated_json_error lower (some e) =
    any (λ m. has_substring m (lower e.message)) truncation_markers

-- `err2 or err`
abbrev pub or_error : Option Failure → Option Failure → Option Failure
or_error (some e) other = some e
or_error none other = other

-- `str(err) if err else "schema validation failed"`
abbrev pub repair_cause : Option Failure → String
repair_cause (some e) = e.message
repair_cause none = "schema validation failed"

abbrev pub jobs_or_empty : Option (List SubscriptionJob) → List SubscriptionJob
jobs_or_empty none = []
jobs_or_empty (some jobs) = jobs

abbrev prompt_text : Runtime → InternalContext → List SubscriptionJob → String
prompt_text rt ctx jobs =
    let overlay = rt.overlay_text ctx.action_code in
    let rendered = rt.render_context ctx in
    if ctx.action_code == "subscription_strategy" && not (is_empty jobs)
    then str_append overlay (
        str_append "\n\nsubscription_jobs:\n" (
          str_append (rt.render_jobs jobs) (
            str_append "\n\nContext:\n" (
              str_append rendered
                "\n\nReturn the JSON object {\"items\": [PostEnrichment, ...]} now — one per job, in order."))))
    else str_append overlay (
        str_append "\n\nContext:\n" (str_append rendered "\n\nReturn the PostEnrichment JSON now."))

-- `_build_user_prompt`
unfoldable pub build_user_prompt : Runtime → InternalContext → Result String
build_user_prompt rt ctx =
    if contains ctx.action_code overlays
    then ok (prompt_text rt ctx (jobs_or_empty ctx.subscription_jobs))
    else err key_error

abbrev is_degrading : Warning → Bool
is_degrading w =
    w.code == "brief_missing" || (w.code == "gallery_empty" || w.code == "gallery_all_filtered")

-- An enrichment that was accepted, and what was met on the way to it.
pub record Draft : Type 0 where
  pub enrichment : PostEnrichment
  pub warnings : List Warning
  pub repair_attempted : Bool
  pub usage : Usage

-- `job_index`, `job_action_key` and `total_jobs` of a trace
pub record Stamp : Type 0 where
  pub job_index : Option ℕ
  pub job_action_key : Option String
  pub total_jobs : Option ℕ

abbrev pub no_stamp : Stamp
no_stamp = record { job_index = none; job_action_key = none; total_jobs = none }

abbrev pub stamp_of : SubscriptionJob → ℕ → Stamp
stamp_of job total = record {
  job_index = some job.index;
  job_action_key = some job.action_key;
  total_jobs = some total;
}

abbrev pub trace_of : String → InternalContext → Draft → ℕ → Stamp → TraceInfo
trace_of model_name ctx d latency stamp = record {
  task_id = ctx.task_id;
  action_code = ctx.action_code;
  surface = ctx.surface;
  mode = ctx.mode;
  latency_ms = latency;
  gemini_model = model_name;
  repair_attempted = d.repair_attempted;
  degraded = any is_degrading d.warnings;
  gallery_stats = record {
    raw_count = ctx.gallery_raw_count;
    accepted_count = length ctx.gallery;
    rejected_count = ctx.gallery_rejected_count;
    truncated = ctx.gallery_truncated;
  };
  input_tokens = d.usage.input_tokens;
  output_tokens = d.usage.output_tokens;
  thoughts_tokens = d.usage.thoughts_tokens;
  job_index = stamp.job_index;
  job_action_key = stamp.job_action_key;
  total_jobs = stamp.total_jobs;
}

-- `CFPayload(...)`
abbrev pub payload_of : InternalContext → PostEnrichment → CfPayload
payload_of ctx e = record {
  total_items = total_items_of e.surface_format (resources_of ctx e);
  client_dna = e.brand_dna;
  client_request = e.cf_post_brief;
  resources = resources_of ctx e;
}

-- `_assemble_single_callback`
unfoldable pub assemble_single_callback :
    String → InternalContext → Draft → ℕ → Stamp → CallbackBody
assemble_single_callback model_name ctx d latency stamp = record {
  status = Status.completed;
  output_data = some (record {
    payload = payload_of ctx d.enrichment;
    enrichment = d.enrichment;
    warnings = d.warnings;
    trace = trace_of model_name ctx d latency stamp;
  });
  error_message = none;
}
