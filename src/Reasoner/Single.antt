-- ===== src/Reasoner/Single.antt =====
-- reasoner.py: `reason`, for one job. The log of the client is passed along; the reading of the clock
-- at the end is an argument.
pub mod Calls
pub mod Outcome
use Prim.Native.String.{◌++◌ as str_append}
use marketer.Prelude.{
  ℕ, max, String, Bool, true, false, ◌&&◌, not, Option, none, some, List, [], ◌∷◌, ◌++◌, ◌==◌,
  is_empty, is_some, if◌then◌else◌,
}
use marketer.Value.{Fields, Result, ok, err}
use marketer.Schemas.{Warning, PostEnrichment, CallbackBody, failed_body}
use marketer.Context.{InternalContext, Normalized, normalized, invalid, crashed}
use marketer.Validator.Correction.{Verdict, validate_and_correct}
use marketer.Llm.{
  Failure, Usage, Answer, Log, add_usage, generate_structured, repair, is_timeout_exception,
}
use marketer.Reasoner.Assembly.{
  Runtime, text_of, format_reasoning_error, is_truncated_json_error, or_error, repair_cause,
  build_user_prompt, Draft, no_stamp, assemble_single_callback,
}

-- Where the calls of the model end: with a draft, or with the text of a FAILED callback.
pub data Step : Type 0 where
  drafted : Draft → Step
  refused : String → Step

abbrev pub schema_repair_used : Warning
schema_repair_used = record { code = "schema_repair_used"; about = none }

abbrev pub compact_suffix : String
compact_suffix =
    "\n\nYour previous output was truncated. Rewrite the full JSON from scratch. Be concise in all long text fields, keep strings short, and close all JSON objects and strings."

module _ (rt : Runtime) (max_tokens : ℕ) where
  abbrev pub timed_out : Option Failure → Bool
  timed_out e = is_timeout_exception rt.language.lower e

  abbrev pub schema_failure : Option Failure → String
  schema_failure e = format_reasoning_error rt.language.lower "schema_validation_failed" e

  abbrev pub repaired : PostEnrichment → List Warning → Usage → Draft
  repaired e ws usage = record {
    enrichment = e;
    warnings = ws ++ schema_repair_used ∷ [];
    repair_attempted = true;
    usage = usage;
  }

  -- after the compact repair, whose error takes the place of that of the first repair
  abbrev pub after_compact : List Warning → Answer → Usage → Answer × Log → Step × Log
  after_compact ws first usage (c, log) = elim c.parsed [
    | some e ↦ (drafted (repaired e ws (add_usage usage c.usage)), log)
    | none ↦ (refused (schema_failure (or_error c.error first.error)), log)
  ]

  -- after the first repair: a truncated answer gets a second one
  abbrev pub after_repair : List Warning → Answer → String → Answer × Log → Step × Log
  after_repair ws first prompt (b, log) = elim b.parsed [
    | some e ↦ (drafted (repaired e ws (add_usage first.usage b.usage)), log)
    | none ↦
        if is_truncated_json_error rt.language.lower (or_error b.error first.error)
        then after_compact ws first (add_usage first.usage b.usage) (
            repair rt.client rt.system_prompt (str_append prompt compact_suffix)
              (max max_tokens 16384) log)
        else (refused (schema_failure (or_error b.error first.error)), log)
  ]

  abbrev pub after_first : List Warning → Answer × Log → Step × Log
  after_first ws (a, log) = elim a.parsed [
    | some e ↦ (
      drafted (record { enrichment = e; warnings = ws; repair_attempted = false; usage = a.usage }),
      log,
    )
    | none ↦
        let prompt = rt.repair_prompt (repair_cause a.error) a.raw_text in
        if timed_out a.error
        then (refused (str_append "llm_timeout: " (text_of a.error)), log)
        else after_repair ws a prompt (repair rt.client rt.system_prompt prompt max_tokens log)
  ]

  -- from the prompt to an enrichment that parses
  unfoldable pub compose : List Warning → String → Log → Step × Log
  compose ws user_prompt log =
      after_first ws (generate_structured rt.client rt.system_prompt user_prompt max_tokens log)

  abbrev pub validated : InternalContext → PostEnrichment → Result Verdict
  validated ctx e = validate_and_correct rt.language rt.urlparse ctx e

  -- `if precomputed_brand_dna: enrichment.brand_dna = precomputed_brand_dna`
  abbrev pub inject_dna : Option String → PostEnrichment → PostEnrichment
  inject_dna none e = e
  inject_dna (some s) e = if s == "" then e else record e { brand_dna = s }

  abbrev pub delivered_draft : Option String → Draft → List Warning → Verdict → Draft
  delivered_draft dna d ws v = record {
    enrichment = inject_dna dna v.enrichment;
    warnings = ws ++ v.warnings;
    repair_attempted = d.repair_attempted;
    usage = d.usage;
  }

  abbrev pub completed_with :
      InternalContext → Option String → ℕ → Draft → List Warning → Verdict → CallbackBody
  completed_with ctx dna latency d ws v =
      assemble_single_callback rt.client.model_name ctx (delivered_draft dna d ws v) latency
        no_stamp

  -- the second validation, after a repair of blocking errors
  abbrev pub revalidated :
      InternalContext → Option String → ℕ → Draft → Result Verdict → Result CallbackBody
  revalidated ctx dna latency d (err x) = err x
  revalidated ctx dna latency d (ok v) =
      if not (is_empty v.blocking)
      then ok (failed_body (str_append "schema_validation_failed: " (rt.show_texts v.blocking)))
      else ok (completed_with ctx dna latency d (d.warnings ++ schema_repair_used ∷ []) v)

  -- `_format_reasoning_error("schema_validation_failed", err2 or blocking)`
  abbrev pub blocked_text : Option Failure → List String → String
  blocked_text (some e) blocking = schema_failure (some e)
  blocked_text none blocking = str_append "schema_validation_failed: " (rt.show_texts blocking)

  abbrev pub after_realign :
      InternalContext
      → Option String
      → ℕ
      → Draft
      → List String
      → Answer × Log
      → Result CallbackBody × Log
  after_realign ctx dna latency d blocking (b, log) = elim b.parsed [
    | some e ↦ (
      revalidated ctx dna latency
          (record d { usage = add_usage d.usage b.usage; repair_attempted = true })
          (validated ctx e),
      log,
    )
    | none ↦ (ok (failed_body (blocked_text b.error blocking)), log)
  ]

  abbrev pub judge :
      InternalContext → Option String → ℕ → Draft → Log → Result Verdict → Result CallbackBody × Log
  judge ctx dna latency d log (err x) = (err x, log)
  judge ctx dna latency d log (ok v) =
      if not (is_empty v.blocking)
      then if d.repair_attempted
        then (
          ok (failed_body (str_append "schema_validation_failed: " (rt.show_texts v.blocking))),
          log,
        )
        else after_realign ctx dna latency d v.blocking (
            repair rt.client rt.system_prompt
              (rt.repair_prompt (rt.join_texts v.blocking) (rt.dump_json v.enrichment)) max_tokens
              log)
      else (ok (completed_with ctx dna latency d d.warnings v), log)

  -- validation and assembly
  unfoldable pub conclude :
      InternalContext → Option String → ℕ → Step × Log → Result CallbackBody × Log
  conclude ctx dna latency (refused m, log) = (ok (failed_body m), log)
  conclude ctx dna latency (drafted d, log) =
      judge ctx dna latency d log (validated ctx d.enrichment)

  abbrev pub web_refusal : String
  web_refusal =
      "create_web_not_supported_in_this_iteration: MARKETER v1 does not support web creation"

  abbrev pub prior_refusal : String
  prior_refusal =
      "prior_post_missing: edit_post requires prior_post (caption and/or image_url) in client_request.context.prior_post, payload.extras.prior_post, or agent_sequence.previous[*].output_data"

  abbrev pub prompted :
      InternalContext
      → List Warning
      → Option String
      → ℕ
      → Log
      → Result String
      → Result CallbackBody × Log
  prompted ctx ws dna latency log (err x) = (err x, log)
  prompted ctx ws dna latency log (ok user_prompt) =
      conclude ctx dna latency (compose ws user_prompt log)

  -- the guards on the action, and the rest
  abbrev pub begin : Option String → ℕ → Log → Normalized → Result CallbackBody × Log
  begin dna latency log (crashed x) = (err x, log)
  begin dna latency log (invalid m) = (ok (failed_body m), log)
  begin dna latency log (normalized ctx ws) =
      if ctx.action_code == "create_web"
      then (ok (failed_body web_refusal), log)
      else if ctx.action_code == "edit_post" && not (is_some ctx.prior_post)
      then (ok (failed_body prior_refusal), log)
      else prompted ctx ws dna latency log (build_user_prompt rt ctx)

  unfoldable pub reason : Option String → Fields → ℕ → Log → Result CallbackBody × Log
  reason dna envelope latency log = begin dna latency log (rt.normalize envelope)
