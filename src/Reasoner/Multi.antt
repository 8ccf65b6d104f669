-- ===== src/Reasoner/Multi.antt =====
-- reasoner.py: `reason_multi`, one call of the model for all jobs of a batch.
pub mod Aligned
use Prim.Native.String.{◌++◌ as str_append}
use marketer.Prelude.{
  ℕ, ◌*◌, min, String, Bool, true, false, not, Option, none, some, List, [], ◌∷◌, ◌++◌, ◌==◌, map,
  length, is_empty, if◌then◌else◌,
}
use marketer.Value.{Fields, Result, ok, err, ◌>>=◌}
use marketer.Schemas.{Warning, PostEnrichment, CallbackBody, SubscriptionJob, failed_body}
use marketer.Context.{InternalContext, Normalized, normalized, invalid, crashed}
use marketer.Validator.Correction.{Verdict, validate_and_correct}
use marketer.Llm.{
  Failure, Usage, Attempt, returned, raised, Answer, Log, add_usage, generate_structured, repair,
  is_timeout_exception,
}
use marketer.Reasoner.Assembly.{
  Runtime, text_of, format_reasoning_error, or_error, repair_cause, jobs_or_empty,
  build_user_prompt, stamp_of, assemble_single_callback,
}
use marketer.Reasoner.Single.{schema_repair_used}

abbrev pub Pairs : Type 0
Pairs = List (CallbackBody × Option SubscriptionJob)

-- a failure that belongs to no job
abbrev pub global_failure : String → Pairs
global_failure m = (failed_body m, none) ∷ []

-- the same failure for every job
unfoldable pub fail_all : String → List SubscriptionJob → Pairs
fail_all m [] = []
fail_all m (j ∷ js) = (failed_body m, some j) ∷ fail_all m js

-- The items that a text parses to, or the error that is left: that of the parser, or the one before.
abbrev pub Parsed : Type 0
Parsed = Option (List PostEnrichment) × Option Failure

abbrev pub accept : Attempt (List PostEnrichment) → Option Failure → Parsed
accept (returned items) before = (some items, before)
accept (raised x) before = (none, some x)

-- what the assembly of a batch reads besides the items
pub record Batch : Type 0 where
  pub warnings : List Warning
  pub repair_attempted : Bool
  pub usage : Usage
  pub latency : ℕ
  pub total : ℕ
  pub received : ℕ

module _ (rt : Runtime) (ctx : InternalContext) where
  unfoldable pub parse_multi : String → Option Failure → Parsed
  parse_multi raw before = if raw == "" then (none, before) else accept (rt.parse_items raw) before

  abbrev pub fewer_items : Batch → String
  fewer_items b =
      str_append "llm_returned_fewer_items: expected "
        (str_append (rt.show b.total) (str_append ", got " (rt.show b.received)))

  abbrev pub item_callback : Batch → SubscriptionJob → Verdict → CallbackBody
  item_callback b job v =
      if not (is_empty v.blocking)
      then failed_body (str_append "schema_validation_failed: " (rt.show_texts v.blocking))
      else assemble_single_callback rt.client.model_name ctx
          (record {
            enrichment = v.enrichment;
            warnings = b.warnings ++ v.warnings;
            repair_attempted = b.repair_attempted;
            usage = b.usage;
          })
          b.latency (stamp_of job b.total)

  -- the loop over the jobs
  unfoldable pub assemble_items : Batch → List SubscriptionJob → List PostEnrichment → Result Pairs
  assemble_items b [] items = ok []
  assemble_items b (j ∷ js) [] =
      assemble_items b js [] >>= (λ rest. ok ((failed_body (fewer_items b), some j) ∷ rest))
  assemble_items b (j ∷ js) (e ∷ es) =
      validate_and_correct rt.language rt.urlparse ctx e
      >>= (λ v. assemble_items b js es >>= (λ rest. ok ((item_callback b j v, some j) ∷ rest)))

  abbrev batch_of :
      List Warning → Bool → Usage → ℕ → List SubscriptionJob → List PostEnrichment → Batch
  batch_of ws repaired usage latency jobs items = record {
    warnings = ws;
    repair_attempted = repaired;
    usage = usage;
    latency = latency;
    total = length jobs;
    received = length items;
  }

  abbrev pub after_multi_repair :
      List Warning
      → Usage
      → Option Failure
      → ℕ
      → List SubscriptionJob
      → Parsed
      → Log
      → Result Pairs × Log
  after_multi_repair ws usage first latency jobs (some items, x) log = (
    assemble_items (batch_of (ws ++ schema_repair_used ∷ []) true usage latency jobs items) jobs
        items,
    log,
  )
  after_multi_repair ws usage first latency jobs (none, x) log = (
    ok (
        fail_all
          (format_reasoning_error rt.language.lower "schema_validation_failed" (or_error x first))
          jobs),
    log,
  )

  abbrev pub repair_multi :
      List Warning
      → Usage
      → Option Failure
      → ℕ
      → List SubscriptionJob
      → Answer × Log
      → Result Pairs × Log
  repair_multi ws usage first latency jobs (b, log) =
      after_multi_repair ws (add_usage usage b.usage) first latency jobs
        (parse_multi b.raw_text b.error) log

  abbrev pub after_multi :
      List Warning → ℕ → ℕ → List SubscriptionJob → Answer → Log → Parsed → Result Pairs × Log
  after_multi ws scaled latency jobs a log (some items, x) =
      (assemble_items (batch_of ws false a.usage latency jobs items) jobs items, log)
  after_multi ws scaled latency jobs a log (none, x) =
      if is_timeout_exception rt.language.lower x
      then (ok (fail_all (str_append "llm_timeout: " (text_of x)) jobs), log)
      else repair_multi ws a.usage x latency jobs (
          repair rt.client rt.system_prompt (rt.repair_prompt (repair_cause x) a.raw_text) scaled
            log)

  abbrev pub parse_first :
      List Warning → ℕ → ℕ → List SubscriptionJob → Answer × Log → Result Pairs × Log
  parse_first ws scaled latency jobs (a, log) =
      after_multi ws scaled latency jobs a log (parse_multi a.raw_text a.error)

  abbrev pub scaled_tokens : ℕ → List SubscriptionJob → ℕ
  scaled_tokens max_tokens jobs = min (max_tokens * length jobs) 65536

  abbrev pub prompted_multi :
      ℕ → List Warning → ℕ → List SubscriptionJob → Log → Result String → Result Pairs × Log
  prompted_multi max_tokens ws latency jobs log (err x) = (err x, log)
  prompted_multi max_tokens ws latency jobs log (ok user_prompt) =
      parse_first ws (scaled_tokens max_tokens jobs) latency jobs (
        generate_structured rt.client rt.system_prompt user_prompt (scaled_tokens max_tokens jobs)
          log)

  abbrev pub multi_over : ℕ → List Warning → ℕ → Log → List SubscriptionJob → Result Pairs × Log
  multi_over max_tokens ws latency log [] = (ok (global_failure "no valid subscription jobs"), log)
  multi_over max_tokens ws latency log (j ∷ js) =
      prompted_multi max_tokens ws latency (j ∷ js) log (build_user_prompt rt ctx)

abbrev pub begin_multi : Runtime → ℕ → ℕ → Log → Normalized → Result Pairs × Log
begin_multi rt max_tokens latency log (crashed x) = (err x, log)
begin_multi rt max_tokens latency log (invalid m) = (ok (global_failure m), log)
begin_multi rt max_tokens latency log (normalized ctx ws) =
    multi_over rt ctx max_tokens ws latency log (jobs_or_empty ctx.subscription_jobs)

unfoldable pub reason_multi : Runtime → ℕ → Fields → ℕ → Log → Result Pairs × Log
reason_multi rt max_tokens envelope latency log =
    begin_multi rt max_tokens latency log (rt.normalize envelope)
