-- ===== src/Reasoner/Fanout.antt =====
-- reasoner.py: `extract_brand_dna` and `reason_multi_fanout`, one call of `reason` for each job of a
-- batch. The jobs run in threads of their own, so that `clients i` is the client as the job at position
-- `i` meets it, whatever order the threads run in.
pub mod BrandDna
pub mod Shared
use Prim.Native.String.{◌++◌ as str_append}
use marketer.Prelude.{
  ℕ, suc, String, Bool, true, false, Option, none, some, List, [], ◌∷◌, ◌==◌, length, contains,
  if◌then◌else◌,
}
use marketer.Value.{Exc, Fields, Result, ok, err}
use marketer.Schemas.{CallbackOutputData, CallbackBody, SubscriptionJob, failed_body}
use marketer.Context.{InternalContext, Normalized, normalized, invalid, crashed}
use marketer.Text.{strip}
use marketer.Llm.{Client, Answer, Attempt, returned, raised, Log, generate_structured}
use marketer.Reasoner.Assembly.{Runtime, jobs_or_empty, Stamp, stamp_of}
use marketer.Reasoner.Single.{reason}
use marketer.Reasoner.Multi.{Pairs, global_failure}
use marketer.Reasoner.Clone.{clone_envelope_for_job}

unfoldable pub known_fanout_actions : List String
known_fanout_actions = "create_post" ∷ "edit_post" ∷ []

-- `(parsed.brand_dna or "").strip()`, and None if nothing is left
abbrev or_blank : Option String → String
or_blank none = ""
or_blank (some s) = s

abbrev pub some_text : String → Option String
some_text s = if s == "" then none else some s

abbrev pub dna_of : Attempt (Option String) → Option String
dna_of (raised x) = none
dna_of (returned o) = some_text (strip (or_blank o))

abbrev read_dna : Runtime → Answer × Log → Option String × Log
read_dna rt (a, log) = (if a.raw_text == "" then none else dna_of (rt.parse_dna a.raw_text), log)

abbrev pub begin_dna : Runtime → ℕ → Log → Normalized → Result (Option String) × Log
begin_dna rt max_tokens log (crashed x) = (err x, log)
begin_dna rt max_tokens log (invalid m) = (ok none, log)
begin_dna rt max_tokens log (normalized ctx ws) =
    let (dna, log') =
      read_dna rt
        (generate_structured rt.client rt.dna_system_prompt (rt.dna_prompt ctx) max_tokens log) in
    (ok dna, log')

unfoldable pub extract_brand_dna : Runtime → ℕ → Fields → Log → Result (Option String) × Log
unfolding strip
extract_brand_dna rt max_tokens envelope log = begin_dna rt max_tokens log (rt.normalize envelope)

module _ (rt : Runtime) (max_tokens : ℕ) (clients : ℕ → Client) (latencies : ℕ → ℕ) where
  abbrev pub runtime_of : ℕ → Runtime
  runtime_of idx = record rt { client = clients idx }

  abbrev pub unsupported : String → String
  unsupported key =
      str_append "unsupported_action_key_in_fanout: "
        (str_append key " (only create_post and edit_post are supported)")

  abbrev pub run_clone : Option String → ℕ → Result Fields → Result CallbackBody
  run_clone dna idx (err e) = err e
  run_clone dna idx (ok single) =
      (reason (runtime_of idx) max_tokens dna single (latencies idx) []).0

  -- `_run_one`
  unfoldable pub run_one : Option String → Fields → ℕ → SubscriptionJob → Result CallbackBody
  unfolding known_fanout_actions
  run_one dna envelope idx job =
      if contains job.action_key known_fanout_actions
      then run_clone dna idx (clone_envelope_for_job envelope job)
      else ok (failed_body (unsupported job.action_key))

  -- what `gather` gives back for a job: its callback, or a failed one for its exception
  abbrev pub settled : Result CallbackBody → CallbackBody
  settled (ok cb) = cb
  settled (err e) = failed_body (str_append "fanout_exception: " (rt.show_exc e))

  -- the stamp on the trace of an output
  abbrev pub stamp_output : Stamp → CallbackOutputData → CallbackOutputData
  stamp_output stamp out = record out {
    trace = record out.trace {
      job_index = stamp.job_index;
      job_action_key = stamp.job_action_key;
      total_jobs = stamp.total_jobs;
    };
  }

  abbrev pub stamp_option : Stamp → Option CallbackOutputData → Option CallbackOutputData
  stamp_option stamp none = none
  stamp_option stamp (some out) = some (stamp_output stamp out)

  abbrev pub stamped : Stamp → CallbackBody → CallbackBody
  stamped stamp cb = record cb { output_data = stamp_option stamp cb.output_data }

  -- the loop over the jobs and their results, from position `idx` on
  unfoldable pub stitch : Option String → Fields → ℕ → ℕ → List SubscriptionJob → Pairs
  stitch dna envelope total idx [] = []
  stitch dna envelope total idx (j ∷ js) =
      (stamped (stamp_of j total) (settled (run_one dna envelope idx j)), some j)
      ∷ stitch dna envelope total (suc idx) js

  abbrev pub fan_out :
      Fields → List SubscriptionJob → Result (Option String) × Log → Result Pairs × Log
  fan_out envelope jobs (err e, log) = (err e, log)
  fan_out envelope jobs (ok dna, log) = (ok (stitch dna envelope (length jobs) 0 jobs), log)

  abbrev pub fan_out_over : ℕ → Fields → Log → List SubscriptionJob → Result Pairs × Log
  fan_out_over dna_tokens envelope log [] = (ok (global_failure "no valid subscription jobs"), log)
  fan_out_over dna_tokens envelope log (j ∷ js) =
      fan_out envelope (j ∷ js) (extract_brand_dna rt dna_tokens envelope log)

  abbrev pub begin_fanout : ℕ → Fields → Log → Normalized → Result Pairs × Log
  begin_fanout dna_tokens envelope log (crashed x) = (err x, log)
  begin_fanout dna_tokens envelope log (invalid m) = (ok (global_failure m), log)
  begin_fanout dna_tokens envelope log (normalized ctx ws) =
      fan_out_over dna_tokens envelope log (jobs_or_empty ctx.subscription_jobs)

  unfoldable pub reason_multi_fanout : ℕ → Fields → Log → Result Pairs × Log
  reason_multi_fanout dna_tokens envelope log =
      begin_fanout dna_tokens envelope log (rt.normalize envelope)
