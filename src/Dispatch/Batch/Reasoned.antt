-- ===== src/Dispatch/Batch/Reasoned.antt =====
-- main.py and reasoner.py: a batch whose language model path is the fan-out.
use marketer.Prelude.{
  ℕ, String, Bool, true, false, Option, none, some, List, [], ◌∷◌, ◌++◌, ◌≡◌, refl, ap, ◌∙◌, map,
  contains, is_empty, length,
}
use marketer.Value.{Value, Fields, Result, ok, Exc, truthy, get}
use marketer.Schemas.{Warning, CallbackBody, CallbackOutputData, Status, SubscriptionJob}
use marketer.Catalog.{overlays}
use marketer.Context.{InternalContext, normalized}
use marketer.Validator.Cta.{handles_of}
use marketer.Persistence.{PersistCtx}
use marketer.Llm.{Client}
use marketer.Reasoner.Assembly.{Runtime, jobs_or_empty}
use marketer.Reasoner.Pairing.{Matches}
use marketer.Reasoner.Multi.{Pairs}
use marketer.Reasoner.Fanout.Shared.{IsFanned, reason_multi_fanout-Matches}
use marketer.Reasoner.Fanout.BrandDna.{extract_brand_dna_answers}
use marketer.Reasoner.Multi.Aligned.{IsItem, reason_multi_answers}
use marketer.Dispatch.Delivery.{Settings, Reply}
use marketer.Dispatch.Batch.{
  Run, llm_jobs_of, or_failure, valid_of, fatal_error, any_completed, aggregate_of, aggregate,
}
use marketer.Dispatch.Batch.Flow.{jobs_of, context_account, results_of, run_multi}
use marketer.Dispatch.Batch.Posting.{run_multi_reports}
use marketer.Dispatch.Batch.Requested.{llm_envelope, model_path}

abbrev pub completed_body : CallbackBody
completed_body = record { status = Status.completed; output_data = none; error_message = none }

module _ (P : SubscriptionJob → CallbackOutputData → Type 0) where
  -- Results that stand for jobs have no fatal error, and are all stored, in the order of the jobs.
  fatal_error-Matches :
      (js : List SubscriptionJob) (rs : Pairs) → Matches P js rs → fatal_error rs ≡ none
  unfolding fatal_error
  fatal_error-Matches [] [] m = refl
  fatal_error-Matches [] (r ∷ rs) m = cc
  fatal_error-Matches (j ∷ js) [] m = cc
  fatal_error-Matches (j ∷ js) ((cb, none) ∷ rs) ((e, s, p), m) = cc
  fatal_error-Matches (j ∷ js) ((cb, some k) ∷ rs) ((e, s, p), m) = fatal_error-Matches js rs m

  valid_of-Matches :
      (js : List SubscriptionJob) (rs : Pairs) → Matches P js rs → map (λ r. r.1) (valid_of rs) ≡ js
  valid_of-Matches [] [] m = refl
  valid_of-Matches [] (r ∷ rs) m = cc
  valid_of-Matches (j ∷ js) [] m = cc
  valid_of-Matches (j ∷ js) ((cb, none) ∷ rs) ((e, s, p), m) = cc
  valid_of-Matches (j ∷ js) ((cb, some k) ∷ rs) ((e, s, p), m) =
      λ i. some_inj k j e i ∷ valid_of-Matches js rs m i
    where
      some_inj : (a b : SubscriptionJob) → some a ≡ some b → a ≡ b
      some_inj a b q = cc

  aggregate-Matches :
      (js : List SubscriptionJob) (rs : Pairs) → Matches P js rs → aggregate rs ≡ completed_body
  unfolding aggregate
  aggregate-Matches js rs m =
      ap (λ o. aggregate_of o (any_completed rs)) (fatal_error-Matches js rs m)

-- Results that cannot fail the batch, one for each of the jobs.
abbrev pub Stands : List SubscriptionJob → Result Pairs → Type 0
Stands js r =
    (rs : Pairs) × (r ≡ ok rs)
    × (aggregate rs ≡ completed_body)
    × (map (λ r. r.1) (valid_of rs) ≡ js)

module _ (rt : Runtime) (clients : ℕ → Client) (latencies : ℕ → ℕ)
    (latency max_tokens dna_tokens : ℕ) where
  model_path-Stands :
      (fanout : Bool) (envelope : Fields) (jobs : List SubscriptionJob) (ctx : InternalContext)
      (ws : List Warning) (j : SubscriptionJob) (js : List SubscriptionJob)
      → rt.normalize (llm_envelope envelope jobs) ≡ normalized ctx ws
      → jobs_or_empty ctx.subscription_jobs ≡ j ∷ js
      → contains ctx.action_code overlays ≡ true
      → ((name u : String)
          → contains
              (rt.language.lower u)
              (map rt.language.lower (handles_of ctx.available_channels name))
            ≡ true
          → (p : String × String) × (rt.urlparse u ≡ ok p))
      → Stands
          (j ∷ js)
          (model_path fanout rt clients latencies latency max_tokens dna_tokens envelope jobs)
  unfolding model_path
  model_path-Stands true envelope jobs ctx ws j js h k o parses =
      let (dna, log, e) =
        extract_brand_dna_answers rt dna_tokens (llm_envelope envelope jobs) [] ctx ws h in
      let (rs, made, m) =
        reason_multi_fanout-Matches rt max_tokens clients latencies dna_tokens
          (llm_envelope envelope jobs) ctx ws j js dna log h k e in
      let P =
        IsFanned rt max_tokens clients latencies dna (llm_envelope envelope jobs)
          (length (j ∷ js)) in
      (rs, ap (λ r. r.0) made, aggregate-Matches P (j ∷ js) rs m, valid_of-Matches P (j ∷ js) rs m)
  model_path-Stands false envelope jobs ctx ws j js h k o parses =
      let ((rs, made, m), small) =
        reason_multi_answers rt ctx (length (j ∷ js)) parses max_tokens (llm_envelope envelope jobs)
          ws latency j js h k refl o in
      let P = IsItem rt ctx (length (j ∷ js)) in
      (rs, made, aggregate-Matches P (j ∷ js) rs m, valid_of-Matches P (j ∷ js) rs m)

  -- A batch with a callback_url, with LLM jobs, and whose jobs and context can be read, reports
  -- COMPLETED in its one callback, and has a result to store for each job that the model path reads, in
  -- their order, whatever the model answers and whether it is asked once or once per job: if the
  -- envelope for the model path normalizes to at least one job and an action with an overlay, and the
  -- parser of URLs answers for the handles of its channels. So it also does when every job has FAILED.
  pub run_multi_completes :
      (settings : Settings) (configured : Bool) (dump : CallbackBody → Value) (text : Exc → String)
      (orch agentic : ℕ → ℕ → Reply) (fanout : Bool) (lower : String → String) (show : ℕ → String)
      (envelope : Fields) (pctx : Option PersistCtx) (taken : ℕ) (server : ℕ → Reply) (w : Run)
      (jobs : List SubscriptionJob) (ws : List Warning) (account : Value) (ctx : InternalContext)
      (ws' : List Warning) (j : SubscriptionJob) (js : List SubscriptionJob)
      → jobs_of lower show envelope ≡ ok (jobs, ws)
      → truthy (get "callback_url" envelope) ≡ true
      → context_account envelope ≡ ok account
      → is_empty (llm_jobs_of jobs) ≡ false
      → rt.normalize (llm_envelope envelope (llm_jobs_of jobs)) ≡ normalized ctx ws'
      → jobs_or_empty ctx.subscription_jobs ≡ j ∷ js
      → contains ctx.action_code overlays ≡ true
      → ((name u : String)
          → contains
              (rt.language.lower u)
              (map rt.language.lower (handles_of ctx.available_channels name))
            ≡ true
          → (p : String × String) × (rt.urlparse u ≡ ok p))
      → ((run_multi settings configured dump text
            (model_path fanout rt clients latencies latency max_tokens dna_tokens envelope)
            orch
            agentic
            lower
            show
            envelope
            pctx
            taken
            server
            w).1.sent
          ≡ w.sent ++ completed_body ∷ [])
        × (map
              (λ r. r.1)
              (valid_of (
                results_of settings configured dump text
                  (model_path fanout rt clients latencies latency max_tokens dna_tokens envelope)
                  orch
                  agentic
                  jobs))
            ≡ j ∷ js)
  run_multi_completes settings configured dump text orch agentic fanout lower show envelope pctx
        taken server w jobs ws account ctx ws' j js h url acc some_llm n k o parses =
      let (rs, made, agg, stored) =
        model_path-Stands fanout envelope (llm_jobs_of jobs) ctx ws' j js n k o parses in
      let taken_results = results_lem jobs rs some_llm made in
      (
        run_multi_reports settings configured dump text
              (model_path fanout rt clients latencies latency max_tokens dna_tokens envelope) orch
              agentic lower show envelope pctx taken server w jobs ws account h url acc
            ∙ ap (λ r. w.sent ++ aggregate r ∷ []) taken_results
            ∙ ap (λ b. w.sent ++ b ∷ []) agg,
        ap (λ r. map (λ x. x.1) (valid_of r)) taken_results ∙ stored,
      )
    where
      results_lem :
          (jobs : List SubscriptionJob) (rs : Pairs)
          → is_empty (llm_jobs_of jobs) ≡ false
          → model_path fanout rt clients latencies latency max_tokens dna_tokens envelope
              (llm_jobs_of jobs)
            ≡ ok rs
          → results_of settings configured dump text
              (model_path fanout rt clients latencies latency max_tokens dna_tokens envelope)
              orch
              agentic
              jobs
            ≡ rs
      results_lem jobs rs e made = rw e (ap (or_failure text) made)
