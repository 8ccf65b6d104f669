-- ===== src/Dispatch/Batch/Flow.antt =====
-- main.py: `_run_multi_and_callback` from its first line to its last.
use marketer.Prelude.{
  ℕ, String, Bool, true, false, Option, none, some, List, [], ◌∷◌, ◌++◌, is_empty, if◌then◌else◌,
}
use marketer.Value.{
  Value, obj, Fields, Result, ok, err, Exc, attribute_error, truthy, get, get_attr, or_empty, ◌>>=◌,
}
use marketer.Schemas.{Warning, CallbackBody, SubscriptionJob}
use marketer.Db.Session.{Sess}
use marketer.Persistence.{PersistCtx, Created}
use marketer.Normalizer.Jobs.{extract_subscription_jobs}
use marketer.Dispatch.Delivery.{Settings, Reply, patch_callback}
use marketer.Dispatch.Background.{escaped}
use marketer.Dispatch.Batch.{
  Results, Run, llm_jobs_of, passthrough_of, or_failure, persist_passthrough, persist_results,
  aggregate, next, post_results, dispatch_passthrough,
}

abbrev pub jobs_in :
    (String → String) → (ℕ → String) → Value → Result (List SubscriptionJob × List Warning)
jobs_in lower show (obj request) = extract_subscription_jobs lower show request
jobs_in lower show _ = err attribute_error

-- the jobs of an envelope: what is not a dictionary has no `get`
unfoldable pub jobs_of :
    (String → String) → (ℕ → String) → Fields → Result (List SubscriptionJob × List Warning)
jobs_of lower show envelope =
    get_attr "client_request" (or_empty (get "payload" envelope))
    >>= (λ request. jobs_in lower show (or_empty request))

-- `account_uuid` of the context that goes out
unfoldable pub context_account : Fields → Result Value
context_account envelope =
    get_attr "context" (or_empty (get "payload" envelope))
    >>= (λ c. get_attr "account_uuid" (or_empty c))

abbrev pub unchecked : {A : Type 0} → Result A → Result (Unit {0})
unchecked (ok a) = ok tt
unchecked (err e) = err e

module _ (settings : Settings) (configured : Bool) (dump : CallbackBody → Value)
    (text : Exc → String) (llm : List SubscriptionJob → Result Results)
    (orch agentic : ℕ → ℕ → Reply) where
  -- the language model path is taken only for jobs that want it
  abbrev pub results_of : List SubscriptionJob → Results
  results_of jobs =
      if is_empty (llm_jobs_of jobs) then [] else or_failure text (llm (llm_jobs_of jobs))

  abbrev pub stored_results :
      Option PersistCtx → Fields → ℕ → List SubscriptionJob → Sess → Created × Sess
  stored_results none envelope latency jobs s = ([], s)
  stored_results (some pctx) envelope latency jobs s =
      persist_results dump configured pctx envelope latency (results_of jobs) (llm_jobs_of jobs) s

  abbrev pub stored_passthrough :
      Option PersistCtx → Fields → List SubscriptionJob → Sess → Created × Sess
  stored_passthrough none envelope jobs s = ([], s)
  stored_passthrough (some pctx) envelope jobs s =
      persist_passthrough configured pctx envelope (results_of jobs) (passthrough_of jobs) s

  abbrev pub report_batch : Bool → (ℕ → Reply) → CallbackBody → Run → Result (Unit {0}) × Run
  report_batch true server body w =
      (escaped (patch_callback settings server).1, record w { sent = w.sent ++ body ∷ [] })
  report_batch false server body w = (ok tt, w)

  abbrev pub deliver :
      Fields
      → (ℕ → Reply)
      → List SubscriptionJob
      → Created
      → Created
      → Run
      → Result (Unit {0}) × Run
  deliver envelope server jobs created passed w =
      next (unchecked (context_account envelope), w)
        λ w1.
          next
            (report_batch (truthy (get "callback_url" envelope)) server
              (aggregate (results_of jobs)) w1)
            λ w2.
              next (post_results settings configured orch created (results_of jobs) w2)
                (dispatch_passthrough settings configured agentic passed)

  abbrev pub run_jobs :
      Fields
      → Option PersistCtx
      → ℕ
      → (ℕ → Reply)
      → Result (List SubscriptionJob × List Warning)
      → Run
      → Result (Unit {0}) × Run
  run_jobs envelope pctx latency server (err e) w = (err e, w)
  run_jobs envelope pctx latency server (ok (jobs, ws)) w =
      let (created, s1) = stored_results pctx envelope latency jobs w.sess in
      let (passed, s2) = stored_passthrough pctx envelope jobs s1 in
      deliver envelope server jobs created passed (record w { sess = s2 })

  unfoldable pub run_multi :
      (String → String)
      → (ℕ → String)
      → Fields
      → Option PersistCtx
      → ℕ
      → (ℕ → Reply)
      → Run
      → Result (Unit {0}) × Run
  run_multi lower show envelope pctx latency server w =
      run_jobs envelope pctx latency server (jobs_of lower show envelope) w
