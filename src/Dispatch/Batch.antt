-- ===== src/Dispatch/Batch.antt =====
-- main.py: `_run_multi_and_callback`, the background task of a subscription_strategy. The results of
-- the language model path (`reason_multi_fanout` or `reason_multi`) are a parameter.
pub mod Flow
pub mod Requested
pub mod Reasoned
pub mod Passthrough
pub mod Posting
pub mod Unmarked
pub mod Verdict
use marketer.Prelude.{
  ℕ, String, Bool, true, false, ◌&&◌, ◌||◌, not, Option, none, some, List, [], ◌∷◌, ◌++◌, ◌==◌, eqb,
  any, filter, is_empty, if◌then◌else◌,
}
use marketer.Value.{
  Value, null, int, ℤ, pos, str, obj, Fields, end, field, Result, ok, err, Exc, runtime_error,
  truthy, get, get_attr, or_empty, ◌>>=◌,
}
use marketer.Schemas.{
  CallbackBody, CallbackOutputData, SubscriptionJob, Status, is_completed, is_failed, failed_body,
}
use marketer.Db.{Strategy, Job, JobStatus, BriefStatus}
use marketer.Db.Session.{Sess, Session, close_scope, session_scope, or_else, swallow}
use marketer.Db.Repositories.{
  get_active_strategy, ensure_strategy, NewJob, create_job, mark_raw_brief,
}
use marketer.Persistence.{
  PersistCtx, Outcomes, Created, bi_of, after, persist_on_complete_multi, set_dispatch_status,
}
use marketer.Normalizer.Jobs.{is_llm_key, extract_subscription_jobs}
use marketer.Dispatch.Delivery.{
  Settings, Reply, Outcome, delivered, failed, raised, patch_callback, post_orch_job,
  post_dispatcher,
}
use marketer.Dispatch.Background.{account_of, escaped}

abbrev pub Results : Type 0
Results = List (CallbackBody × Option SubscriptionJob)

-- The database, the bodies handed to `_patch_callback`, and the identifiers of the jobs handed to
-- `_post_orch_job` and to `_post_dispatcher`, in order.
pub record Run : Type 0 where
  pub sess : Sess
  pub sent : List CallbackBody
  pub posted : List ℕ
  pub dispatched : List ℕ

abbrev pub llm_jobs_of : List SubscriptionJob → List SubscriptionJob
llm_jobs_of jobs = filter (λ j. is_llm_key j.action_key) jobs

abbrev pub passthrough_of : List SubscriptionJob → List SubscriptionJob
passthrough_of jobs = filter (λ j. not (is_llm_key j.action_key)) jobs

-- `except Exception`: one failed result without a job
abbrev pub or_failure : (Exc → String) → Result Results → Results
or_failure text (ok r) = r
or_failure text (err e) = (failed_body (text e), none) ∷ []

abbrev pub valid_of : Results → Outcomes
valid_of [] = []
valid_of ((cb, some job) ∷ rest) = (cb, job) ∷ valid_of rest
valid_of ((cb, none) ∷ rest) = valid_of rest

unfoldable pub first_brand : Results → Option Value
first_brand [] = none
first_brand ((cb, _) ∷ rest) =
    let later = first_brand rest in
    elim (bi_of cb cb.status cb.output_data) [ some bi ↦ some bi | none ↦ later ]

abbrev brand_or_new : Option Value → Value
brand_or_new none = obj end
brand_or_new (some bi) = bi

-- the strategy of the passthrough jobs
abbrev pub passthrough_strategy : ℕ → Results → Option Strategy → Session Strategy
passthrough_strategy user_id results (some r) s = (ok r, s)
passthrough_strategy user_id results none s =
    ensure_strategy user_id (brand_or_new (first_brand results)) s

abbrev opt_value : Option String → Value
opt_value none = null
opt_value (some s) = str s

abbrev pub passthrough_job : PersistCtx → ℕ → Value → SubscriptionJob → NewJob
passthrough_job pctx strategy_id account job = record {
  user_id = pctx.user_id;
  raw_brief_id = some pctx.raw_brief_id;
  strategy_id = strategy_id;
  action_code = job.action_key;
  job_input = obj (
      field "action_code" (str job.action_key) (
        field "slug" (opt_value job.slug) (
          field "product_uuid" (opt_value job.product_uuid) (
            field "orchestrator_agent" (opt_value job.orchestrator_agent) (
              field "job_index" (int (pos job.index))
                (field "description" (opt_value job.description) end))))));
  output = none;
  status = JobStatus.done;
  latency_ms = some 0;
  error = none;
  orchestrator_agent = job.orchestrator_agent;
  dispatch_status = some "pending";
  callback_payload =
      some (
        obj (field "product_uuid" (opt_value job.product_uuid) (field "account_uuid" account end)));
}

-- The loop over the passthrough jobs: the list that it fills stands beside the result.
unfoldable pub create_passthrough :
    PersistCtx
    → ℕ
    → Value
    → List SubscriptionJob
    → Created
    → Sess
    → Created × (Result (Unit {0}) × Sess)
create_passthrough pctx strategy_id account [] log s = (log, (ok tt, s))
create_passthrough pctx strategy_id account (job ∷ rest) log s =
    after log (create_job (passthrough_job pctx strategy_id account job) s)
      λ row s'. create_passthrough pctx strategy_id account rest (log ++ (row.id, job) ∷ []) s'

-- `or ""`
abbrev or_blank : Value → Value
or_blank v = if truthy v then v else str ""

abbrev pub under_strategy :
    PersistCtx
    → Result Value
    → List SubscriptionJob
    → Result Strategy × Sess
    → Created × (Result (Unit {0}) × Sess)
under_strategy pctx (ok account) jobs (ok r, s) =
    create_passthrough pctx r.id (or_blank account) jobs [] s
under_strategy pctx (err e) jobs (ok r, s) = ([], (err e, s))
under_strategy pctx account jobs (err e, s) = ([], (err e, s))

abbrev then_strategy : ℕ → Results → Result (Option Strategy) × Sess → Result Strategy × Sess
then_strategy user_id results (ok o, s) = passthrough_strategy user_id results o s
then_strategy user_id results (err e, s) = (err e, s)

abbrev pub closed : Sess → Created × (Result (Unit {0}) × Sess) → Created × Sess
closed s (log, r) = (log, (or_else tt (close_scope s.db r)).1)

unfoldable pub persist_passthrough :
    Bool → PersistCtx → Fields → Results → List SubscriptionJob → Sess → Created × Sess
persist_passthrough configured pctx envelope results jobs s =
    if configured && not (is_empty jobs)
    then closed s (
        under_strategy pctx (account_of envelope) jobs
          (then_strategy pctx.user_id results (get_active_strategy pctx.user_id s)))
    else ([], s)

-- what is written of the results of the language model path
unfoldable pub persist_results :
    (CallbackBody → Value)
    → Bool
    → PersistCtx
    → Fields
    → ℕ
    → Results
    → List SubscriptionJob
    → Sess
    → Created × Sess
persist_results dump configured pctx envelope latency results llm_jobs s =
    let valid = valid_of results in
    if not (is_empty valid)
    then persist_on_complete_multi dump pctx envelope latency configured valid s
    else if not (is_empty llm_jobs) && configured
    then (
      [],
      (swallow tt (session_scope (mark_raw_brief pctx.raw_brief_id BriefStatus.failed)) s).1,
    )
    else ([], s)

-- `fatal_error`: that of the first failed result without a job
unfoldable pub fatal_error : Results → Option String
fatal_error [] = none
fatal_error ((cb, some job) ∷ rest) = fatal_error rest
fatal_error ((cb, none) ∷ rest) =
    let later = fatal_error rest in if is_failed cb.status then cb.error_message else later

abbrev pub any_completed : Results → Bool
any_completed results = any (λ r. is_completed r.0.status) results

abbrev pub aggregate_of : Option String → Bool → CallbackBody
aggregate_of (some m) false = failed_body m
aggregate_of _ _ = record { status = Status.completed; output_data = none; error_message = none }

-- the single callback of the batch
unfoldable pub aggregate : Results → CallbackBody
aggregate results = aggregate_of (fatal_error results) (any_completed results)

-- `job_index_to_db_id.get(index)`: a later row wins
unfoldable pub db_id_of : Created → ℕ → Option ℕ
db_id_of [] index = none
db_id_of ((id, job) ∷ rest) index =
    let later = db_id_of rest index in
    elim later [ some i ↦ some i | none ↦ if eqb job.index index then some id else none ]

abbrev pub has_output : CallbackBody → Option CallbackOutputData → Bool
has_output cb none = false
has_output cb (some out) = is_completed cb.status

abbrev verdict_text : Outcome → String
verdict_text delivered = "ok"
verdict_text _ = "failed"

abbrev pub set_status : Bool → ℕ → String → Run → Run
set_status configured id st w = record w { sess = (set_dispatch_status configured id st w.sess).1 }

-- what follows a post: its status, or the exception that escapes
abbrev pub settle : Bool → ℕ → Outcome → Run → Result (Unit {0}) × Run
settle configured id raised w = (err runtime_error, w)
settle configured id delivered w = (ok tt, set_status configured id "ok" w)
settle configured id failed w = (ok tt, set_status configured id "failed" w)

-- one result: a failed one is marked, one that was stored is posted
abbrev pub post_one :
    Settings → Bool → (ℕ → ℕ → Reply) → Bool → Option ℕ → Run → Result (Unit {0}) × Run
post_one settings configured orch good none w = (ok tt, w)
post_one settings configured orch false (some id) w = (ok tt, set_status configured id "failed" w)
post_one settings configured orch true (some id) w =
    settle configured id (post_orch_job settings (orch id)).1
      (record w { posted = w.posted ++ id ∷ [] })

abbrev pub next :
    Result (Unit {0}) × Run → (Run → Result (Unit {0}) × Run) → Result (Unit {0}) × Run
next (ok _, w) k = k w
next (err e, w) k = (err e, w)

unfoldable pub post_results :
    Settings → Bool → (ℕ → ℕ → Reply) → Created → Results → Run → Result (Unit {0}) × Run
post_results settings configured orch created [] w = (ok tt, w)
post_results settings configured orch created ((cb, none) ∷ rest) w =
    post_results settings configured orch created rest w
post_results settings configured orch created ((cb, some job) ∷ rest) w =
    next
      (post_one settings configured orch (has_output cb cb.output_data) (db_id_of created job.index)
        w)
      (post_results settings configured orch created rest)

-- the loop over the passthrough jobs
unfoldable pub dispatch_passthrough :
    Settings → Bool → (ℕ → ℕ → Reply) → Created → Run → Result (Unit {0}) × Run
dispatch_passthrough settings configured agentic [] w = (ok tt, w)
dispatch_passthrough settings configured agentic ((id, job) ∷ rest) w =
    next
      (settle configured id (post_dispatcher settings (agentic id)).1
        (record w { dispatched = w.dispatched ++ id ∷ [] }))
      (dispatch_passthrough settings configured agentic rest)
