-- ===== src/Persistence.antt =====
-- persistence.py: the hooks that write a task to the database. `configured` is `is_configured()`;
-- `dump` is pydantic's `model_dump(mode="json")`.
pub mod Input
pub mod Invariant
pub mod Outcome
pub mod Recorded
pub mod Retry
pub mod Rollback
use marketer.Prelude.{
  ℕ, String, Bool, true, false, ◌||◌, Option, none, some, List, [], ◌∷◌, ◌++◌, ◌==◌, if◌then◌else◌,
}
use marketer.Value.{Value, null, int, ℤ, pos, str, obj, Fields, end, field, Result, ok, err, Exc}
use marketer.Schemas.{
  CallbackBody, CallbackOutputData, SubscriptionJob, Status, completed, is_completed,
}
use marketer.Db.{BriefStatus, Strategy, Job, JobStatus, Db}
use marketer.Db.Session.{
  Sess, Session, pure, ◌>>=◌, ◌>>◌, close_scope, session_scope, or_else, swallow,
}
use marketer.Db.Repositories.{
  upsert_user, NewBrief, insert_raw_brief, get_action_type, get_active_strategy, ensure_strategy,
  NewJob, create_job, update_dispatch_status, mark_raw_brief, update_raw_brief_user_profile,
}
use Input.{distill_job_input, read_ingest}

pub record PersistCtx : Type 0 where
  pub user_id : ℕ
  pub raw_brief_id : ℕ
  pub action_code : String

abbrev pub lift : {A : Type 0} → Result A → Session A
lift r s = (r, s)

-- the body of the transaction of `persist_on_ingest`
abbrev pub known_action : {A : Type 0} → NewBrief → Option A → Session (Option PersistCtx)
known_action b none = pure none
known_action b (some action) = do
  user ← upsert_user b.user_id none
  brief ← insert_raw_brief b
  pure (some (record { user_id = b.user_id; raw_brief_id = brief.id; action_code = b.action_code }))

unfoldable pub ingest_rows : NewBrief → Session (Option PersistCtx)
ingest_rows b = do action ← get_action_type b.action_code; known_action b action

abbrev pub ingest_read : Result (Option NewBrief) → Session (Option PersistCtx)
ingest_read (err e) s = (err e, s)
ingest_read (ok none) s = (ok none, s)
ingest_read (ok (some b)) s =
    let (c, s') = swallow none (session_scope (ingest_rows b)) s in (ok c, s')

-- What is raised before the `try` goes to the caller.
unfoldable pub persist_on_ingest : Bool → (String → Option ℕ) → Fields → Session (Option PersistCtx)
persist_on_ingest configured uuid envelope s =
    if configured then ingest_read (read_ingest uuid envelope) s else (ok none, s)

unfoldable pub persist_user_profile : Bool → ℕ → Value → Sess → Unit {0} × Sess
persist_user_profile configured raw_brief_id stored s =
    if configured
    then swallow tt (session_scope (update_raw_brief_user_profile raw_brief_id stored)) s
    else (tt, s)

-- `{"message": callback.error_message or "unknown_error"}`
abbrev pub error_column : Option String → Value
error_column none = obj (field "message" (str "unknown_error") end)
error_column (some m) = obj (field "message" (str (if m == "" then "unknown_error" else m)) end)

module _ (dump : CallbackBody → Value) (pctx : PersistCtx) (envelope : Fields)
    (latency_ms : ℕ) where
  abbrev pub finished_job : CallbackBody → JobStatus → Option Value → ℕ → Value → NewJob
  finished_job cb st error strategy_id input = record {
    user_id = pctx.user_id;
    raw_brief_id = some pctx.raw_brief_id;
    strategy_id = strategy_id;
    action_code = pctx.action_code;
    job_input = input;
    output = some (dump cb);
    status = st;
    latency_ms = some latency_ms;
    error = error;
    orchestrator_agent = none;
    dispatch_status = none;
    callback_payload = some (dump cb);
  }

  abbrev pub completed_rows : CallbackBody → CallbackOutputData → Session (Unit {0})
  completed_rows cb out = do
    strategy ← ensure_strategy pctx.user_id out.enrichment.brand_intelligence
    input ← lift (distill_job_input envelope)
    job ← create_job (finished_job cb JobStatus.done none strategy.id input)
    mark_raw_brief pctx.raw_brief_id BriefStatus.done

  abbrev pub failed_job : CallbackBody → Option Strategy → Session (Unit {0})
  failed_job cb none = pure tt
  failed_job cb (some active) = do
    input ← lift (distill_job_input envelope)
    job ←
        create_job
          (finished_job cb JobStatus.failed (some (error_column cb.error_message)) active.id input)
    pure tt

  abbrev pub failed_rows : CallbackBody → Session (Unit {0})
  failed_rows cb = do
    active ← get_active_strategy pctx.user_id
    failed_job cb active
    mark_raw_brief pctx.raw_brief_id BriefStatus.failed

  abbrev pub outcome_rows : CallbackBody → Status → Option CallbackOutputData → Session (Unit {0})
  outcome_rows cb completed (some out) = completed_rows cb out
  outcome_rows cb _ _ = failed_rows cb

  unfoldable pub persist_on_complete : Bool → CallbackBody → Sess → Unit {0} × Sess
  persist_on_complete configured cb s =
      if configured
      then swallow tt (session_scope (outcome_rows cb cb.status cb.output_data)) s
      else (tt, s)

-- A list that a transaction fills outlives its rollback: it stands beside the result.
abbrev pub Created : Type 0
Created = List (ℕ × SubscriptionJob)

abbrev pub Outcomes : Type 0
Outcomes = List (CallbackBody × SubscriptionJob)

-- the brand intelligence of the first result that is COMPLETED with output
abbrev pub bi_of : CallbackBody → Status → Option CallbackOutputData → Option Value
bi_of cb completed (some out) = some out.enrichment.brand_intelligence
bi_of cb _ _ = none

unfoldable pub first_bi : Outcomes → Option Value
first_bi [] = none
first_bi ((cb, _) ∷ rest) =
    let later = first_bi rest in
    elim (bi_of cb cb.status cb.output_data) [ some bi ↦ some bi | none ↦ later ]

abbrev opt_str : Option String → Value
opt_str none = null
opt_str (some s) = str s

-- `job_input["job_index"] = ...` and the two writes after it; `user_request` is there already.
abbrev set_key : String → Value → Fields → Fields
set_key k v end = field k v end
set_key k v (field j w fs) = if j == k then field j v fs else field j w (set_key k v fs)

abbrev pub sub_job_input : SubscriptionJob → Value → Value
sub_job_input job (obj fs) = obj (
    set_key "user_request" (opt_str job.description) (
      set_key "job_action_key" (str job.action_key) (set_key "job_index" (int (pos job.index)) fs)))
sub_job_input job v = v

-- `strategy` of `persist_on_complete_multi`
abbrev pub multi_strategy : ℕ → Option Value → Session (Option Strategy)
multi_strategy user_id (some bi) = do r ← ensure_strategy user_id bi; pure (some r)
multi_strategy user_id none = get_active_strategy user_id

abbrev pub after :
    {A : Type 0}
    → Created
    → Result Job × Sess
    → (Job → Sess → Created × (Result A × Sess))
    → Created × (Result A × Sess)
after log (ok row, s) k = k row s
after log (err e, s) k = (log, (err e, s))

module _ (dump : CallbackBody → Value) (pctx : PersistCtx) (envelope : Fields)
    (latency_ms : ℕ) where
  abbrev pub sub_job : ℕ → CallbackBody → SubscriptionJob → Value → NewJob
  sub_job strategy_id cb job input = record {
    user_id = pctx.user_id;
    raw_brief_id = some pctx.raw_brief_id;
    strategy_id = strategy_id;
    action_code = job.action_key;
    job_input = sub_job_input job input;
    output = some (dump cb);
    status = if is_completed cb.status then JobStatus.done else JobStatus.failed;
    latency_ms = some latency_ms;
    error = if is_completed cb.status then none else some (error_column cb.error_message);
    orchestrator_agent = job.orchestrator_agent;
    dispatch_status = some (if is_completed cb.status then "pending" else "failed");
    callback_payload = some (dump cb);
  }

  abbrev pub create_sub_job : ℕ → CallbackBody → SubscriptionJob → Session Job
  create_sub_job strategy_id cb job = do
    input ← lift (distill_job_input envelope)
    create_job (sub_job strategy_id cb job input)

  -- the loop over the results; it gives `any_completed`
  unfoldable pub create_sub_jobs :
      ℕ → Outcomes → Bool → Created → Sess → Created × (Result Bool × Sess)
  create_sub_jobs strategy_id [] any_completed log s = (log, (ok any_completed, s))
  create_sub_jobs strategy_id ((cb, job) ∷ rest) any_completed log s =
      after log (create_sub_job strategy_id cb job s) λ row s'.
        create_sub_jobs strategy_id rest (is_completed cb.status || any_completed)
          (log ++ (row.id, job) ∷ []) s'

  -- `if strategy is None: break`
  abbrev pub jobs_under : Option Strategy → Outcomes → Sess → Created × (Result Bool × Sess)
  jobs_under none results s = ([], (ok false, s))
  jobs_under (some r) results s = create_sub_jobs r.id results false [] s

  abbrev pub mark_final : Result Bool × Sess → Result (Unit {0}) × Sess
  mark_final (ok any_completed, s) =
      mark_raw_brief pctx.raw_brief_id
        (if any_completed then BriefStatus.done else BriefStatus.failed) s
  mark_final (err e, s) = (err e, s)

  abbrev pub multi_rows :
      Outcomes → Result (Option Strategy) × Sess → Created × (Result (Unit {0}) × Sess)
  multi_rows results (ok strategy, s) =
      let (log, r) = jobs_under strategy results s in (log, mark_final r)
  multi_rows results (err e, s) = ([], (err e, s))

  unfoldable pub persist_on_complete_multi : Bool → Outcomes → Sess → Created × Sess
  persist_on_complete_multi configured results s =
      if configured
      then (let (log, r) = multi_rows results (multi_strategy pctx.user_id (first_bi results) s) in
          (log, (or_else tt (close_scope s.db r)).1))
      else ([], s)

unfoldable pub set_dispatch_status : Bool → ℕ → String → Sess → Unit {0} × Sess
set_dispatch_status configured job_id st s =
    if configured then swallow tt (session_scope (update_dispatch_status job_id st)) s else (tt, s)
