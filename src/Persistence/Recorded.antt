-- ===== src/Persistence/Recorded.antt =====
-- persistence.py: what `persist_on_complete` writes when no statement fails.
use marketer.Prelude.{
  ℕ, Bool, true, false, Option, none, some, List, [], ◌∷◌, ◌≡◌, any, map, filter, if◌then◌else◌,
}
use marketer.Value.{Value, Fields, ok}
use marketer.Schemas.{CallbackBody, CallbackOutputData, Status}
use marketer.Db.{Db, Strategy, Job, BriefStatus, JobStatus}
use marketer.Db.Session.{Sess}
use marketer.Db.Repositories.{is_user, is_brief, has_code, is_active_of, set_status}
use marketer.Persistence.{PersistCtx, error_column}
use marketer.Persistence.Input.{distill_job_input}

abbrev id_of_head : List Strategy → ℕ
id_of_head [] = 0
id_of_head (r ∷ rows) = r.id

module _ (dump : CallbackBody → Value) (pctx : PersistCtx) (envelope : Fields) (latency : ℕ) where
  -- the row of `jobs` that an outcome leaves, column by column
  abbrev pub outcome_row : Bool → ℕ → ℕ → ℕ → Value → CallbackBody → Job
  outcome_row good id now strategy_id input cb = record {
    id = id;
    user_id = pctx.user_id;
    raw_brief_id = some pctx.raw_brief_id;
    strategy_id = strategy_id;
    action_code = pctx.action_code;
    input = input;
    output = some (dump cb);
    status = if good then JobStatus.done else JobStatus.failed;
    error = if good then none else some (error_column cb.error_message);
    orchestrator_agent = none;
    dispatch_status = none;
    callback_payload = some (dump cb);
    latency_ms = some latency;
    started_at = some now;
    completed_at = some now;
  }

  abbrev pub is_good : Status → Option CallbackOutputData → Bool
  is_good Status.completed (some out) = true
  is_good _ _ = false

  -- What an outcome leaves of the tables `d`: one new job in front, and the brief marked.
  pub record IsRecorded (good : Bool) (d : Db) (strategy_id : ℕ) (input : Value) (cb : CallbackBody)
      (s : Sess) : Type 0 where
    pub jobs_lem : s.db.jobs ≡ outcome_row good d.next_id d.now strategy_id input cb ∷ d.jobs
    pub briefs_lem :
        s.db.raw_briefs
        ≡ map
            (set_status pctx.raw_brief_id
              (if good then BriefStatus.done else BriefStatus.failed)
              d.now)
            d.raw_briefs
    pub strategies_lem : s.db.strategies ≡ d.strategies
    pub users_lem : s.db.users ≡ d.users
    pub catalog_lem : s.db.action_types ≡ d.action_types

  module _ (cb : CallbackBody) (d : Db) (r : Strategy) (input : Value)
      (di : distill_job_input envelope ≡ ok input)
      (act : filter (is_active_of pctx.user_id) d.strategies ≡ r ∷ [])
      (us : any (is_user pctx.user_id) d.users ≡ true)
      (br : any (is_brief pctx.raw_brief_id) d.raw_briefs ≡ true)
      (co : any (has_code pctx.action_code) d.action_types ≡ true) where
    abbrev Good : Unit {0} × Sess → Type 0
    Good x = IsRecorded true d r.id input cb x.1

    abbrev Bad : Unit {0} × Sess → Type 0
    Bad x = IsRecorded false d r.id input cb x.1
