-- ===== src/Persistence/Invariant.antt =====
-- persistence.py: the hooks and the consistency of the tables.
use marketer.Prelude.{
  ℕ, String, Bool, true, false, ◌||◌, Option, none, some, [], ◌∷◌, ◌++◌, ◌≡◌, refl,
}
use marketer.Value.{Value, Fields, Result, ok, err}
use marketer.Schemas.{
  CallbackBody, CallbackOutputData, SubscriptionJob, Status, completed, in_progress, failed,
  is_completed,
}
use marketer.Db.{Db, Strategy, Job, BriefStatus}
use marketer.Db.Session.{Sess}
use marketer.Db.Triples.{
  Triple, Triple-from, Triple-weaken, Triple-pure, Triple-bind, Post, swallow_keeps,
  close_scope_keeps, or_else_keeps,
}
use marketer.Db.Consistent.{
  IsConsistent, Active, owns, get_active_strategy_keeps, ensure_strategy_keeps, create_job_keeps,
  mark_raw_brief_keeps,
}
use marketer.Persistence.{
  PersistCtx, persist_on_ingest, ingest_read, persist_on_complete, outcome_rows, completed_rows,
  failed_rows, failed_job, lift, Outcomes, Created, first_bi, multi_strategy, create_sub_job,
  create_sub_jobs, jobs_under, mark_final, multi_rows, persist_on_complete_multi, after,
}
use marketer.Persistence.Input.{distill_job_input, read_ingest}
use marketer.Persistence.Retry.{ingest_rows_keeps, Ingested}

Triple-lift : {A : Type 0} {P : Db → Type 0} (r : Result A) → Triple P (lift r) (λ _. P)
Triple-lift (ok a) = record { at = λ s p. p }
Triple-lift (err e) = record { at = λ s p. tt }

module _ (dump : CallbackBody → Value) (pctx : PersistCtx) (envelope : Fields) (latency : ℕ) where
  completed_rows_keeps :
      (cb : CallbackBody) (out : CallbackOutputData)
      → Triple IsConsistent (completed_rows dump pctx envelope latency cb out) (λ _. IsConsistent)
  completed_rows_keeps cb out =
      Triple-bind _ _ (ensure_strategy_keeps pctx.user_id out.enrichment.brand_intelligence) λ r.
        Triple-bind _ _ (Triple-lift (distill_job_input envelope)) λ input.
          Triple-bind _ _ (create_job_keeps _) λ job.
            Triple-weaken _ (mark_raw_brief_keeps pctx.raw_brief_id BriefStatus.done) (λ d p. p.0)
              (λ a d q. q)

  failed_job_keeps :
      (cb : CallbackBody) (o : Option Strategy)
      → Triple
          (λ d. IsConsistent d × Active pctx.user_id o d)
          (failed_job dump pctx envelope latency cb o)
          (λ _. IsConsistent)
  failed_job_keeps cb none = Triple-pure tt λ d p. p.0
  failed_job_keeps cb (some r) =
      Triple-bind _ _ (Triple-lift (distill_job_input envelope))
        λ input. Triple-bind _ _ (create_job_keeps _) λ job. Triple-pure tt λ d p. p.0

  failed_rows_keeps :
      (cb : CallbackBody)
      → Triple IsConsistent (failed_rows dump pctx envelope latency cb) (λ _. IsConsistent)
  failed_rows_keeps cb = Triple-bind _ _ (get_active_strategy_keeps pctx.user_id) λ o.
      Triple-bind _ _ (failed_job_keeps cb o)
        λ _. mark_raw_brief_keeps pctx.raw_brief_id BriefStatus.failed

  outcome_rows_keeps :
      (cb : CallbackBody) (st : Status) (o : Option CallbackOutputData)
      → Triple IsConsistent (outcome_rows dump pctx envelope latency cb st o) (λ _. IsConsistent)
  outcome_rows_keeps cb completed (some out) = completed_rows_keeps cb out
  outcome_rows_keeps cb completed none = failed_rows_keeps cb
  outcome_rows_keeps cb in_progress o = failed_rows_keeps cb
  outcome_rows_keeps cb failed o = failed_rows_keeps cb

  complete_keeps :
      (configured : Bool) (cb : CallbackBody) (s : Sess)
      → IsConsistent s.db
      → IsConsistent (persist_on_complete dump pctx envelope latency configured cb s).1.db
  unfolding persist_on_complete
  complete_keeps true cb s c =
      swallow_keeps IsConsistent tt _ s c (outcome_rows_keeps cb cb.status cb.output_data)
  complete_keeps false cb s c = c

  abbrev Under : ℕ → Db → Type 0
  Under i d = IsConsistent d × (owns pctx.user_id i d ≡ true)

  create_sub_job_keeps :
      (i : ℕ) (cb : CallbackBody) (job : SubscriptionJob)
      → Triple (Under i) (create_sub_job dump pctx envelope latency i cb job) (λ _. Under i)
  create_sub_job_keeps i cb job =
      Triple-bind _ _ (Triple-lift (distill_job_input envelope)) λ input. create_job_keeps _

  create_sub_jobs_keeps :
      (i : ℕ) (results : Outcomes) (any : Bool) (log : Created) (s : Sess)
      → Under i s.db
      → Post (λ _. Under i) (create_sub_jobs dump pctx envelope latency i results any log s).1
  unfolding create_sub_jobs
  create_sub_jobs_keeps i [] any log s u = u
  create_sub_jobs_keeps i ((cb, job) ∷ rest) any log s u =
      at_row (create_sub_job dump pctx envelope latency i cb job s)
        ((create_sub_job_keeps i cb job).at s u)
        (λ b l s' u'. create_sub_jobs_keeps i rest b l s' u')
    where
      at_row :
          (r : Result Job × Sess)
          → Post (λ _. Under i) r
          → ((b : Bool) (l : Created) (s' : Sess)
              → Under i s'.db
              → Post (λ _. Under i) (create_sub_jobs dump pctx envelope latency i rest b l s').1)
          → Post
              (λ _. Under i)
              (after log r λ row s'.
                create_sub_jobs dump pctx envelope latency i rest
                  (is_completed cb.status || any)
                  (log ++ (row.id, job) ∷ [])
                  s').1
      at_row (ok row, s') q ih = ih _ _ s' q
      at_row (err e, s') q ih = tt

  multi_strategy_keeps :
      (bi : Option Value)
      → Triple IsConsistent
          (multi_strategy pctx.user_id bi)
          (λ o d. IsConsistent d × Active pctx.user_id o d)
  multi_strategy_keeps (some bi) =
      Triple-bind _ _ (ensure_strategy_keeps pctx.user_id bi) λ r. Triple-pure (some r) λ d p. p
  multi_strategy_keeps none = get_active_strategy_keeps pctx.user_id

  jobs_under_keeps :
      (o : Option Strategy) (results : Outcomes) (s : Sess)
      → IsConsistent s.db × Active pctx.user_id o s.db
      → Post (λ _. IsConsistent) (jobs_under dump pctx envelope latency o results s).1
  jobs_under_keeps none results s p = p.0
  jobs_under_keeps (some r) results s p =
      weaken (create_sub_jobs dump pctx envelope latency r.id results false [] s).1
        (create_sub_jobs_keeps r.id results false [] s p)
    where
      weaken : (x : Result Bool × Sess) → Post (λ _. Under r.id) x → Post (λ _. IsConsistent) x
      weaken (ok b, s) q = q.0
      weaken (err e, s) q = tt

  mark_final_keeps :
      (r : Result Bool × Sess)
      → Post (λ _. IsConsistent) r
      → Post (λ _. IsConsistent) (mark_final dump pctx envelope latency r)
  mark_final_keeps (ok any, s) q = (mark_raw_brief_keeps pctx.raw_brief_id _).at s q
  mark_final_keeps (err e, s) q = tt

  multi_rows_keeps :
      (results : Outcomes) (r : Result (Option Strategy) × Sess)
      → Post (λ o d. IsConsistent d × Active pctx.user_id o d) r
      → Post (λ _. IsConsistent) (multi_rows dump pctx envelope latency results r).1
  multi_rows_keeps results (ok o, s) q = mark_final_keeps _ (jobs_under_keeps o results s q)
  multi_rows_keeps results (err e, s) q = tt

  multi_keeps :
      (configured : Bool) (results : Outcomes) (s : Sess)
      → IsConsistent s.db
      → IsConsistent
          (persist_on_complete_multi dump pctx envelope latency configured results s).1.db
  unfolding persist_on_complete_multi
  multi_keeps true results s c = or_else_keeps IsConsistent tt _ (
      close_scope_keeps IsConsistent s.db _ c
        (multi_rows_keeps results _ ((multi_strategy_keeps (first_bi results)).at s c)))
  multi_keeps false results s c = c

ingest_keeps :
    (configured : Bool) (uuid : String → Option ℕ) (envelope : Fields) (s : Sess)
    → IsConsistent s.db
    → IsConsistent (persist_on_ingest configured uuid envelope s).1.db
unfolding persist_on_ingest
ingest_keeps false uuid envelope s c = c
ingest_keeps true uuid envelope s c = at_read (read_ingest uuid envelope)
  where
    drop_ctx : (b : _) (o : _) (d : Db) → Ingested b o d → IsConsistent d
    drop_ctx b none d q = q
    drop_ctx b (some x) d q = q.0

    at_read : (r : _) → IsConsistent (ingest_read r s).1.db
    at_read (err e) = c
    at_read (ok none) = c
    at_read (ok (some b)) = swallow_keeps IsConsistent none _ s c (
        Triple-from _ λ d p.
          Triple-weaken _ (ingest_rows_keeps b d.action_types) (λ x e. rw e (p, refl)) (drop_ctx b))

-- Whatever statements fail, ingesting a task, recording a finished task and recording a batch
-- each leave tables in which no user has two active strategies, every job hangs on a strategy of
-- its own user, and no task has two briefs, if they were so before.
pub hooks-IsConsistent :
    (configured : Bool) (uuid : String → Option ℕ) (dump : CallbackBody → Value) (pctx : PersistCtx)
    (envelope : Fields) (latency : ℕ) (cb : CallbackBody) (results : Outcomes) (s : Sess)
    → IsConsistent s.db
    → IsConsistent (persist_on_ingest configured uuid envelope s).1.db
      × IsConsistent (persist_on_complete dump pctx envelope latency configured cb s).1.db
      × IsConsistent
          (persist_on_complete_multi dump pctx envelope latency configured results s).1.db
hooks-IsConsistent configured uuid dump pctx envelope latency cb results s c = (
  ingest_keeps configured uuid envelope s c,
  complete_keeps dump pctx envelope latency configured cb s c,
  multi_keeps dump pctx envelope latency configured results s c,
)
