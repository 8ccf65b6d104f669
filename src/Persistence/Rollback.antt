-- ===== src/Persistence/Rollback.antt =====
-- persistence.py: what `persist_on_complete_multi` returns when its transaction is rolled back.
use marketer.Prelude.{◌∙◌, ℕ, true, false, some, [], ◌∷◌, ◌++◌, ◌≡◌, refl, All, arith}
use marketer.Value.{Value, Fields, ok, err, db_error}
use marketer.Schemas.{CallbackBody, SubscriptionJob}
use marketer.Db.{Db, Strategy}
use marketer.Db.Session.{round_trip}
use marketer.Db.Repositories.{NewJob, add_job, may_add_job, create_job}
use marketer.Persistence.{
  PersistCtx, Outcomes, lift, first_bi, multi_strategy, sub_job, create_sub_jobs,
  persist_on_complete_multi,
}
use marketer.Persistence.Input.{distill_job_input}
use marketer.Persistence.Outcome.{calm, add_all, ids_from, MayAdd, create_sub_jobs_run}

may_add_job-add_job : (j k : NewJob) (d : Db) → may_add_job j (add_job k d) ≡ may_add_job j d
may_add_job-add_job j k d = ground arith

module _ (dump : CallbackBody → Value) (pctx : PersistCtx) (envelope : Fields) (latency : ℕ) where
  -- Jobs that were added do not change what may be added.
  may_add_job-add_all :
      (j : NewJob) (i : ℕ) (input : Value) (results : Outcomes) (d : Db)
      → may_add_job j (add_all dump pctx envelope latency i input results d) ≡ may_add_job j d
  may_add_job-add_all j i input [] d = refl
  may_add_job-add_all j i input ((cb, job) ∷ rest) d =
      may_add_job-add_all j i input rest
        (add_job (sub_job dump pctx envelope latency i cb job input) d)
      ∙ may_add_job-add_job j (sub_job dump pctx envelope latency i cb job input) d

  -- Where no statement fails, and the jobs of a batch may be added up to one that violates a
  -- constraint, the tables stay as they were, yet the identifiers of all jobs before that one are returned.
  pub persist_on_complete_multi_leaks :
      (good rest : Outcomes) (cb : CallbackBody) (job : SubscriptionJob) (d e : Db) (r : Strategy)
      (input : Value)
      → distill_job_input envelope ≡ ok input
      → multi_strategy pctx.user_id (first_bi (good ++ (cb, job) ∷ rest)) (calm d)
        ≡ (ok (some r), calm e)
      → All (MayAdd dump pctx envelope latency r.id input e) good
      → may_add_job (sub_job dump pctx envelope latency r.id cb job input) e ≡ false
      → persist_on_complete_multi dump pctx envelope latency true
          (good ++ (cb, job) ∷ rest)
          (calm d)
        ≡ (ids_from dump pctx envelope latency e.next_id good, calm d)
  unfolding persist_on_complete_multi
  persist_on_complete_multi_leaks good rest cb job d e r input di st h bad = rw st (rw loop)
    where
      loop :
          create_sub_jobs dump pctx envelope latency r.id
            (good ++ (cb, job) ∷ rest)
            false
            []
            (calm e)
          ≡ (
            ids_from dump pctx envelope latency e.next_id good,
            (err db_error, calm (add_all dump pctx envelope latency r.id input good e)),
          )
      loop =
          create_sub_jobs_run dump pctx envelope latency r.id input good ((cb, job) ∷ rest) false []
            e di h
          ∙ (unfold create_sub_jobs create_job round_trip in
              rw (di, lift)
                (rw
                  (may_add_job-add_all (sub_job dump pctx envelope latency r.id cb job input) r.id
                    input good e)
                  (rw bad)))
