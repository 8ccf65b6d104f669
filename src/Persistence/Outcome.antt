-- ===== src/Persistence/Outcome.antt =====
-- persistence.py: what the hooks write when no statement fails.
use mathlib.Core.Path.{ap₂}
use marketer.Prelude.{
  ◌∙◌, ℕ, ◌+◌, Bool, true, false, ◌||◌, [], ◌∷◌, ◌++◌, ◌≡◌, arith, filter, All, append-nil,
  append_assoc,
}
use marketer.Value.{Value, Fields, ok}
use marketer.Schemas.{CallbackBody, SubscriptionJob, is_completed}
use marketer.Db.{Db, Strategy}
use marketer.Db.Session.{Sess, round_trip}
use marketer.Db.Repositories.{
  is_active_of, NewJob, add_job, may_add_job, create_job, get_active_strategy, ensure_strategy,
}
use marketer.Persistence.{PersistCtx, lift, Outcomes, Created, sub_job, create_sub_jobs}
use marketer.Persistence.Input.{distill_job_input}

-- The tables, with no failure ahead.
abbrev pub calm : Db → Sess
calm d = record { db = d; faults = [] }

-- With an active strategy, `ensure_strategy` gives it and writes nothing.
pub ensure_strategy_existing :
    (u : ℕ) (bi : Value) (d : Db) {r : Strategy}
    → filter (is_active_of u) d.strategies ≡ r ∷ []
    → ensure_strategy u bi (calm d) ≡ (ok r, calm d)
unfolding ensure_strategy get_active_strategy round_trip
ensure_strategy_existing u bi d e = rw e

create_job_run :
    (j : NewJob) (d : Db) → may_add_job j d ≡ true → (create_job j (calm d)).1 ≡ calm (add_job j d)
unfolding create_job round_trip
create_job_run j d m = rw m

or_shift : (x y z : Bool) → (x || (y || z)) ≡ ((y || x) || z)
or_shift x y z = ground arith

module _ (dump : CallbackBody → Value) (pctx : PersistCtx) (envelope : Fields) (latency : ℕ) where
  -- the tables after the jobs of a batch were added, and the identifiers that they got
  abbrev pub add_all : ℕ → Value → Outcomes → Db → Db
  add_all i input [] d = d
  add_all i input ((cb, job) ∷ rest) d =
      add_all i input rest (add_job (sub_job dump pctx envelope latency i cb job input) d)

  abbrev pub ids_from : ℕ → Outcomes → Created
  ids_from n [] = []
  ids_from n ((_, job) ∷ rest) = (n, job) ∷ ids_from (n + 1) rest

  abbrev pub MayAdd : ℕ → Value → Db → CallbackBody × SubscriptionJob → Type 0
  MayAdd i input d (cb, job) =
      may_add_job (sub_job dump pctx envelope latency i cb job input) d ≡ true

  abbrev pub any_done : Outcomes → Bool
  any_done [] = false
  any_done ((cb, _) ∷ rest) = is_completed cb.status || any_done rest

  MayAdd-add_job :
      (i : ℕ) (input : Value) (j : NewJob) (d : Db) (results : Outcomes)
      → All (MayAdd i input d) results
      → All (MayAdd i input (add_job j d)) results
  MayAdd-add_job i input j d [] h = tt
  MayAdd-add_job i input j d ((cb, job) ∷ rest) h = (h.0, MayAdd-add_job i input j d rest h.1)

  -- The loop over results whose jobs may be added.
  pub create_sub_jobs_run :
      (i : ℕ) (input : Value) (good rest : Outcomes) (a : Bool) (log : Created) (d : Db)
      → distill_job_input envelope ≡ ok input
      → All (MayAdd i input d) good
      → create_sub_jobs dump pctx envelope latency i (good ++ rest) a log (calm d)
        ≡ create_sub_jobs dump pctx envelope latency i rest
            (any_done good || a)
            (log ++ ids_from d.next_id good)
            (calm (add_all i input good d))
  create_sub_jobs_run i input [] rest a log d di h = rw append-nil
  create_sub_jobs_run i input ((cb, job) ∷ good) rest a log d di h =
      first
      ∙ create_sub_jobs_run i input good rest (is_completed cb.status || a)
          (log ++ (d.next_id, job) ∷ [])
          (add_job (sub_job dump pctx envelope latency i cb job input) d) di
          (MayAdd-add_job i input (sub_job dump pctx envelope latency i cb job input) d good h.1)
      ∙ ap₂
          (λ b l.
            create_sub_jobs dump pctx envelope latency i rest b l
              (calm (add_all i input ((cb, job) ∷ good) d)))
          (or_shift (any_done good) (is_completed cb.status) a)
          (append_assoc log ((d.next_id, job) ∷ []) (ids_from (d.next_id + 1) good))
    where
      first :
          create_sub_jobs dump pctx envelope latency i ((cb, job) ∷ good ++ rest) a log (calm d)
          ≡ create_sub_jobs dump pctx envelope latency i
              (good ++ rest)
              (is_completed cb.status || a)
              (log ++ (d.next_id, job) ∷ [])
              (calm (add_job (sub_job dump pctx envelope latency i cb job input) d))
      first = unfold create_sub_jobs create_job round_trip in rw (di, lift) (rw h.0)
