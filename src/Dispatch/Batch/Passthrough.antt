-- ===== src/Dispatch/Batch/Passthrough.antt =====
-- main.py: the passthrough jobs of a batch and the briefs.
use marketer.Prelude.{
  ℕ, String, Bool, true, false, Option, none, some, List, [], ◌∷◌, ◌++◌, ◌≡◌, filter, map,
}
use marketer.Value.{Value, Fields, Result, ok, err}
use marketer.Schemas.{SubscriptionJob}
use marketer.Db.{Db, RawBrief, Strategy, Job}
use marketer.Db.Session.{Sess, pure, ◌>>◌, put_db, check_constraint}
use marketer.Db.Triples.{
  Triple, Post, Triple-pure, Triple-round_trip, Triple-get, Triple-check, Triple-put,
  Triple-put_unit, Triple-bind, swallow_keeps, close_scope_keeps, or_else_keeps,
}
use marketer.Db.Repositories.{
  is_active_of, scalar_one_or_none, get_active_strategy, create_strategy, strategy_row,
  add_strategy, may_add_strategy, or_create, ensure_strategy, NewJob, add_job, job_row, may_add_job,
  create_job, set_dispatch, update_dispatch_status,
}
use marketer.Db.Upserts.{Triple-scalar_one_or_none}
use marketer.Persistence.{PersistCtx, Created, after, set_dispatch_status}
use marketer.Dispatch.Delivery.{
  Settings, Reply, Outcome, delivered, failed, raised, post_dispatcher,
}
use marketer.Dispatch.Background.{account_of}
use marketer.Dispatch.Batch.{
  Results, Run, passthrough_strategy, passthrough_job, create_passthrough, under_strategy,
  then_strategy, persist_passthrough, settle, next, dispatch_passthrough,
}

module _ (x : List RawBrief) where
  abbrev Same : Db → Type 0
  Same d = d.raw_briefs ≡ x

  get_active_strategy-Same : (u : ℕ) → Triple Same (get_active_strategy u) (λ _. Same)
  unfolding get_active_strategy
  get_active_strategy-Same u = Triple-round_trip _ (
      Triple-get (λ d. scalar_one_or_none (filter (is_active_of u) d.strategies))
        λ d p. Triple-scalar_one_or_none d _ p λ a e. p)

  create_strategy-Same :
      (u : ℕ) (bi : Value) (v : ℕ) → Triple Same (create_strategy u bi v) (λ _. Same)
  unfolding create_strategy
  create_strategy-Same u bi v = Triple-round_trip _ (
      Triple-get
        (λ d.
          check_constraint (may_add_strategy u v d)
          >> (put_db (add_strategy (strategy_row u bi v d) d) >> pure (strategy_row u bi v d)))
        λ d p.
          Triple-check (may_add_strategy u v d) _
            λ ok. Triple-put (add_strategy (strategy_row u bi v d) d) (strategy_row u bi v d) p)

  or_create-Same :
      (u : ℕ) (bi : Value) (o : Option Strategy) → Triple Same (or_create u bi o) (λ _. Same)
  or_create-Same u bi (some r) = Triple-pure r λ d p. p
  or_create-Same u bi none = create_strategy-Same u bi 1

  ensure_strategy-Same : (u : ℕ) (bi : Value) → Triple Same (ensure_strategy u bi) (λ _. Same)
  unfolding ensure_strategy
  ensure_strategy-Same u bi = Triple-bind _ _ (get_active_strategy-Same u) (or_create-Same u bi)

  create_job-Same : (j : NewJob) → Triple Same (create_job j) (λ _. Same)
  unfolding create_job
  create_job-Same j = Triple-round_trip _ (
      Triple-get
        (λ d. check_constraint (may_add_job j d) >> (put_db (add_job j d) >> pure (job_row j d)))
        λ d p. Triple-check (may_add_job j d) _ λ ok. Triple-put (add_job j d) (job_row j d) p)

  set_dispatch_status-Same :
      (configured : Bool) (id : ℕ) (st : String) (s : Sess)
      → Same s.db
      → Same (set_dispatch_status configured id st s).1.db
  unfolding set_dispatch_status update_dispatch_status
  set_dispatch_status-Same false id st s p = p
  set_dispatch_status-Same true id st s p = swallow_keeps Same tt _ s p (
      Triple-round_trip _ (
        Triple-get (λ d. put_db (record d { jobs = map (set_dispatch id st) d.jobs }))
          λ d q. Triple-put_unit (record d { jobs = map (set_dispatch id st) d.jobs }) q))

  passthrough_strategy-Same :
      (u : ℕ) (results : Results) (o : Option Strategy)
      → Triple Same (passthrough_strategy u results o) (λ _. Same)
  passthrough_strategy-Same u results (some r) = record { at = λ s p. p }
  passthrough_strategy-Same u results none = record {
    at = λ s p. (ensure_strategy-Same u _).at s p;
  }

  create_passthrough-Same :
      (pctx : PersistCtx) (i : ℕ) (account : Value) (jobs : List SubscriptionJob) (log : Created)
      (s : Sess)
      → Same s.db
      → Post (λ _. Same) (create_passthrough pctx i account jobs log s).1
  unfolding create_passthrough
  create_passthrough-Same pctx i account [] log s p = p
  create_passthrough-Same pctx i account (job ∷ rest) log s p =
      at_row (create_job (passthrough_job pctx i account job) s)
        ((create_job-Same (passthrough_job pctx i account job)).at s p)
        (λ l s' q. create_passthrough-Same pctx i account rest l s' q)
    where
      at_row :
          (r : Result Job × Sess)
          → Post (λ _. Same) r
          → ((l : Created) (s' : Sess)
              → Same s'.db
              → Post (λ _. Same) (create_passthrough pctx i account rest l s').1)
          → Post
              (λ _. Same)
              (after log r
                λ row s'. create_passthrough pctx i account rest (log ++ (row.id, job) ∷ []) s').1
      at_row (ok row, s') q ih = ih _ s' q
      at_row (err e, s') q ih = tt

  under_strategy-Same :
      (pctx : PersistCtx) (account : Result Value) (jobs : List SubscriptionJob)
      (r : Result Strategy × Sess)
      → Post (λ _. Same) r
      → Post (λ _. Same) (under_strategy pctx account jobs r).1
  under_strategy-Same pctx (ok account) jobs (ok r, s) p =
      create_passthrough-Same pctx r.id _ jobs [] s p
  under_strategy-Same pctx (err e) jobs (ok r, s) p = tt
  under_strategy-Same pctx (ok account) jobs (err e, s) p = tt
  under_strategy-Same pctx (err x) jobs (err e, s) p = tt

  then_strategy-Same :
      (u : ℕ) (results : Results) (r : Result (Option Strategy) × Sess)
      → Post (λ _. Same) r
      → Post (λ _. Same) (then_strategy u results r)
  then_strategy-Same u results (ok o, s) p = (passthrough_strategy-Same u results o).at s p
  then_strategy-Same u results (err e, s) p = tt

  pub persist_passthrough-Same :
      (configured : Bool) (pctx : PersistCtx) (envelope : Fields) (results : Results)
      (jobs : List SubscriptionJob) (s : Sess)
      → Same s.db
      → Same (persist_passthrough configured pctx envelope results jobs s).1.db
  unfolding persist_passthrough
  persist_passthrough-Same false pctx envelope results jobs s p = p
  persist_passthrough-Same true pctx envelope results [] s p = p
  persist_passthrough-Same true pctx envelope results (j ∷ jobs) s p = or_else_keeps Same tt _ (
      close_scope_keeps Same s.db _ p (
        under_strategy-Same pctx (account_of envelope) (j ∷ jobs) _ (
          then_strategy-Same pctx.user_id results _
            ((get_active_strategy-Same pctx.user_id).at s p))))

  settle-Same :
      (configured : Bool) (id : ℕ) (o : Outcome) (w : Run)
      → Same w.sess.db
      → Same (settle configured id o w).1.sess.db
  settle-Same configured id delivered w p = set_dispatch_status-Same configured id "ok" w.sess p
  settle-Same configured id failed w p = set_dispatch_status-Same configured id "failed" w.sess p
  settle-Same configured id raised w p = p

  pub next-Same :
      (r : Result (Unit {0}) × Run) (k : Run → Result (Unit {0}) × Run)
      → Same r.1.sess.db
      → ((w : Run) → Same w.sess.db → Same (k w).1.sess.db)
      → Same (next r k).1.sess.db
  next-Same (ok u, w) k p h = h w p
  next-Same (err e, w) k p h = p

  pub dispatch-Same :
      (settings : Settings) (configured : Bool) (agentic : ℕ → ℕ → Reply) (passed : Created)
      (w : Run)
      → Same w.sess.db
      → Same (dispatch_passthrough settings configured agentic passed w).1.sess.db
  unfolding dispatch_passthrough
  dispatch-Same settings configured agentic [] w p = p
  dispatch-Same settings configured agentic ((id, job) ∷ rest) w p =
      next-Same _ (dispatch_passthrough settings configured agentic rest)
        (settle-Same configured id (post_dispatcher settings (agentic id)).1 _ p)
        (dispatch-Same settings configured agentic rest)
