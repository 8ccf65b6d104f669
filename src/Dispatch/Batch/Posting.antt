-- ===== src/Dispatch/Batch/Posting.antt =====
-- main.py: what a batch reports, and which of its jobs are posted.
use marketer.Prelude.{
  ℕ, String, Bool, true, false, ◌&&◌, ◌||◌, Option, none, some, List, [], ◌∷◌, ◌++◌, ◌≡◌, refl,
  arith, ap, sym, ◌∙◌, eqb, eqb_refl, any, All, append-nil, append_assoc,
}
use marketer.Value.{Value, Fields, Result, ok, err, Exc, truthy, get}
use marketer.Schemas.{Warning, CallbackBody, SubscriptionJob}
use marketer.Persistence.{PersistCtx, Created}
use marketer.Dispatch.Delivery.{
  Settings, Reply, Outcome, delivered, failed, raised, post_orch_job, post_dispatcher,
}
use marketer.Dispatch.Batch.{
  Results, Run, db_id_of, has_output, settle, post_one, next, post_results, dispatch_passthrough,
  aggregate,
}
use marketer.Dispatch.Batch.Flow.{
  jobs_of, context_account, results_of, report_batch, deliver, run_multi,
}

next_sent :
    (r : Result (Unit {0}) × Run) (k : Run → Result (Unit {0}) × Run)
    → ((w : Run) → (k w).1.sent ≡ w.sent)
    → (next r k).1.sent ≡ r.1.sent
next_sent (ok x, w) k h = h w
next_sent (err e, w) k h = refl

module _ (settings : Settings) (configured : Bool) where
  settle_sent : (id : ℕ) (o : Outcome) (w : Run) → (settle configured id o w).1.sent ≡ w.sent
  settle_sent id delivered w = refl
  settle_sent id failed w = refl
  settle_sent id raised w = refl

  post_one_sent :
      (orch : ℕ → ℕ → Reply) (b : Bool) (o : Option ℕ) (w : Run)
      → (post_one settings configured orch b o w).1.sent ≡ w.sent
  post_one_sent orch b none w = refl
  post_one_sent orch false (some id) w = refl
  post_one_sent orch true (some id) w = settle_sent id (post_orch_job settings (orch id)).1 _

  post_results_sent :
      (orch : ℕ → ℕ → Reply) (created : Created) (results : Results) (w : Run)
      → (post_results settings configured orch created results w).1.sent ≡ w.sent
  unfolding post_results
  post_results_sent orch created [] w = refl
  post_results_sent orch created ((cb, none) ∷ rest) w = post_results_sent orch created rest w
  post_results_sent orch created ((cb, some job) ∷ rest) w =
      next_sent
        (post_one settings configured orch (has_output cb cb.output_data)
          (db_id_of created job.index) w)
        (post_results settings configured orch created rest) (post_results_sent orch created rest)
      ∙ post_one_sent orch (has_output cb cb.output_data) (db_id_of created job.index) w

  dispatch_sent :
      (agentic : ℕ → ℕ → Reply) (passed : Created) (w : Run)
      → (dispatch_passthrough settings configured agentic passed w).1.sent ≡ w.sent
  unfolding dispatch_passthrough
  dispatch_sent agentic [] w = refl
  dispatch_sent agentic ((id, job) ∷ rest) w =
      next_sent _ (dispatch_passthrough settings configured agentic rest)
        (dispatch_sent agentic rest)
      ∙ settle_sent id (post_dispatcher settings (agentic id)).1 _

module _ (settings : Settings) (configured : Bool) (dump : CallbackBody → Value)
    (text : Exc → String) (llm : List SubscriptionJob → Result Results)
    (orch agentic : ℕ → ℕ → Reply) where
  deliver_sent :
      (envelope : Fields) (server : ℕ → Reply) (jobs : List SubscriptionJob)
      (created passed : Created) (w : Run) (account : Value)
      → truthy (get "callback_url" envelope) ≡ true
      → context_account envelope ≡ ok account
      → (deliver settings configured dump text llm orch agentic envelope server jobs created passed
          w).1.sent
        ≡ w.sent ++ aggregate (results_of settings configured dump text llm orch agentic jobs) ∷ []
  deliver_sent envelope server jobs created passed w account url acc = rw acc (
      rw url (
        next_sent
          (report_batch settings configured dump text llm orch agentic true server
            (aggregate (results_of settings configured dump text llm orch agentic jobs)) w)
          (λ w2.
            next
              (post_results settings configured orch created
                (results_of settings configured dump text llm orch agentic jobs) w2)
              (dispatch_passthrough settings configured agentic passed))
          (λ w2.
            next_sent
              (post_results settings configured orch created
                (results_of settings configured dump text llm orch agentic jobs) w2)
              (dispatch_passthrough settings configured agentic passed)
              (dispatch_sent settings configured agentic passed)
            ∙ post_results_sent settings configured orch created
                (results_of settings configured dump text llm orch agentic jobs) w2)))

  -- A batch with a callback_url, whose jobs and context can be read, hands over exactly one callback,
  -- the aggregate of its results, whatever the model, the database and the deliveries do.
  pub run_multi_reports :
      (lower : String → String) (show : ℕ → String) (envelope : Fields) (pctx : Option PersistCtx)
      (latency : ℕ) (server : ℕ → Reply) (w : Run) (jobs : List SubscriptionJob) (ws : List Warning)
      (account : Value)
      → jobs_of lower show envelope ≡ ok (jobs, ws)
      → truthy (get "callback_url" envelope) ≡ true
      → context_account envelope ≡ ok account
      → (run_multi settings configured dump text llm orch agentic lower show envelope pctx latency
          server w).1.sent
        ≡ w.sent ++ aggregate (results_of settings configured dump text llm orch agentic jobs) ∷ []
  unfolding run_multi
  run_multi_reports lower show envelope pctx latency server w jobs ws account h url acc =
      rw h (deliver_sent envelope server jobs _ _ _ account url acc)

abbrev is_id : ℕ → Option ℕ → Bool
is_id id none = false
is_id id (some i) = eqb i id

-- Whether a completed result with output stands behind the identifier of a job.
abbrev pub is_behind : Created → ℕ → CallbackBody × Option SubscriptionJob → Bool
is_behind created id (cb, none) = false
is_behind created id (cb, some job) =
    has_output cb cb.output_data && is_id id (db_id_of created job.index)

-- The identifiers that were posted after those of `before` have a completed result behind each.
abbrev pub Posted : Created → Results → List ℕ → List ℕ → Type 0
Posted created results before posted =
    (new : List ℕ) × (posted ≡ before ++ new)
    × All (λ id. any (is_behind created id) results ≡ true) new

behind_head :
    (created : Created) (x : CallbackBody × Option SubscriptionJob) (rest : Results) (new : List ℕ)
    → All (λ id. is_behind created id x ≡ true) new
    → All (λ id. any (is_behind created id) (x ∷ rest) ≡ true) new
behind_head created x rest [] h = tt
behind_head created x rest (id ∷ new) h = (ground (arith, h.0), behind_head created x rest new h.1)

behind_tail :
    (created : Created) (x : CallbackBody × Option SubscriptionJob) (rest : Results) (new : List ℕ)
    → All (λ id. any (is_behind created id) rest ≡ true) new
    → All (λ id. any (is_behind created id) (x ∷ rest) ≡ true) new
behind_tail created x rest [] h = tt
behind_tail created x rest (id ∷ new) h = (
  or_right (is_behind created id x) (any (is_behind created id) rest) h.0,
  behind_tail created x rest new h.1,
)
  where
    or_right : (a b : Bool) → b ≡ true → (a || b) ≡ true
    or_right a b h = ground arith

All-append : (P : ℕ → Type 0) (xs ys : List ℕ) → All P xs → All P ys → All P (xs ++ ys)
All-append P [] ys h k = k
All-append P (x ∷ xs) ys h k = (h.0, All-append P xs ys h.1 k)

module _ (settings : Settings) (configured : Bool) (orch : ℕ → ℕ → Reply) where
  settle_posted : (id : ℕ) (o : Outcome) (w : Run) → (settle configured id o w).1.posted ≡ w.posted
  settle_posted id delivered w = refl
  settle_posted id failed w = refl
  settle_posted id raised w = refl

  post_one_posted :
      (b : Bool) (o : Option ℕ) (w : Run)
      → (new : List ℕ) × ((post_one settings configured orch b o w).1.posted ≡ w.posted ++ new)
        × All (λ id. (b && is_id id o) ≡ true) new
  post_one_posted b none w = ([], sym (append-nil w.posted), tt)
  post_one_posted false (some id) w = ([], sym (append-nil w.posted), tt)
  post_one_posted true (some id) w =
      (id ∷ [], settle_posted id (post_orch_job settings (orch id)).1 _, (eqb_refl id, tt))

  next_posted :
      (created : Created) (x : CallbackBody × Option SubscriptionJob) (rest : Results)
      (before : List ℕ) (r : Result (Unit {0}) × Run) (k : Run → Result (Unit {0}) × Run)
      (new : List ℕ)
      → r.1.posted ≡ before ++ new
      → All (λ id. is_behind created id x ≡ true) new
      → ((w : Run) → Posted created rest w.posted (k w).1.posted)
      → Posted created (x ∷ rest) before (next r k).1.posted
  next_posted created x rest before (err e, w) k new h b ih =
      (new, h, behind_head created x rest new b)
  next_posted created x rest before (ok u, w) k new h b ih =
      let q = ih w in
      (
        new ++ q.0,
        q.1 ∙ ap (λ l. l ++ q.0) h ∙ append_assoc before new q.0,
        All-append (λ id. any (is_behind created id) (x ∷ rest) ≡ true) new q.0
            (behind_head created x rest new b) (behind_tail created x rest q.0 q.2),
      )

  -- Only completed jobs go to the orchestrator: each identifier that the loop hands to `_post_orch_job`
  -- is the one that the given list of created jobs has for a result that is COMPLETED with output.
  pub post_results-Posted :
      (created : Created) (results : Results) (w : Run)
      → Posted created results w.posted
          (post_results settings configured orch created results w).1.posted
  unfolding post_results
  post_results-Posted created [] w = ([], sym (append-nil w.posted), tt)
  post_results-Posted created ((cb, none) ∷ rest) w =
      let q = post_results-Posted created rest w in
      (q.0, q.1, behind_tail created (cb, none) rest q.0 q.2)
  post_results-Posted created ((cb, some job) ∷ rest) w =
      let p = post_one_posted (has_output cb cb.output_data) (db_id_of created job.index) w in
      next_posted created (cb, some job) rest w.posted
        (post_one settings configured orch (has_output cb cb.output_data)
          (db_id_of created job.index) w)
        (post_results settings configured orch created rest) p.0 p.1 p.2
        (post_results-Posted created rest)
