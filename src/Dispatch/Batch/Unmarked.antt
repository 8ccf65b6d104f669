-- ===== src/Dispatch/Batch/Unmarked.antt =====
-- main.py: a batch with passthrough jobs only.
use marketer.Prelude.{ℕ, String, Bool, true, false, Option, none, some, List, [], ◌≡◌, refl, ap}
use marketer.Value.{Value, Fields, Result, ok, err, Exc, truthy, get}
use marketer.Schemas.{Warning, CallbackBody, SubscriptionJob}
use marketer.Db.{RawBrief}
use marketer.Db.Session.{Sess}
use marketer.Persistence.{PersistCtx, Created}
use marketer.Dispatch.Delivery.{Settings, Reply}
use marketer.Dispatch.Batch.{
  Results, Run, llm_jobs_of, passthrough_of, persist_results, next, post_results,
  dispatch_passthrough, aggregate,
}
use marketer.Dispatch.Batch.Flow.{
  jobs_of, context_account, unchecked, results_of, stored_results, stored_passthrough, report_batch,
  deliver, run_multi,
}
use marketer.Dispatch.Batch.Passthrough.{persist_passthrough-Same, next-Same, dispatch-Same}

module _ (settings : Settings) (configured : Bool) (dump : CallbackBody → Value)
    (text : Exc → String) (llm : List SubscriptionJob → Result Results)
    (orch agentic : ℕ → ℕ → Reply) where
  stored_results_same :
      (pctx : Option PersistCtx) (envelope : Fields) (latency : ℕ) (jobs : List SubscriptionJob)
      (s : Sess)
      → llm_jobs_of jobs ≡ []
      → (stored_results settings configured dump text llm orch agentic pctx envelope latency jobs
          s).1
        ≡ s
  unfolding persist_results
  stored_results_same none envelope latency jobs s h = refl
  stored_results_same (some pctx) envelope latency jobs s h = rw h refl

  passed_same :
      (x : List RawBrief) (pctx : Option PersistCtx) (envelope : Fields)
      (jobs : List SubscriptionJob) (s : Sess)
      → s.db.raw_briefs ≡ x
      → (stored_passthrough settings configured dump text llm orch agentic pctx envelope jobs
          s).1.db.raw_briefs
        ≡ x
  passed_same x none envelope jobs s p = p
  passed_same x (some pctx) envelope jobs s p =
      persist_passthrough-Same x configured pctx envelope _ (passthrough_of jobs) s p

  report_same :
      (x : List RawBrief) (b : Bool) (server : ℕ → Reply) (body : CallbackBody) (w : Run)
      → w.sess.db.raw_briefs ≡ x
      → (report_batch settings configured dump text llm orch agentic b server body
          w).1.sess.db.raw_briefs
        ≡ x
  report_same x true server body w p = p
  report_same x false server body w p = p

  context_same :
      (x : List RawBrief) (r : Result Value) (w : Run) (k : Run → Result (Unit {0}) × Run)
      → w.sess.db.raw_briefs ≡ x
      → ((v : Run) → v.sess.db.raw_briefs ≡ x → (k v).1.sess.db.raw_briefs ≡ x)
      → (next (unchecked r, w) k).1.sess.db.raw_briefs ≡ x
  context_same x (ok a) w k p h = h w p
  context_same x (err e) w k p h = p

  post_same :
      (x : List RawBrief) (created : Created) (results : Results) (w : Run)
      → results ≡ []
      → w.sess.db.raw_briefs ≡ x
      → (post_results settings configured orch created results w).1.sess.db.raw_briefs ≡ x
  unfolding post_results
  post_same x created results w h p = rw h p

  no_results :
      (jobs : List SubscriptionJob)
      → llm_jobs_of jobs ≡ []
      → results_of settings configured dump text llm orch agentic jobs ≡ []
  no_results jobs h = rw h refl

  deliver_same :
      (x : List RawBrief) (envelope : Fields) (server : ℕ → Reply) (jobs : List SubscriptionJob)
      (created passed : Created) (w : Run)
      → results_of settings configured dump text llm orch agentic jobs ≡ []
      → w.sess.db.raw_briefs ≡ x
      → (deliver settings configured dump text llm orch agentic envelope server jobs created passed
          w).1.sess.db.raw_briefs
        ≡ x
  deliver_same x envelope server jobs created passed w h p =
      let results = results_of settings configured dump text llm orch agentic jobs in
      let report =
        report_batch settings configured dump text llm orch agentic
          (truthy (get "callback_url" envelope)) server (aggregate results) in
      let dispatch = dispatch_passthrough settings configured agentic passed in
      let post =
        λ (w2 : Run). next (post_results settings configured orch created results w2) dispatch in
      context_same x (context_account envelope) w (λ w1. next (report w1) post) p
        λ w1 p1.
          next-Same x (report w1) post
            (report_same x (truthy (get "callback_url" envelope)) server (aggregate results) w1 p1)
            λ w2 p2.
              next-Same x (post_results settings configured orch created results w2) dispatch
                (post_same x created results w2 h p2)
                (dispatch-Same x settings configured agentic passed)

  -- A batch with passthrough jobs only never touches the briefs, whatever fails: the status that its
  -- own brief had before the batch is the one that it keeps.
  pub run_multi_unmarked :
      (lower : String → String) (show : ℕ → String) (envelope : Fields) (pctx : Option PersistCtx)
      (latency : ℕ) (server : ℕ → Reply) (w : Run) (jobs : List SubscriptionJob) (ws : List Warning)
      → jobs_of lower show envelope ≡ ok (jobs, ws)
      → llm_jobs_of jobs ≡ []
      → (run_multi settings configured dump text llm orch agentic lower show envelope pctx latency
          server w).1.sess.db.raw_briefs
        ≡ w.sess.db.raw_briefs
  unfolding run_multi
  run_multi_unmarked lower show envelope pctx latency server w jobs ws h none_llm = rw h (
      deliver_same w.sess.db.raw_briefs envelope server jobs _ _ _ (no_results jobs none_llm) (
        passed_same w.sess.db.raw_briefs pctx envelope jobs
          (stored_results settings configured dump text llm orch agentic pctx envelope latency jobs
            w.sess).1
          (ap (λ (s : Sess). s.db.raw_briefs)
            (stored_results_same pctx envelope latency jobs w.sess none_llm))))
