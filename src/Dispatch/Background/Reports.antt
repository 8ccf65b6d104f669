-- ===== src/Dispatch/Background/Reports.antt =====
-- main.py: what a background task reports to the router.
use marketer.Prelude.{
  ℕ, String, Bool, true, Option, none, some, [], ◌∷◌, ◌++◌, ◌≡◌, ◌≢◌, refl, ap, ◌∙◌, append_assoc,
}
use marketer.Value.{
  Value, null, obj, Fields, end, field, Result, ok, err, Exc, attribute_error, truthy, get,
}
use marketer.Schemas.{CallbackBody}
use marketer.Db.Session.{Sess}
use marketer.Persistence.{PersistCtx}
use marketer.Dispatch.Delivery.{Settings, Reply, Outcome, delivered, failed, raised, patch_callback}
use marketer.Dispatch.Background.{
  Profile, World, Task, follow, escaped, report_if, in_progress_body, context_of, account_of,
  log_request, store_profile, store_outcome, callback_for, profile_of, run_single,
}

escaped_ok : (o : Outcome) → o ≢ raised → escaped o ≡ ok tt
escaped_ok delivered n = refl
escaped_ok failed n = refl
escaped_ok raised n = elim (n refl) [ ]

follow_ok :
    {A B : Type 0} {m : Result A × World} {x : A} {w : World} (k : A → Task B)
    → m ≡ (ok x, w)
    → follow m k ≡ k x w
follow_ok k h = rw h refl

follow_err :
    {A B : Type 0} {m : Result A × World} {e : Exc} {w : World} (k : A → Task B)
    → m ≡ (err e, w)
    → follow m k ≡ (err e, w)
follow_err k h = rw h refl

module _ {Pool : Type 0} (settings : Settings) (configured : Bool) (dump : CallbackBody → Value)
    (text : Exc → String) (usp_fetch : Value → Result (Option Profile))
    (gallery_fetch : Value → Result (Option Pool × Option String))
    (reason : Option Profile × Option String
      → Option Pool × Option String
      → Result CallbackBody) where
  stored :
      (pctx : Option PersistCtx) (p : Option Profile) (w : World)
      → (s : Sess) × (store_profile settings configured dump text usp_fetch gallery_fetch reason
            pctx p w
          ≡ (ok tt, record w { sess = s }))
  stored none p w = (w.sess, refl)
  stored (some pctx) none w = (w.sess, refl)
  stored (some pctx) (some p) w = (_, refl)

  kept :
      (pctx : Option PersistCtx) (envelope : Fields) (latency : ℕ) (cb : CallbackBody) (w : World)
      → (s : Sess) × (store_outcome settings configured dump text usp_fetch gallery_fetch reason
            pctx envelope latency cb w
          ≡ (ok tt, record w { sess = s }))
  kept none envelope latency cb w = (w.sess, refl)
  kept (some pctx) envelope latency cb w = (_, refl)

  reported :
      (b : Bool) (server : ℕ → Reply) (body : CallbackBody) (w : World)
      → b ≡ true
      → (patch_callback settings server).1 ≢ raised
      → report_if settings configured dump text usp_fetch gallery_fetch reason b server body w
        ≡ (ok tt, record w { sent = w.sent ++ body ∷ [] })
  reported b server body w h n = rw h (rw (escaped_ok (patch_callback settings server).1 n) refl)

  module _ (envelope : Fields) (pctx : Option PersistCtx) (latency : ℕ) (first last : ℕ → Reply)
      (w : World) where
    abbrev run : Result (Unit {0}) × World
    run =
        run_single settings configured dump text usp_fetch gallery_fetch reason envelope pctx
          latency first last w

    abbrev fetched : Value → Option Profile
    fetched account =
        (profile_of settings configured dump text usp_fetch gallery_fetch reason account).0

    abbrev final : Value → CallbackBody
    final account =
        callback_for settings configured dump text usp_fetch gallery_fetch reason account

    abbrev after_first : World
    after_first = record w { sent = w.sent ++ in_progress_body ∷ [] }

    no_account :
        (payload : Fields)
        → get "payload" envelope ≡ obj payload
        → context_of payload ≡ null
        → account_of envelope ≡ err attribute_error
    unfolding account_of
    no_account end load ctx = cc
    no_account (field j v fs) load ctx = rw load (rw ctx refl)

    -- A task with a callback_url whose payload and request can be read reports twice, first that it is
    -- in progress and then the outcome, whatever the model, the fetches and the database did, if no
    -- delivery raises.
    pub run_single_reports :
        (account : Value)
        → truthy (get "callback_url" envelope) ≡ true
        → account_of envelope ≡ ok account
        → log_request envelope ≡ ok tt
        → (patch_callback settings first).1 ≢ raised
        → (patch_callback settings last).1 ≢ raised
        → (run.0 ≡ ok tt) × (run.1.sent ≡ w.sent ++ in_progress_body ∷ final account ∷ [])
    unfolding run_single
    run_single_reports account url acc log a b =
        let s1 = stored pctx (fetched account) after_first in
        let s2 = kept pctx envelope latency (final account) (record after_first { sess = s1.0 }) in
        let done =
          follow_ok _
            (reported (truthy (get "callback_url" envelope)) first in_progress_body w url a)
          ∙ follow_ok {m = (account_of envelope, after_first)} _ (ap (λ r. (r, after_first)) acc)
          ∙ follow_ok _ s1.1
          ∙ follow_ok {m = (log_request envelope, record after_first { sess = s1.0 })} _
              (ap (λ r. (r, record after_first { sess = s1.0 })) log)
          ∙ follow_ok _ s2.1
          ∙ reported (truthy (get "callback_url" envelope)) last (final account)
              (record after_first { sess = s2.0 }) url b in
        (
          ap (λ (x : Result (Unit {0}) × World). x.0) done,
          ap (λ (x : Result (Unit {0}) × World). x.1.sent) done
              ∙ append_assoc w.sent (in_progress_body ∷ []) (final account ∷ []),
        )

    -- With a callback_url, and a first delivery that does not raise, if the context of the payload is
    -- null, the task reports that it is in progress and then ends with an AttributeError: the outcome is
    -- never reported.
    pub run_single_hangs :
        (payload : Fields)
        → truthy (get "callback_url" envelope) ≡ true
        → get "payload" envelope ≡ obj payload
        → context_of payload ≡ null
        → (patch_callback settings first).1 ≢ raised
        → run ≡ (err attribute_error, after_first)
    unfolding run_single
    run_single_hangs payload url load ctx a =
        follow_ok _ (reported (truthy (get "callback_url" envelope)) first in_progress_body w url a)
        ∙ follow_err {m = (account_of envelope, after_first)} _
            (ap (λ r. (r, after_first)) (no_account payload load ctx))
