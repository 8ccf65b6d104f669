-- ===== src/Dispatch/Ingest/Acceptance.antt =====
-- main.py: when `POST /tasks` accepts a task, and what it then leaves to do.
use marketer.Prelude.{
  ℕ, String, Bool, true, false, Option, none, some, List, [], ◌∷◌, ◌++◌, ◌≡◌, refl, ◌==◌,
  if◌then◌else◌, ap, ◌∙◌,
}
use marketer.Value.{Value, str, obj, Fields, Result, ok, err, Exc, attribute_error, truthy, get}
use marketer.Db.Session.{Sess, swallow, session_scope}
use marketer.Persistence.{PersistCtx, persist_on_ingest, ingest_read, ingest_rows}
use marketer.Db.Repositories.{NewBrief}
use marketer.Persistence.Input.{read_ingest}
use marketer.Catalog.{ActionRecord, Cached, lookup, ensure_fresh}
use marketer.Dispatch.Delivery.{Settings}
use marketer.Dispatch.Ingest.{
  Request, Refusal, Answer, accepted, refused, Service, check_inbound_auth, get_or_blank, find_code,
  then_find, accept, enqueue, with_record, with_catalog, at_catalog, at_fields, at_body, at_auth,
  run_task,
}

module _ (settings : Settings) (configured : Bool) (uuid : String → Option ℕ) (t u v : ℕ) where
  -- The task that was added, if the answer is a 202; no task, if it is not.
  abbrev pub Scheduled : List (Fields × Option PersistCtx) → Result Answer × Service → Type 0
  Scheduled before (ok (accepted id), svc) =
      (env : Fields) × (pctx : Option PersistCtx) × (svc.background ≡ before ++ (env, pctx) ∷ [])
      × (id ≡ get "task_id" env)
      × (truthy (get "task_id" env) ≡ true)
      × (truthy (get "callback_url" env) ≡ true)
  Scheduled before (ok (refused r), svc) = svc.background ≡ before
  Scheduled before (err e, svc) = svc.background ≡ before

  Named : Fields → Type 0
  Named env = (truthy (get "task_id" env) ≡ true) × (truthy (get "callback_url" env) ≡ true)

  accept_schedules :
      (env : Fields) (svc : Service) (r : Result (Option PersistCtx) × Sess)
      → truthy (get "task_id" env) ≡ true
      → truthy (get "callback_url" env) ≡ true
      → Scheduled svc.background (accept settings configured uuid t u v env svc r)
  accept_schedules env svc (ok pctx, s) a b = (env, pctx, refl, refl, a, b)
  accept_schedules env svc (err e, s) a b = refl

  with_record_schedules :
      (env : Fields) (svc : Service) (o : Option ActionRecord)
      → truthy (get "task_id" env) ≡ true
      → truthy (get "callback_url" env) ≡ true
      → Scheduled svc.background (with_record settings configured uuid t u v env svc o)
  with_record_schedules env svc none a b = refl
  with_record_schedules env svc (some r) a b = at_flag r.is_enabled
    where
      at_flag :
          (e : Bool)
          → Scheduled svc.background (
              if e
              then enqueue settings configured uuid t u v env svc
              else (ok (refused Refusal.action_not_enabled), svc))
      at_flag true = accept_schedules env svc (persist_on_ingest configured uuid env svc.sess) a b
      at_flag false = refl

  with_catalog_schedules :
      (env : Fields) (svc : Service) (x : Cached (Option ActionRecord))
      → truthy (get "task_id" env) ≡ true
      → truthy (get "callback_url" env) ≡ true
      → Scheduled svc.background (with_catalog settings configured uuid t u v env svc x)
  with_catalog_schedules env svc (ok o, (c, s)) a b =
      with_record_schedules env (record svc { cache = c; sess = s }) o a b
  with_catalog_schedules env svc (err e, (c, s)) a b = refl

  at_catalog_schedules :
      (env : Fields) (svc : Service)
      → truthy (get "task_id" env) ≡ true
      → truthy (get "callback_url" env) ≡ true
      → (b : Bool)
      → Scheduled svc.background (
          if b
          then with_catalog settings configured uuid t u v env svc (
              then_find
                (get_or_blank "action_code" env)
                (ensure_fresh configured t u v svc.cache svc.sess))
          else enqueue settings configured uuid t u v env svc)
  at_catalog_schedules env svc a b true = with_catalog_schedules env svc _ a b
  at_catalog_schedules env svc a b false =
      accept_schedules env svc (persist_on_ingest configured uuid env svc.sess) a b

  at_fields_schedules :
      (env : Fields) (svc : Service)
      → Scheduled svc.background (at_fields settings configured uuid t u v env svc)
  at_fields_schedules env svc =
      at_tests (truthy (get "task_id" env)) (truthy (get "callback_url" env))
        (settings.gemini_api_key == "") refl refl
    where
      at_tests :
          (a b k : Bool)
          → truthy (get "task_id" env) ≡ a
          → truthy (get "callback_url" env) ≡ b
          → Scheduled svc.background (
              if a
              then if b
                then if k
                  then (ok (refused Refusal.no_gemini_key), svc)
                  else at_catalog settings configured uuid t u v env svc
                else (ok (refused Refusal.no_callback_url), svc)
              else (ok (refused Refusal.no_task_id), svc))
      at_tests true true true p q = refl
      at_tests true true false p q = at_catalog_schedules env svc p q configured
      at_tests true false k p q = refl
      at_tests false b k p q = refl

  at_body_schedules :
      (body : Option Value) (svc : Service)
      → Scheduled svc.background (at_body settings configured uuid t u v body svc)
  at_body_schedules (some (obj env)) svc = at_fields_schedules env svc
  at_body_schedules (some _) svc = refl
  at_body_schedules none svc = refl

  at_auth_schedules :
      (r : Option Refusal) (body : Option Value) (svc : Service)
      → Scheduled svc.background (at_auth settings configured uuid t u v r body svc)
  at_auth_schedules (some r) body svc = refl
  at_auth_schedules none body svc = at_body_schedules body svc

  -- A request that gets a 202 adds exactly one background task, for an envelope that has a task_id,
  -- which is the one in the answer, and a callback_url; a request that is refused, or whose handler
  -- raises, adds none.
  pub run_task_schedules :
      (req : Request) (svc : Service)
      → Scheduled svc.background (run_task settings configured uuid t u v req svc)
  unfolding run_task
  run_task_schedules req svc =
      at_auth_schedules (check_inbound_auth settings req.authorization) req.body svc

module _ (settings : Settings) (uuid : String → Option ℕ) (t u v : ℕ) where
  accept_answer :
      (env : Fields) (svc : Service) (r : Result (Option PersistCtx) × Sess) {o : Option PersistCtx}
      → r.0 ≡ ok o
      → (accept settings true uuid t u v env svc r).0 ≡ ok (accepted (get "task_id" env))
  accept_answer env svc (ok p, s) h = refl
  accept_answer env svc (err e, s) h = cc

  accept_raises :
      (env : Fields) (svc : Service) (r : Result (Option PersistCtx) × Sess) (e : Exc)
      → r.0 ≡ err e
      → (accept settings true uuid t u v env svc r).0 ≡ err e
  accept_raises env svc (ok p, s) e h = cc
  accept_raises env svc (err x, s) e h = cc

  persist_returns :
      (env : Fields) (b : Option NewBrief) (s : Sess)
      → (o : Option PersistCtx) × ((ingest_read (ok b) s).0 ≡ ok o)
  persist_returns env none s = (none, refl)
  persist_returns env (some b) s = ((swallow none (session_scope (ingest_rows b)) s).0, refl)

  -- a request that passes every test before the persistence hook
  pub record IsAdmitted (req : Request) (svc : Service) (env : Fields) : Type 0 where
    pub code : String
    pub action : ActionRecord
    pub authorized : check_inbound_auth settings req.authorization ≡ none
    pub has_body : req.body ≡ some (obj env)
    pub has_task : truthy (get "task_id" env) ≡ true
    pub has_url : truthy (get "callback_url" env) ≡ true
    pub has_key : (settings.gemini_api_key == "") ≡ false
    pub named : get_or_blank "action_code" env ≡ str code
    pub fresh : ensure_fresh true t u v svc.cache svc.sess ≡ (ok tt, (svc.cache, svc.sess))
    pub known : lookup code svc.cache.entries ≡ some action
    pub enabled : action.is_enabled ≡ true

  run_task-admitted :
      (req : Request) (svc : Service) (env : Fields)
      → IsAdmitted req svc env
      → run_task settings true uuid t u v req svc ≡ enqueue settings true uuid t u v env svc
  unfolding run_task find_code
  run_task-admitted req svc env h =
      rw (h.authorized, h.has_body)
        (rw (h.has_task, h.has_url, h.has_key) (rw (h.named, h.fresh) (rw h.known (rw h.enabled))))

  -- A request that is admitted, with a catalog that is fresh, and whose payload can be read is accepted,
  -- whatever statements of the database then fail.
  pub run_task_accepts :
      (req : Request) (svc : Service) (env : Fields) (b : Option NewBrief)
      → IsAdmitted req svc env
      → read_ingest uuid env ≡ ok b
      → (run_task settings true uuid t u v req svc).0 ≡ ok (accepted (get "task_id" env))
  unfolding persist_on_ingest
  run_task_accepts req svc env b h readable =
      ap (λ (x : Result Answer × Service). x.0) (run_task-admitted req svc env h)
      ∙ accept_answer env svc (ingest_read (read_ingest uuid env) svc.sess)
          {o = (persist_returns env b svc.sess).0} (rw readable (persist_returns env b svc.sess).1)

  -- An admitted request whose payload is a text that is not empty raises instead of being accepted.
  pub run_task_raises :
      (req : Request) (svc : Service) (env : Fields) (p : String)
      → IsAdmitted req svc env
      → get "payload" env ≡ str p
      → (p == "") ≡ false
      → (run_task settings true uuid t u v req svc).0 ≡ err attribute_error
  unfolding persist_on_ingest read_ingest
  run_task_raises req svc env p h payload full =
      ap (λ (x : Result Answer × Service). x.0) (run_task-admitted req svc env h)
      ∙ accept_raises env svc (ingest_read (read_ingest uuid env) svc.sess) attribute_error
          (rw payload (rw full))
