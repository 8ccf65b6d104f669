-- ===== src/Dispatch/Ingest.antt =====
-- main.py: `POST /tasks`. The request's body is what `request.json()` gives, if it does not raise.
pub mod Acceptance
use Prim.Native.String.{◌++◌ as str_append}
use marketer.Prelude.{
  ℕ, String, Bool, true, false, Option, none, some, List, [], ◌∷◌, ◌++◌, ◌==◌, if◌then◌else◌,
}
use marketer.Value.{
  Value, null, bool, int, float, str, arr, obj, Fields, end, field, Result, ok, err, Exc,
  type_error, truthy, get, ◌>>=◌,
}
use marketer.Db.Session.{Sess}
use marketer.Persistence.{PersistCtx, persist_on_ingest}
use marketer.Catalog.{ActionRecord, Entries, Cache, Cached, lookup, ensure_fresh}
use marketer.Dispatch.Delivery.{Settings}

pub record Request : Type 0 where
  pub authorization : Option String
  pub body : Option Value

pub data Refusal : Type 0 where
  invalid_token invalid_json not_an_object no_task_id no_callback_url no_gemini_key action_unknown
        action_not_enabled :
      Refusal

unfoldable pub status_code : Refusal → ℕ
status_code Refusal.invalid_token = 401
status_code Refusal.invalid_json = 400
status_code Refusal.not_an_object = 400
status_code Refusal.no_task_id = 400
status_code Refusal.no_callback_url = 400
status_code Refusal.no_gemini_key = 503
status_code Refusal.action_unknown = 422
status_code Refusal.action_not_enabled = 422

-- the 202, with the task's identifier, or an `HTTPException`
pub data Answer : Type 0 where
  accepted : Value → Answer
  refused : Refusal → Answer

-- The process: the cache, the database, and the background tasks that were added.
pub record Service : Type 0 where
  pub cache : Cache
  pub sess : Sess
  pub background : List (Fields × Option PersistCtx)

abbrev same_text : Option String → String → Bool
same_text none s = false
same_text (some a) s = a == s

unfoldable pub check_inbound_auth : Settings → Option String → Option Refusal
check_inbound_auth settings authorization =
    if settings.inbound_token == ""
    then none
    else if same_text authorization (str_append "Bearer " settings.inbound_token)
    then none
    else some Refusal.invalid_token

-- `envelope.get(k, "")`
abbrev pub get_or_blank : String → Fields → Value
get_or_blank k end = str ""
get_or_blank k (field j v fs) = if j == k then v else get_or_blank k fs

-- `_cache.get(code)`: a list or a dictionary cannot be a key
unfoldable pub find_code : Value → Entries → Result (Option ActionRecord)
find_code (str code) m = ok (lookup code m)
find_code (arr _) m = err type_error
find_code (obj _) m = err type_error
find_code _ m = ok none

abbrev pub then_find : Value → Cached (Unit {0}) → Cached (Option ActionRecord)
then_find code (ok _, (c, s)) = (find_code code c.entries, (c, s))
then_find code (err e, r) = (err e, r)

module _ (settings : Settings) (configured : Bool) (uuid : String → Option ℕ) (t u v : ℕ) where
  abbrev pub accept : Fields → Service → Result (Option PersistCtx) × Sess → Result Answer × Service
  accept env svc (ok pctx, s) = (
    ok (accepted (get "task_id" env)),
    record svc { sess = s; background = svc.background ++ (env, pctx) ∷ [] },
  )
  accept env svc (err e, s) = (err e, record svc { sess = s })

  abbrev pub enqueue : Fields → Service → Result Answer × Service
  enqueue env svc = accept env svc (persist_on_ingest configured uuid env svc.sess)

  abbrev pub with_record : Fields → Service → Option ActionRecord → Result Answer × Service
  with_record env svc none = (ok (refused Refusal.action_unknown), svc)
  with_record env svc (some r) =
      if r.is_enabled then enqueue env svc else (ok (refused Refusal.action_not_enabled), svc)

  abbrev pub with_catalog :
      Fields → Service → Cached (Option ActionRecord) → Result Answer × Service
  with_catalog env svc (ok o, (c, s)) = with_record env (record svc { cache = c; sess = s }) o
  with_catalog env svc (err e, (c, s)) = (err e, record svc { cache = c; sess = s })

  abbrev pub at_catalog : Fields → Service → Result Answer × Service
  at_catalog env svc =
      if configured
      then with_catalog env svc (
          then_find (get_or_blank "action_code" env)
            (ensure_fresh configured t u v svc.cache svc.sess))
      else enqueue env svc

  abbrev pub at_fields : Fields → Service → Result Answer × Service
  at_fields env svc =
      if truthy (get "task_id" env)
      then if truthy (get "callback_url" env)
        then if settings.gemini_api_key == ""
          then (ok (refused Refusal.no_gemini_key), svc)
          else at_catalog env svc
        else (ok (refused Refusal.no_callback_url), svc)
      else (ok (refused Refusal.no_task_id), svc)

  abbrev pub at_body : Option Value → Service → Result Answer × Service
  at_body (some (obj env)) svc = at_fields env svc
  at_body (some _) svc = (ok (refused Refusal.not_an_object), svc)
  at_body none svc = (ok (refused Refusal.invalid_json), svc)

  abbrev pub at_auth : Option Refusal → Option Value → Service → Result Answer × Service
  at_auth (some r) body svc = (ok (refused r), svc)
  at_auth none body svc = at_body body svc

  unfoldable pub run_task : Request → Service → Result Answer × Service
  run_task req svc = at_auth (check_inbound_auth settings req.authorization) req.body svc
