-- ===== src/Dispatch/Background.antt =====
-- main.py: `_run_and_callback`, for an action other than subscription_strategy. The fetches, `reason`
-- and the text of an exception are parameters. No handler tells apart what escapes from a delivery:
-- runtime_error stands for it.
pub mod Reports
use marketer.Prelude.{
  ℕ, String, Bool, true, false, ◌&&◌, ◌||◌, not, Option, none, some, List, [], ◌∷◌, ◌++◌, ◌==◌,
  if◌then◌else◌,
}
use marketer.Value.{
  Value, null, bool, int, float, str, arr, obj, Fields, end, field, Result, ok, err, Exc,
  type_error, runtime_error, truthy, get, get_attr, or_empty,
}
use marketer.Schemas.{CallbackBody, Status, failed_body}
use marketer.Db.Session.{Sess}
use marketer.Persistence.{PersistCtx, persist_user_profile, persist_on_complete}
use marketer.Dispatch.Delivery.{Settings, Reply, Outcome, delivered, failed, raised, patch_callback}

-- a `UserProfile`: what is stored of it, and whether it has an identity
pub record Profile : Type 0 where
  pub stored : Value
  pub has_identity : Bool

-- The database, and the bodies that were handed to `_patch_callback`, in order.
pub record World : Type 0 where
  pub sess : Sess
  pub sent : List CallbackBody

abbrev pub Task : Type 0 → Type 0
Task A = World → Result A × World

abbrev pub follow : {A B : Type 0} → Result A × World → (A → Task B) → Result B × World
follow (ok a, w) k = k a w
follow (err e, w) k = (err e, w)

infixl 5 ◌>>=◌
abbrev pub ◌>>=◌ : {A B : Type 0} → Task A → (A → Task B) → Task B
(m >>= k) w = follow (m w) k

abbrev pub lift : {A : Type 0} → Result A → Task A
lift r w = (r, w)

abbrev pub in_progress_body : CallbackBody
in_progress_body = record { status = Status.in_progress; output_data = none; error_message = none }

abbrev pub escaped : Outcome → Result (Unit {0})
escaped delivered = ok tt
escaped failed = ok tt
escaped raised = err runtime_error

-- `await _patch_callback(...)`
abbrev pub report : Settings → (ℕ → Reply) → CallbackBody → Task (Unit {0})
report settings server body w =
    (escaped (patch_callback settings server).1, record w { sent = w.sent ++ body ∷ [] })

-- `(envelope.get("payload") or {}).get("context", {}).get("account_uuid")`
abbrev pub context_of : Fields → Value
context_of end = obj end
context_of (field j v fs) = if j == "context" then v else context_of fs

abbrev payload_context : Value → Result Value
payload_context (obj fs) = ok (context_of fs)
payload_context v = get_attr "context" v

abbrev then_account : Result Value → Result Value
then_account (ok v) = get_attr "account_uuid" v
then_account (err e) = err e

unfoldable pub account_of : Fields → Result Value
account_of envelope = then_account (payload_context (or_empty (get "payload" envelope)))

-- `len(v or "")`
abbrev measure : Value → Result (Unit {0})
measure (str s) = ok tt
measure (arr vs) = ok tt
measure (obj fs) = ok tt
measure v = if truthy v then err type_error else ok tt

abbrev measured : Result Value → Result (Unit {0})
measured (ok v) = measure v
measured (err e) = err e

abbrev requested : Result Value → Result (Unit {0})
requested (ok v) = measured (get_attr "description" (or_empty v))
requested (err e) = err e

-- what the log line after `reason` reads of the request
unfoldable pub log_request : Fields → Result (Unit {0})
log_request envelope = requested (get_attr "client_request" (or_empty (get "payload" envelope)))

abbrev pub usp_configured : Settings → Bool
usp_configured settings = not (settings.usp_api_key == "") && not (settings.usp_graphql_url == "")

abbrev pub gallery_configured : Settings → Bool
gallery_configured settings =
    not (settings.gallery_api_url == "") && not (settings.gallery_api_key == "")

-- the profile and its warning, when the fetch was made
unfoldable pub resolve_usp : Result (Option Profile) → Option Profile × Option String
resolve_usp (err e) = (none, some "user_profile_unavailable")
resolve_usp (ok none) = (none, some "user_profile_unavailable")
resolve_usp (ok (some p)) = (some p, if p.has_identity then none else some "user_profile_not_found")

unfoldable pub resolve_gallery :
    {A : Type 0} → Result (Option A × Option String) → Option A × Option String
resolve_gallery (err e) = (none, some "gallery_api_unavailable")
resolve_gallery (ok r) = r

-- `except Exception`: a failed callback
unfoldable pub answer_of : (Exc → String) → Result CallbackBody → CallbackBody
answer_of text (ok cb) = cb
answer_of text (err e) = failed_body (text e)

module _ {Pool : Type 0} (settings : Settings) (configured : Bool) (dump : CallbackBody → Value)
    (text : Exc → String) (usp_fetch : Value → Result (Option Profile))
    (gallery_fetch : Value → Result (Option Pool × Option String))
    (reason : Option Profile × Option String
      → Option Pool × Option String
      → Result CallbackBody) where
  abbrev pub profile_of : Value → Option Profile × Option String
  profile_of account =
      if usp_configured settings && truthy account
      then resolve_usp (usp_fetch account)
      else (none, some "user_profile_skipped")

  abbrev pub pool_of : Value → Option Pool × Option String
  pool_of account =
      if gallery_configured settings && truthy account
      then resolve_gallery (gallery_fetch account)
      else (none, some "gallery_api_skipped")

  abbrev pub store_profile : Option PersistCtx → Option Profile → Task (Unit {0})
  store_profile (some pctx) (some p) w = (
    ok tt,
    record w { sess = (persist_user_profile configured pctx.raw_brief_id p.stored w.sess).1 },
  )
  store_profile _ _ w = (ok tt, w)

  abbrev pub store_outcome : Option PersistCtx → Fields → ℕ → CallbackBody → Task (Unit {0})
  store_outcome (some pctx) envelope latency cb w = (
    ok tt,
    record w { sess = (persist_on_complete dump pctx envelope latency configured cb w.sess).1 },
  )
  store_outcome none envelope latency cb w = (ok tt, w)

  abbrev pub report_if : Bool → (ℕ → Reply) → CallbackBody → Task (Unit {0})
  report_if b server body w = if b then report settings server body w else (ok tt, w)

  -- the callback that a task gets for its account
  abbrev pub callback_for : Value → CallbackBody
  callback_for account = answer_of text (reason (profile_of account) (pool_of account))

  unfoldable pub run_single :
      Fields → Option PersistCtx → ℕ → (ℕ → Reply) → (ℕ → Reply) → Task (Unit {0})
  run_single envelope pctx latency first last = do
    _ ← report_if (truthy (get "callback_url" envelope)) first in_progress_body
    account ← lift (account_of envelope)
    _ ← store_profile pctx (profile_of account).0
    _ ← lift (log_request envelope)
    _ ← store_outcome pctx envelope latency (callback_for account)
    report_if (truthy (get "callback_url" envelope)) last (callback_for account)
