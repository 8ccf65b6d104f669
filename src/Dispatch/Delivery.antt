-- ===== src/Dispatch/Delivery.antt =====
-- main.py: `_patch_callback`, `_post_orch_job` and `_post_dispatcher`. What the other side answers
-- to attempt k is `server k`; the trace lists the requests and the sleeps.
pub mod Attempts
use Prim.Native.String.{◌++◌ as str_append}
use Prim.Native.Char.{code}
use marketer.Prelude.{
  ℕ, zero, suc, ◌+◌, ◌^◌, min, max, String, Bool, true, false, ◌&&◌, not, Option, none, some, List,
  [], ◌∷◌, ◌++◌, ◌==◌, ltb, leb, eqb, if◌then◌else◌,
}
use marketer.Value.{Value, str, Fields, end, field, obj}

-- `settings` (config.py), as far as the modelled code reads it. A number of attempts below zero acts
-- as zero does.
pub record Settings : Type 0 where
  pub gemini_api_key : String
  pub inbound_token : String
  pub orch_callback_api_key : String
  pub callback_retry_attempts : ℕ
  pub orch_api_base_url : String
  pub agentic_dispatcher_url : String
  pub usp_graphql_url : String
  pub usp_api_key : String
  pub gallery_api_url : String
  pub gallery_api_key : String

-- A response, an error that the loop catches (`httpx.HTTPError`, a timeout), or another exception.
pub data Reply : Type 0 where
  response : ℕ → Reply
  transport_error : Reply
  other_exception : Reply

pub data Event : Type 0 where
  request : ℕ → Event
  sleep : ℕ → Event

pub data Verdict : Type 0 where
  success again give_up raise : Verdict

pub data Outcome : Type 0 where
  delivered failed raised : Outcome

abbrev pub is_2xx : ℕ → Bool
is_2xx s = leb 200 s && ltb s 300

-- `_patch_callback` and `_post_dispatcher` try again after every other status
unfoldable pub plain_verdict : Reply → Verdict
plain_verdict (response s) = if is_2xx s then success else again
plain_verdict transport_error = again
plain_verdict other_exception = raise

-- `_post_orch_job`: a 4xx other than 409 is terminal
unfoldable pub orch_verdict : Reply → Verdict
orch_verdict (response s) =
    if is_2xx s
    then success
    else if leb 400 s && (ltb s 500 && not (eqb s 409))
    then give_up
    else again
orch_verdict transport_error = again
orch_verdict other_exception = raise

abbrev pub backoff : ℕ → ℕ
backoff attempt = min (2 ^ attempt) 8

-- `if attempt < attempts: await asyncio.sleep(...)`
abbrev pub pause : ℕ → ℕ → List Event
pause zero attempt = []
pause (suc left) attempt = sleep (backoff attempt) ∷ []

abbrev prefix : ℕ → ℕ → List Event × Outcome → List Event × Outcome
prefix left attempt (trace, o) = (request attempt ∷ (pause left attempt ++ trace), o)

-- `for attempt in range(1, attempts + 1)`, with the attempts that are left
unfoldable pub attempt_loop : (Reply → Verdict) → (ℕ → Reply) → ℕ → ℕ → List Event × Outcome
attempt_loop verdict server zero attempt = ([], failed)
attempt_loop verdict server (suc left) attempt =
    let later = prefix left attempt (attempt_loop verdict server left (suc attempt)) in
    elim (verdict (server attempt)) [
      | success ↦ (request attempt ∷ [], delivered)
      | again ↦ later
      | give_up ↦ (request attempt ∷ [], failed)
      | raise ↦ (request attempt ∷ [], raised)
    ]

-- `attempts = max(1, settings.callback_retry_attempts)`
abbrev pub attempts : Settings → ℕ
attempts settings = max 1 settings.callback_retry_attempts

abbrev optional_header : String → String → List (String × String) → List (String × String)
optional_header name v rest = if v == "" then rest else (name, v) ∷ rest

abbrev or_blank : Option String → String
or_blank none = ""
or_blank (some s) = s

unfoldable pub patch_headers : Settings → Option String → List (String × String)
patch_headers settings correlation_id =
    ("Content-Type", "application/json")
    ∷ optional_header "X-API-Key" settings.orch_callback_api_key
        (optional_header "X-Correlation-Id" (or_blank correlation_id) [])

unfoldable pub patch_callback : Settings → (ℕ → Reply) → List Event × Outcome
patch_callback settings server = attempt_loop plain_verdict server (attempts settings) 1

-- `s.rstrip("/")`
abbrev trim_head : ℕ → String → String → String
trim_head c whole rest = if eqb c b'/' && rest == "" then "" else whole

unfoldable pub rstrip_slash : String → String
rstrip_slash String.[] = ""
rstrip_slash (String.◌∷◌ c s) =
    let rest = rstrip_slash s in trim_head (code c) (String.◌∷◌ c rest) rest

unfoldable pub orch_headers : Settings → Option String → List (String × String)
orch_headers settings correlation_id =
    ("Content-Type", "application/json")
    ∷ ("X-Initiator", "marketer")
    ∷ optional_header "X-API-Key" settings.orch_callback_api_key
        (optional_header "X-Correlation-Id" (or_blank correlation_id) [])

abbrev optional_field : String → Option String → Fields → Fields
optional_field name none rest = rest
optional_field name (some v) rest = if v == "" then rest else field name (str v) rest

unfoldable pub idempotency_key : String → String → String
idempotency_key task_id db_job_id =
    str_append "marketer:" (str_append task_id (str_append ":" db_job_id))

unfoldable pub orch_body :
    String → Value → Value → Option String → String → String → Option String → Fields
orch_body action client_request context correlation_id task_id db_job_id initiator =
    field "action" (str action) (
      field "client_request" client_request (
        field "context" context (
          field "idempotency_key" (str (idempotency_key task_id db_job_id)) (
            optional_field "correlation_id" correlation_id
              (optional_field "initiator_callback_url" initiator end)))))

-- without a base URL no request is made
unfoldable pub post_orch_job : Settings → (ℕ → Reply) → List Event × Outcome
post_orch_job settings server =
    let sent = attempt_loop orch_verdict server (attempts settings) 1 in
    if rstrip_slash settings.orch_api_base_url == "" then ([], failed) else sent

unfoldable pub post_dispatcher : Settings → (ℕ → Reply) → List Event × Outcome
post_dispatcher settings server =
    let sent = attempt_loop plain_verdict server (attempts settings) 1 in
    if settings.agentic_dispatcher_url == "" then ([], failed) else sent
