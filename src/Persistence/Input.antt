-- ===== src/Persistence/Input.antt =====
-- persistence.py: what the hooks read from the envelope, before or while they write.
use marketer.Prelude.{ℕ, String, Option, none, some, ◌==◌, if◌then◌else◌}
use marketer.Value.{
  Value, str, obj, Fields, end, field, Result, ok, ◌>>=◌, get, get_attr, or_empty, as_str,
}
use marketer.Db.Repositories.{NewBrief}

-- `_parse_uuid`, with `uuid.UUID` as a parameter: `none` where that raises `ValueError`.
unfoldable pub parse_uuid : (String → Option ℕ) → Value → Option ℕ
parse_uuid uuid (str s) = if s == "" then none else uuid s
parse_uuid uuid _ = none

unfoldable pub distill_job_input : Fields → Result Value
distill_job_input envelope = do
  request ← get_attr "client_request" (or_empty (get "payload" envelope))
  context ← get_attr "context" (or_empty (get "payload" envelope))
  description ← get_attr "description" (or_empty request)
  account ← get_attr "account_uuid" (or_empty context)
  client ← get_attr "client_name" (or_empty context)
  platform ← get_attr "platform" (or_empty context)
  ok (
      obj (
        field "action_code" (get "action_code" envelope) (
          field "router_task_id" (get "task_id" envelope) (
            field "router_job_id" (get "job_id" envelope) (
              field "correlation_id" (get "correlation_id" envelope) (
                field "user_request" description (
                  field "account_uuid" account
                    (field "client_name" client (field "platform" platform end)))))))))

-- `if not isinstance(action_code, str) or not action_code`
abbrev pub non_empty_str : Value → Option String
non_empty_str (str s) = if s == "" then none else some s
non_empty_str _ = none

-- the three early returns of `persist_on_ingest`, in their order
abbrev brief_of :
    Option ℕ → Option ℕ → Option String → Option ℕ → Option String → Fields → Option NewBrief
brief_of (some user_id) (some router_task_id) (some action_code) job correlation envelope =
    some (record {
      user_id = user_id;
      router_task_id = router_task_id;
      action_code = action_code;
      envelope = obj envelope;
      router_job_id = job;
      router_correlation_id = correlation;
    })
brief_of _ _ _ _ _ _ = none

-- What `persist_on_ingest` reads before its `try`: nothing, if the envelope is not to be stored.
unfoldable pub read_ingest : (String → Option ℕ) → Fields → Result (Option NewBrief)
unfolding parse_uuid
read_ingest uuid envelope = do
  context ← get_attr "context" (or_empty (get "payload" envelope))
  account ← get_attr "account_uuid" (or_empty context)
  ok (
      brief_of (parse_uuid uuid account) (parse_uuid uuid (get "task_id" envelope))
        (non_empty_str (get "action_code" envelope)) (parse_uuid uuid (get "job_id" envelope))
        (as_str (get "correlation_id" envelope)) envelope)
