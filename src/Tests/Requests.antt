-- ===== src/Tests/Requests.antt =====
-- Requests to `POST /tasks`.
use marketer.Prelude.{true, none, some, [], ◌∷◌, ◌≡◌, refl}
use marketer.Value.{str, obj, Fields, end, field, ok, err, attribute_error}
use marketer.Catalog.{Cache, snapshot, lookup, ensure_fresh}
use marketer.Persistence.Input.{parse_uuid, read_ingest}
use marketer.Dispatch.Ingest.{Request, accepted, Service, check_inbound_auth, run_task}
use marketer.Dispatch.Ingest.Acceptance.{
  Scheduled, IsAdmitted, run_task_schedules, run_task_accepts, run_task_raises,
}
use marketer.Tests.Data.{sample_uuid, sample_settings, sample_envelope, post_action, new_tables}

abbrev warm_cache : Cache
warm_cache = record { entries = ("create_post", snapshot post_action) ∷ []; expires_at = 60000 }

abbrev down : Service
down = record {
  cache = warm_cache;
  sess = record { db = new_tables; faults = true ∷ true ∷ true ∷ [] };
  background = [];
}

abbrev request_of : Fields → Request
request_of env = record { authorization = some "Bearer secret"; body = some (obj env) }

abbrev text_envelope : Fields
text_envelope = field "task_id" (str "task") (
    field "callback_url" (str "https://router/cb")
      (field "action_code" (str "create_post") (field "payload" (str "text") end)))

run_task_schedules_example :
    Scheduled sample_settings true sample_uuid 5 5 5 []
      (run_task sample_settings true sample_uuid 5 5 5 (request_of sample_envelope) down)
run_task_schedules_example =
    run_task_schedules sample_settings true sample_uuid 5 5 5 (request_of sample_envelope) down

admitted :
    IsAdmitted sample_settings sample_uuid 5 5 5 (request_of sample_envelope) down sample_envelope
unfolding check_inbound_auth ensure_fresh lookup
admitted = record {
  code = "create_post";
  action = snapshot post_action;
  authorized = refl;
  has_body = refl;
  has_task = refl;
  has_url = refl;
  has_key = refl;
  named = refl;
  fresh = refl;
  known = refl;
  enabled = refl;
}

run_task_accepts_example :
    (run_task sample_settings true sample_uuid 5 5 5 (request_of sample_envelope) down).0
    ≡ ok (accepted (str "task"))
unfolding read_ingest parse_uuid
run_task_accepts_example =
    run_task_accepts sample_settings sample_uuid 5 5 5 (request_of sample_envelope) down
      sample_envelope
      (some (record {
        user_id = 1;
        router_task_id = 2;
        action_code = "create_post";
        envelope = obj sample_envelope;
        router_job_id = none;
        router_correlation_id = none;
      }))
      admitted refl

text-IsAdmitted :
    IsAdmitted sample_settings sample_uuid 5 5 5 (request_of text_envelope) down text_envelope
unfolding check_inbound_auth ensure_fresh lookup
text-IsAdmitted = record {
  code = "create_post";
  action = snapshot post_action;
  authorized = refl;
  has_body = refl;
  has_task = refl;
  has_url = refl;
  has_key = refl;
  named = refl;
  fresh = refl;
  known = refl;
  enabled = refl;
}

run_task_raises_example :
    (run_task sample_settings true sample_uuid 5 5 5 (request_of text_envelope) down).0
    ≡ err attribute_error
run_task_raises_example =
    run_task_raises sample_settings sample_uuid 5 5 5 (request_of text_envelope) down text_envelope
      "text" text-IsAdmitted refl refl
