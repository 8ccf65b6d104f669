-- ===== src/Reasoner/Clone.antt =====
-- reasoner.py: `_clone_envelope_for_job`, the envelope of one job of a batch.
pub mod Carried
use marketer.Prelude.{
  ℕ, String, Bool, true, false, ◌&&◌, not, Option, none, some, List, [], ◌∷◌, ◌≡◌, ◌≢◌, refl, sym,
  subst, ap, ◌∙◌, arith, ◌==◌, eq_iff, eq_refl, contains, if◌then◌else◌,
}
use marketer.Value.{
  Value, str, bool, int, float, arr, obj, null, Fields, end, field, nil, Result, ok, err, Exc,
  attribute_error, type_error, get, ◌>>=◌,
}
use marketer.Schemas.{SubscriptionJob}
use marketer.Normalizer.Jobs.{scan_jobs, extract_subscription_jobs}

-- `d[k] = v`: a key that is there keeps its place
unfoldable pub set_field : String → Value → Fields → Fields
set_field k v end = field k v end
set_field k v (field j w fs) =
    let rest = set_field k v fs in if j == k then field j v fs else field j w rest

-- `k in d`, with its value
unfoldable pub find_field : String → Fields → Option Value
find_field k end = none
find_field k (field j v fs) = let rest = find_field k fs in if j == k then some v else rest

-- `d.setdefault(k, {})`, where what is done to the result fails unless it is a dictionary
abbrev pub as_object : Exc → Option Value → Result Fields
as_object e none = ok end
as_object e (some (obj fs)) = ok fs
as_object e (some v) = err e

abbrev pub describe_request : Option String → Fields → Fields
describe_request none fs = fs
describe_request (some d) fs = if d == "" then fs else set_field "description" (str d) fs

abbrev pub request_of_job : SubscriptionJob → Fields → Fields
request_of_job job fs = describe_request job.description (set_field "jobs" (arr nil) fs)

abbrev pub rebuild : Fields → SubscriptionJob → Fields → Fields → Fields
rebuild envelope job payload request =
    set_field "payload"
      (obj (set_field "client_request" (obj (request_of_job job request)) payload))
      (set_field "action_code" (str job.action_key) envelope)

unfoldable pub clone_envelope_for_job : Fields → SubscriptionJob → Result Fields
clone_envelope_for_job envelope job =
    as_object attribute_error (find_field "payload" envelope) >>= (λ payload.
      as_object type_error (find_field "client_request" payload)
      >>= (λ request. ok (rebuild envelope job payload request)))
