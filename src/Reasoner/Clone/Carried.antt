-- ===== src/Reasoner/Clone/Carried.antt =====
-- reasoner.py: what the clone of an envelope carries over.
use marketer.Prelude.{
  ℕ, String, Bool, true, false, not, Option, none, some, List, [], ◌∷◌, ◌≡◌, refl, sym, subst, ap,
  ◌∙◌, arith, ◌==◌, eq_iff, eq_refl, contains,
}
use marketer.Value.{
  Value, str, bool, int, float, arr, obj, null, Fields, end, field, nil, Result, ok, err, Exc,
  attribute_error, type_error, get, ◌>>=◌,
}
use marketer.Schemas.{SubscriptionJob}
use marketer.Normalizer.Jobs.{scan_jobs, extract_subscription_jobs}
use marketer.Reasoner.Clone.{
  set_field, find_field, as_object, describe_request, request_of_job, rebuild,
  clone_envelope_for_job,
}

pub get-set_field : (k : String) (v : Value) (fs : Fields) → get k (set_field k v fs) ≡ v
unfolding set_field
get-set_field k v end = ground (arith, eq_refl k)
get-set_field k v (field j w fs) = ground (arith, get-set_field k v fs)

get-set_other :
    (k j : String) (v : Value) (fs : Fields)
    → (k == j) ≡ false
    → get j (set_field k v fs) ≡ get j fs
unfolding set_field
get-set_other k j v end h = ground arith
get-set_other k j v (field i w fs) h =
    ground (arith, get-set_other k j v fs h, eq_iff i k, eq_iff i j)

-- the fields of a dictionary, and none of anything else
abbrev pub fields_of : Value → Fields
fields_of (obj fs) = fs
fields_of _ = end

abbrev or_null : Option Value → Value
or_null none = null
or_null (some v) = v

get-find_field : (k : String) (fs : Fields) → or_null (find_field k fs) ≡ get k fs
unfolding find_field
get-find_field k end = refl
get-find_field k (field j v fs) = ground (arith, get-find_field k fs)

as_object-fields_of :
    (e : Exc) (o : Option Value) (p : Fields) → as_object e o ≡ ok p → fields_of (or_null o) ≡ p
as_object-fields_of e none p h = cc
as_object-fields_of e (some (obj fs)) p h = cc
as_object-fields_of e (some (str s)) p h = cc
as_object-fields_of e (some (bool b)) p h = cc
as_object-fields_of e (some (int z)) p h = cc
as_object-fields_of e (some (float b r)) p h = cc
as_object-fields_of e (some (arr vs)) p h = cc
as_object-fields_of e (some null) p h = cc

abbrev payload_of : Fields → Fields
payload_of envelope = fields_of (get "payload" envelope)

abbrev request_of : Fields → Fields
request_of envelope = fields_of (get "client_request" (payload_of envelope))

abbrev is_other : String → List String → Bool
is_other k names = not (contains k names)

-- What a clone has of its envelope and of its job.
pub record IsClone (envelope : Fields) (job : SubscriptionJob) (clone : Fields) : Type 0 where
  pub action_lem : get "action_code" clone ≡ str job.action_key
  pub envelope_kept :
      (k : String)
      → is_other k ("action_code" ∷ "payload" ∷ []) ≡ true
      → get k clone ≡ get k envelope
  pub payload_kept :
      (k : String)
      → is_other k ("client_request" ∷ []) ≡ true
      → get k (payload_of clone) ≡ get k (payload_of envelope)
  pub request_kept :
      (k : String)
      → is_other k ("jobs" ∷ "description" ∷ []) ≡ true
      → get k (request_of clone) ≡ get k (request_of envelope)
  pub described :
      (d : String)
      → job.description ≡ some d
      → (d == "") ≡ false
      → get "description" (request_of clone) ≡ str d
  pub no_jobs :
      (lower : String → String) (show : ℕ → String)
      → extract_subscription_jobs lower show (request_of clone) ≡ ok ([], [])

described_get :
    (o : Option String) (d : String) (fs : Fields)
    → o ≡ some d
    → (d == "") ≡ false
    → get "description" (describe_request o fs) ≡ str d
described_get none d fs h e = cc
described_get (some c) d fs h e = ground (arith, get-set_field "description" (str c) fs)

described_other :
    (o : Option String) (k : String) (fs : Fields)
    → (k == "description") ≡ false
    → get k (describe_request o fs) ≡ get k fs
described_other none k fs h = refl
described_other (some c) k fs h =
    ground (arith, get-set_other "description" k (str c) fs, eq_iff "description" k)

payload_of-rebuild :
    (envelope : Fields) (job : SubscriptionJob) (payload request : Fields)
    → payload_of (rebuild envelope job payload request)
      ≡ set_field "client_request" (obj (request_of_job job request)) payload
payload_of-rebuild envelope job payload request = ap fields_of (get-set_field "payload" _ _)

request_of-rebuild :
    (envelope : Fields) (job : SubscriptionJob) (payload request : Fields)
    → request_of (rebuild envelope job payload request) ≡ request_of_job job request
request_of-rebuild envelope job payload request =
    ap (λ p. fields_of (get "client_request" p)) (payload_of-rebuild envelope job payload request)
    ∙ ap fields_of (get-set_field "client_request" _ _)

jobs_of_request :
    (lower : String → String) (show : ℕ → String) (fs : Fields)
    → get "jobs" fs ≡ arr nil
    → extract_subscription_jobs lower show fs ≡ ok ([], [])
unfolding extract_subscription_jobs scan_jobs
jobs_of_request lower show fs h = rw (h, extract_subscription_jobs) refl

get_outer :
    (envelope : Fields) (job : SubscriptionJob) (v : Value) (k : String)
    → is_other k ("action_code" ∷ "payload" ∷ []) ≡ true
    → get k (set_field "payload" v (set_field "action_code" (str job.action_key) envelope))
      ≡ get k envelope
get_outer envelope job v k h =
    get-set_other "payload" k v _ (ground (arith, eq_iff "payload" k, eq_iff k "payload"))
    ∙ get-set_other "action_code" k (str job.action_key) envelope
        (ground (arith, eq_iff "action_code" k, eq_iff k "action_code"))

get_request :
    (job : SubscriptionJob) (k : String) (fs : Fields)
    → is_other k ("jobs" ∷ "description" ∷ []) ≡ true
    → get k (request_of_job job fs) ≡ get k fs
get_request job k fs h =
    described_other job.description k _
      (ground (arith, eq_iff "description" k, eq_iff k "description"))
    ∙ get-set_other "jobs" k (arr nil) fs (ground (arith, eq_iff "jobs" k, eq_iff k "jobs"))

rebuild-IsClone :
    (envelope : Fields) (job : SubscriptionJob) (payload request : Fields)
    → payload_of envelope ≡ payload
    → fields_of (get "client_request" payload) ≡ request
    → IsClone envelope job (rebuild envelope job payload request)
rebuild-IsClone envelope job payload request p r =
    let inner = payload_of-rebuild envelope job payload request in
    let core = request_of-rebuild envelope job payload request in
    record {
      action_lem =
          get-set_other "payload" "action_code" _ _ refl
          ∙ get-set_field "action_code" (str job.action_key) envelope;
      envelope_kept = get_outer envelope job _;
      payload_kept = λ k h.
          ap (get k) inner
          ∙ (get-set_other "client_request" k _ payload
                (ground (arith, eq_iff "client_request" k, eq_iff k "client_request"))
              ∙ ap (get k) (sym p));
      request_kept = λ k h.
          ap (get k) core
          ∙ (get_request job k request h
              ∙ ap (get k) (sym r ∙ ap (λ q. fields_of (get "client_request" q)) (sym p)));
      described = λ d e n. ap (get "description") core ∙ described_get job.description d _ e n;
      no_jobs = λ lower show. jobs_of_request lower show _ (
          ap (get "jobs") core
          ∙ (described_other job.description "jobs" _ refl
              ∙ get-set_field "jobs" (arr nil) request));
    }

abbrev Cloned : Fields → SubscriptionJob → Result Fields → Type 0
Cloned envelope job (err e) = Unit
Cloned envelope job (ok c) = IsClone envelope job c

request-Cloned :
    (envelope : Fields) (job : SubscriptionJob) (payload : Fields) (s : Result Fields)
    → payload_of envelope ≡ payload
    → as_object type_error (find_field "client_request" payload) ≡ s
    → Cloned envelope job (s >>= (λ request. ok (rebuild envelope job payload request)))
request-Cloned envelope job payload (err e) p h = tt
request-Cloned envelope job payload (ok request) p h =
    rebuild-IsClone envelope job payload request p (
      ap fields_of (sym (get-find_field "client_request" payload))
      ∙ as_object-fields_of type_error _ request h)

payload-Cloned :
    (envelope : Fields) (job : SubscriptionJob) (s : Result Fields)
    → as_object attribute_error (find_field "payload" envelope) ≡ s
    → Cloned envelope job (
        s >>= (λ payload.
          as_object type_error (find_field "client_request" payload)
          >>= (λ request. ok (rebuild envelope job payload request))))
payload-Cloned envelope job (err e) h = tt
payload-Cloned envelope job (ok payload) h =
    request-Cloned envelope job payload _
      (ap fields_of (sym (get-find_field "payload" envelope))
        ∙ as_object-fields_of attribute_error _ payload h)
      refl

-- The clone of an envelope for a job has the action of the job, its description if that is not empty,
-- and no jobs, so that their extraction gives none; every other field of the envelope, of its payload
-- and of its request reads as before.
pub clone_envelope_for_job-IsClone :
    (envelope : Fields) (job : SubscriptionJob) (clone : Fields)
    → clone_envelope_for_job envelope job ≡ ok clone
    → IsClone envelope job clone
unfolding clone_envelope_for_job
clone_envelope_for_job-IsClone envelope job clone h =
    subst (Cloned envelope job) h (payload-Cloned envelope job _ refl)
