-- ===== src/Dispatch/Batch/Requested.antt =====
-- main.py: the envelope that `_run_multi_and_callback` makes for the language model path.
pub mod Reread
use marketer.Prelude.{
  ℕ, zero, suc, ◌+◌, String, Bool, true, false, Option, none, some, List, [], ◌∷◌, ◌++◌, ◌≡◌, refl,
  sym, subst, ap, ◌∙◌, arith, ◌==◌, All, contains, eq_refl, if◌then◌else◌,
}
use marketer.Value.{
  Value, null, int, pos, str, arr, obj, Items, nil, cons, Fields, end, field, Result, ok, err,
  truthy, get, get_attr, or_empty, ◌>>=◌,
}
use marketer.Schemas.{Warning, SubscriptionJob}
use marketer.Text.{lstrip, rstrip, strip}
use marketer.Normalizer.Clean.{clean_string}
use marketer.Normalizer.Jobs.{
  scan_jobs, extract_subscription_jobs, quantity_of, expand, describe, or_key, job_at, lacks_text,
  text_at, job_of, warnings_of,
}
use marketer.Reasoner.Clone.{set_field}
use marketer.Reasoner.Clone.Carried.{fields_of, get-set_field}
use marketer.Llm.{Client}
use marketer.Reasoner.Assembly.{Runtime}
use marketer.Reasoner.Multi.{Pairs, reason_multi}
use marketer.Reasoner.Fanout.{reason_multi_fanout}
use marketer.Dispatch.Batch.Flow.{jobs_in, jobs_of}

-- `v or default`
abbrev pub or_text : Option String → String → String
or_text none default = default
or_text (some s) default = if s == "" then default else s

abbrev pub opt_str : Option String → Value
opt_str none = null
opt_str (some s) = str s

abbrev pub llm_fields : SubscriptionJob → Fields
llm_fields j = field "action_key" (str j.action_key) (
    field "description" (opt_str j.description) (
      field "quantity" (int (pos 1)) (
        field "orchestrator_agent" (str (or_text j.orchestrator_agent "job-router")) (
          field "slug" (str (or_text j.slug ""))
            (field "product_uuid" (str (or_text j.product_uuid "")) end)))))

abbrev pub llm_item : SubscriptionJob → Value
llm_item j = obj (llm_fields j)

unfoldable pub llm_items : List SubscriptionJob → Items
llm_items [] = nil
llm_items (j ∷ js) = cons (llm_item j) (llm_items js)

abbrev pub payload_fields : Fields → Fields
payload_fields envelope = fields_of (or_empty (get "payload" envelope))

abbrev pub request_fields : Fields → Fields
request_fields envelope = fields_of (or_empty (get "client_request" (payload_fields envelope)))

abbrev pub llm_payload : Fields → List SubscriptionJob → Fields
llm_payload envelope jobs =
    set_field "client_request"
      (obj (set_field "jobs" (arr (llm_items jobs)) (request_fields envelope)))
      (payload_fields envelope)

-- `llm_envelope`
unfoldable pub llm_envelope : Fields → List SubscriptionJob → Fields
llm_envelope envelope jobs = set_field "payload" (obj (llm_payload envelope jobs)) envelope

-- A job as the model path gets it: numbered anew, once, and with an agent.
abbrev pub resent : SubscriptionJob → ℕ → SubscriptionJob
resent j i = record {
  action_key = j.action_key;
  description = j.description;
  index = i;
  quantity = 1;
  slug = j.slug;
  orchestrator_agent = some (or_text j.orchestrator_agent "job-router");
  product_uuid = j.product_uuid;
}

unfoldable pub renumber : ℕ → List SubscriptionJob → List SubscriptionJob
renumber n [] = []
renumber n (j ∷ js) = resent j n ∷ renumber (suc n) js

-- The choice of the model path by `llm_fanout_enabled`; both get the envelope with the LLM jobs only.
unfoldable pub model_path :
    Bool
    → Runtime
    → (ℕ → Client)
    → (ℕ → ℕ)
    → ℕ
    → ℕ
    → ℕ
    → Fields
    → List SubscriptionJob
    → Result Pairs
model_path true rt clients latencies latency max_tokens dna_tokens envelope jobs =
    (reason_multi_fanout rt max_tokens clients latencies dna_tokens (llm_envelope envelope jobs)
      []).0
model_path false rt clients latencies latency max_tokens dna_tokens envelope jobs =
    (reason_multi rt max_tokens (llm_envelope envelope jobs) latency []).0
