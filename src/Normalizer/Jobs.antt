-- ===== src/Normalizer/Jobs.antt =====
-- normalizer.py: `_extract_subscription_jobs`. `lower` is `str.lower`, and `show` writes a number in
-- an f-string.
pub mod Expansion
pub mod Quantities
use Prim.Native.String.{◌++◌ as str_append}
use marketer.Prelude.{
  ℕ, zero, suc, ◌+◌, min, max, String, Bool, true, false, ◌&&◌, ◌||◌, Option, none, some, List, [],
  ◌∷◌, ◌++◌, ◌==◌, if◌then◌else◌,
}
use marketer.Value.{
  ℤ, pos, negsuc, Value, null, bool, int, float, str, arr, obj, Items, nil, cons, Fields, Result,
  ok, err, get, ◌>>=◌,
}
use marketer.Schemas.{Warning, SubscriptionJob}
use marketer.Normalizer.Clean.{clean_string}

abbrev pub max_quantity_per_job : ℕ
max_quantity_per_job = 10

-- `min(max(1, n), MAX_QUANTITY_PER_JOB)`
abbrev pub clamp : ℤ → ℕ
clamp (pos n) = min (max 1 n) max_quantity_per_job
clamp (negsuc n) = 1

-- The quantity of a raw value: `int` of a number (a bool is one), and 1 for anything else.
unfoldable pub quantity_of : Value → Result ℕ
quantity_of (int z) = ok (clamp z)
quantity_of (bool true) = ok 1
quantity_of (bool false) = ok 1
quantity_of (float nonzero (ok z)) = ok (clamp z)
quantity_of (float nonzero (err e)) = err e
quantity_of _ = ok 1

abbrev pub is_llm_key : String → Bool
is_llm_key k = k == "create_post" || k == "edit_post"

abbrev pub or_key : Option String → String → String
or_key none k = k
or_key (some s) k = s

-- The description of an LLM job that has none, derived from its slug or its key.
abbrev pub fallback_text : Option String → String → String
fallback_text (some slug) key = str_append "Generate a " (str_append slug " post")
fallback_text none key = str_append "Generate a " key

abbrev pub describe : Option String → Option String → String → Option String
describe (some d) slug key = some d
describe none slug key = if is_llm_key key then some (fallback_text slug key) else none

abbrev pub lacks_text : Option String → String → Bool
lacks_text (some d) key = false
lacks_text none key = is_llm_key key

-- The job of one raw item, before its index is known.
abbrev pub job_at : SubscriptionJob → ℕ → SubscriptionJob
job_at j i = record {
  action_key = j.action_key;
  description = j.description;
  index = i;
  quantity = j.quantity;
  slug = j.slug;
  orchestrator_agent = j.orchestrator_agent;
  product_uuid = j.product_uuid;
}

-- `for _ in range(n): expanded.append(...); seq_index += 1`
unfoldable pub expand : SubscriptionJob → ℕ → ℕ → List SubscriptionJob
expand j zero seq = []
expand j (suc n) seq = job_at j seq ∷ expand j n (suc seq)

module _ (lower : String → String) (show : ℕ → String) where
  abbrev pub text_at : String → Fields → Option String
  text_at key item = clean_string lower (get key item)

  abbrev pub place : ℕ → String
  place idx = str_append "jobs[" (str_append (show idx) "]")

  abbrev pub job_of : Fields → ℕ → SubscriptionJob
  job_of item quantity =
      let key = or_key (text_at "action_key" item) "create_prod_line" in
      record {
        action_key = key;
        description = describe (text_at "description" item) (text_at "slug" item) key;
        index = 0;
        quantity = quantity;
        slug = text_at "slug" item;
        orchestrator_agent = text_at "orchestrator_agent" item;
        product_uuid = text_at "product_uuid" item;
      }

  abbrev pub warnings_of : Fields → ℕ → List Warning
  warnings_of item idx =
      if lacks_text (text_at "description" item)
        (or_key (text_at "action_key" item) "create_prod_line")
      then (record {
        code = "job_missing_description_fallback";
        about = some (str_append (place idx) ".description");
      })
        ∷ []
      else []

  -- The loop over the raw jobs, at position `idx` and with `seq` jobs expanded so far.
  unfoldable pub scan_jobs : ℕ → ℕ → Items → Result (List SubscriptionJob × List Warning)
  scan_jobs idx seq nil = ok ([], [])
  scan_jobs idx seq (cons (obj item) rest) = quantity_of (get "quantity" item) >>= (λ n.
      scan_jobs (suc idx) (seq + n) rest
      >>= (λ (jobs, ws). ok (expand (job_of item n) n seq ++ jobs, warnings_of item idx ++ ws)))
  scan_jobs idx seq (cons _ rest) = scan_jobs (suc idx) seq rest >>= (λ (jobs, ws).
      ok (jobs, (record { code = "job_invalid"; about = some (place idx) }) ∷ ws))

  unfoldable pub extract_subscription_jobs : Fields → Result (List SubscriptionJob × List Warning)
  extract_subscription_jobs client_request = elim (get "jobs" client_request) [
    | arr items ↦ scan_jobs 0 0 items
    | _ ↦ ok ([], [])
  ]
