-- ===== src/Llm.antt =====
-- llm/gemini.py: the client of the language model. What the SDK answers to a request and what pydantic
-- makes of a text are parameters; the log of requests stands for the calls that were made, and the
-- answer to a request may depend on how many came before.
pub mod Budget
use marketer.Prelude.{
  ℕ, zero, ◌+◌, ◌*◌, max, String, Bool, true, false, ◌||◌, Option, none, some, List, [], ◌∷◌, ◌++◌,
  length, any,
}
use marketer.Value.{ℤ, pos, negsuc}
use marketer.Schemas.{PostEnrichment}
use marketer.Text.{has_substring}

-- An exception: whether it is a TimeoutError, the name of its class, and its text.
pub record Failure : Type 0 where
  pub is_timeout_error : Bool
  pub type_name : String
  pub message : String

pub data Attempt {ℓ} (A : Type ℓ) : Type ℓ where
  returned : A → Attempt A
  raised : Failure → Attempt A

-- one call of `generate_content`; the temperature in tenths
pub record Request : Type 0 where
  pub system_prompt : String
  pub contents : String
  pub temperature : ℕ
  pub max_output_tokens : ℕ
  pub timeout_ms : ℕ

-- `response.usage_metadata`, where each count may be missing or None
pub record UsageMetadata : Type 0 where
  pub prompt_token_count : Option ℕ
  pub candidates_token_count : Option ℕ
  pub thoughts_token_count : Option ℕ

pub record Response : Type 0 where
  pub text : Option String
  pub usage_metadata : Option UsageMetadata

-- The usage dictionary, as `usage.get(k, 0)` reads it: an empty one is all zeros.
pub record Usage : Type 0 where
  pub input_tokens : ℕ
  pub output_tokens : ℕ
  pub thoughts_tokens : ℕ

-- `(parsed_model_or_None, raw_text, error_or_None, usage_dict)`
pub record Answer : Type 0 where
  pub parsed : Option PostEnrichment
  pub raw_text : String
  pub error : Option Failure
  pub usage : Usage

pub record Client : Type 0 where
  pub model_name : String
  pub timeout_seconds : ℤ
  pub backend : ℕ → Request → Attempt Response
  pub parse : String → Attempt PostEnrichment

abbrev pub Log : Type 0
Log = List Request

abbrev pub no_usage : Usage
no_usage = record { input_tokens = 0; output_tokens = 0; thoughts_tokens = 0 }

-- `{k: usage.get(k, 0) + repair_usage.get(k, 0) for k in (...)}`
abbrev pub add_usage : Usage → Usage → Usage
add_usage u v = record {
  input_tokens = u.input_tokens + v.input_tokens;
  output_tokens = u.output_tokens + v.output_tokens;
  thoughts_tokens = u.thoughts_tokens + v.thoughts_tokens;
}

-- `max(1, int(timeout_seconds)) * 1000`
unfoldable pub timeout_ms_of : ℤ → ℕ
timeout_ms_of (pos n) = max 1 n * 1000
timeout_ms_of (negsuc n) = 1000

-- `getattr(um, key, 0) or 0`
abbrev or_zero : Option ℕ → ℕ
or_zero none = 0
or_zero (some n) = n

unfoldable pub usage_of : Option UsageMetadata → Usage
usage_of none = no_usage
usage_of (some um) = record {
  input_tokens = or_zero um.prompt_token_count;
  output_tokens = or_zero um.candidates_token_count;
  thoughts_tokens = or_zero um.thoughts_token_count;
}

abbrev or_blank : Option String → String
or_blank none = ""
or_blank (some s) = s

abbrev parsed_answer : Attempt PostEnrichment → String → Usage → Answer
parsed_answer (returned e) raw usage = record {
  parsed = some e;
  raw_text = raw;
  error = none;
  usage = usage;
}
parsed_answer (raised x) raw usage = record {
  parsed = none;
  raw_text = raw;
  error = some x;
  usage = usage;
}

-- what the wrapper makes of the response
unfoldable pub read_response : (String → Attempt PostEnrichment) → Attempt Response → Answer
unfolding usage_of
read_response parse (raised x) = record {
  parsed = none;
  raw_text = "";
  error = some x;
  usage = no_usage;
}
read_response parse (returned r) =
    parsed_answer (parse (or_blank r.text)) (or_blank r.text) (usage_of r.usage_metadata)

abbrev pub request : Client → String → String → ℕ → ℕ → Request
request client system_prompt contents temperature max_tokens = record {
  system_prompt = system_prompt;
  contents = contents;
  temperature = temperature;
  max_output_tokens = max_tokens;
  timeout_ms = timeout_ms_of client.timeout_seconds;
}

abbrev pub ask : Client → Request → Log → Answer × Log
ask client q log = (read_response client.parse (client.backend (length log) q), log ++ q ∷ [])

-- `generate_structured(...)`, at its temperature of 0.4
unfoldable pub generate_structured : Client → String → String → ℕ → Log → Answer × Log
generate_structured client system_prompt user_prompt max_tokens =
    ask client (request client system_prompt user_prompt 4 max_tokens)

-- `repair(...)`, which passes its temperature of 0.2 on
unfoldable pub repair : Client → String → String → ℕ → Log → Answer × Log
repair client system_prompt repair_prompt max_tokens =
    ask client (request client system_prompt repair_prompt 2 max_tokens)

abbrev timeout_markers : List String
timeout_markers =
    "deadline_exceeded" ∷ "deadline exceeded" ∷ "deadline expired" ∷ "timed out" ∷ "timeout" ∷ "504"
    ∷ []

-- `is_timeout_exception(exc)`; `lower` is `str.lower`
unfoldable pub is_timeout_exception : (String → String) → Option Failure → Bool
unfolding has_substring
is_timeout_exception lower none = false
is_timeout_exception lower (some e) =
    e.is_timeout_error
    || ((has_substring "timeout" (lower e.type_name)
          || has_substring "deadline" (lower e.type_name))
        || any (λ m. has_substring m (lower e.message)) timeout_markers)
