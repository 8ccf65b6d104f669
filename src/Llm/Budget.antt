-- ===== src/Llm/Budget.antt =====
-- llm/gemini.py: the tokens that a log of requests has cost, as the answers report them.
use marketer.Prelude.{ℕ, suc, [], ◌∷◌, ◌≡◌, arith}
use marketer.Llm.{Request, Client, Usage, Log, no_usage, add_usage, read_response}

-- The usage of the answer to the request at position `k`.
abbrev pub usage_at : Client → ℕ → Request → Usage
usage_at client k q = (read_response client.parse (client.backend k q)).usage

abbrev pub spent_from : Client → ℕ → Log → Usage
spent_from client k [] = no_usage
spent_from client k (q ∷ qs) = add_usage (usage_at client k q) (spent_from client (suc k) qs)

abbrev pub spent : Client → Log → Usage
spent client log = spent_from client 0 log

pub Usage_eq :
    (u v : Usage)
    → u.input_tokens ≡ v.input_tokens
    → u.output_tokens ≡ v.output_tokens
    → u.thoughts_tokens ≡ v.thoughts_tokens
    → u ≡ v
Usage_eq u v p q r = λ i. record { input_tokens = p i; output_tokens = q i; thoughts_tokens = r i }

pub spent_one : (client : Client) (q : Request) → usage_at client 0 q ≡ spent client (q ∷ [])
spent_one client q = Usage_eq _ _ (omega arith) (omega arith) (omega arith)

pub spent_two :
    (client : Client) (q r : Request)
    → add_usage (usage_at client 0 q) (usage_at client 1 r) ≡ spent client (q ∷ r ∷ [])
spent_two client q r = Usage_eq _ _ (omega arith) (omega arith) (omega arith)

pub spent_three :
    (client : Client) (q r s : Request)
    → add_usage (add_usage (usage_at client 0 q) (usage_at client 1 r)) (usage_at client 2 s)
      ≡ spent client (q ∷ r ∷ s ∷ [])
spent_three client q r s = Usage_eq _ _ (omega arith) (omega arith) (omega arith)
