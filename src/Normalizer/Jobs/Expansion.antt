-- ===== src/Normalizer/Jobs/Expansion.antt =====
-- normalizer.py: what the jobs of a subscription are after expansion.
use marketer.Prelude.{
  ℕ, zero, suc, ◌+◌, ◌≤◌, String, true, false, ◌||◌, not, Option, none, some, List, [], ◌∷◌, ◌++◌,
  ◌≡◌, refl, arith, ap, subst, length, map, All, is_some,
}
use marketer.Value.{
  ℤ, pos, negsuc, Value, null, bool, int, float, str, arr, obj, Items, nil, cons, Fields, Result,
  ok, err, get, ◌>>=◌,
}
use marketer.Schemas.{Warning, SubscriptionJob}
use marketer.Normalizer.Jobs.{
  clamp, quantity_of, is_llm_key, describe, expand, text_at, job_of, warnings_of, scan_jobs,
  extract_subscription_jobs,
}

-- The numbers from `n` on, `k` of them.
abbrev pub numbers_from : ℕ → ℕ → List ℕ
numbers_from n zero = []
numbers_from n (suc k) = n ∷ numbers_from (suc n) k

abbrev pub indices : List SubscriptionJob → List ℕ
indices jobs = map (λ j. j.index) jobs

-- A job that the pipeline can run: its quantity is in bounds, and an LLM job has a description.
abbrev pub IsRunnable : SubscriptionJob → Type 0
IsRunnable j =
    (1 ≤ j.quantity)
    × (j.quantity ≤ 10)
    × (not (is_llm_key j.action_key) || is_some j.description) ≡ true

length-expand : (j : SubscriptionJob) (n seq : ℕ) → length (expand j n seq) ≡ n
unfolding expand
length-expand j zero seq = refl
length-expand j (suc n) seq = ap suc (length-expand j n (suc seq))

indices-expand_append :
    (j : SubscriptionJob) (n seq : ℕ) (jobs : List SubscriptionJob)
    → indices jobs ≡ numbers_from (seq + n) (length jobs)
    → indices (expand j n seq ++ jobs) ≡ numbers_from seq (length (expand j n seq ++ jobs))
unfolding expand
indices-expand_append j zero seq jobs h =
    subst (λ k. indices jobs ≡ numbers_from k (length jobs)) (omega arith) h
indices-expand_append j (suc n) seq jobs h =
    ap (λ is. seq ∷ is)
      (indices-expand_append j n (suc seq) jobs
        (subst (λ k. indices jobs ≡ numbers_from k (length jobs)) (omega arith) h))

Each-IsRunnable-expand :
    (j : SubscriptionJob) (n seq : ℕ) (jobs : List SubscriptionJob)
    → IsRunnable j
    → All IsRunnable jobs
    → All IsRunnable (expand j n seq ++ jobs)
unfolding expand
Each-IsRunnable-expand j zero seq jobs r h = h
Each-IsRunnable-expand j (suc n) seq jobs r h = (r, Each-IsRunnable-expand j n (suc seq) jobs r h)

describe_runnable :
    (d slug : Option String) (key : String)
    → (not (is_llm_key key) || is_some (describe d slug key)) ≡ true
describe_runnable (some d) slug key = ground arith
describe_runnable none slug key = ground arith

clamp_bounds : (z : ℤ) → (1 ≤ clamp z) × (clamp z ≤ 10)
clamp_bounds (pos n) = (omega arith, omega arith)
clamp_bounds (negsuc n) = (omega arith, omega arith)

InBounds : Result ℕ → Type 0
InBounds (ok n) = (1 ≤ n) × (n ≤ 10)
InBounds (err e) = Unit

quantity_of-InBounds : (v : Value) → InBounds (quantity_of v)
unfolding quantity_of InBounds
quantity_of-InBounds null = (omega arith, omega arith)
quantity_of-InBounds (bool true) = (omega arith, omega arith)
quantity_of-InBounds (bool false) = (omega arith, omega arith)
quantity_of-InBounds (int z) = clamp_bounds z
quantity_of-InBounds (float b (ok z)) = clamp_bounds z
quantity_of-InBounds (float b (err e)) = tt
quantity_of-InBounds (str s) = (omega arith, omega arith)
quantity_of-InBounds (arr vs) = (omega arith, omega arith)
quantity_of-InBounds (obj fs) = (omega arith, omega arith)

-- What a list of jobs that starts at the index `seq` is.
abbrev pub IsExpansion : ℕ → List SubscriptionJob → Type 0
IsExpansion seq jobs = (indices jobs ≡ numbers_from seq (length jobs)) × All IsRunnable jobs

abbrev Expanded : ℕ → Result (List SubscriptionJob × List Warning) → Type 0
Expanded seq (err e) = Unit
Expanded seq (ok r) = IsExpansion seq r.0

skip-Expanded :
    (seq : ℕ) (r : Result (List SubscriptionJob × List Warning)) (w : Warning)
    → Expanded seq r
    → Expanded seq (r >>= (λ (jobs, ws). ok (jobs, w ∷ ws)))
skip-Expanded seq (err e) w h = tt
skip-Expanded seq (ok r) w h = h

module _ (lower : String → String) (show : ℕ → String) where
  step-Expanded :
      (item : Fields) (idx seq n : ℕ) (r : Result (List SubscriptionJob × List Warning))
      → (1 ≤ n) × (n ≤ 10)
      → Expanded (seq + n) r
      → Expanded seq (
          r >>= (λ (jobs, ws). ok (
            expand (job_of lower show item n) n seq ++ jobs,
            warnings_of lower show item idx ++ ws,
          )))
  step-Expanded item idx seq n (err e) b h = tt
  step-Expanded item idx seq n (ok (jobs, ws)) b h = (
    indices-expand_append (job_of lower show item n) n seq jobs h.0,
    Each-IsRunnable-expand (job_of lower show item n) n seq jobs
        (
          b.0,
          b.1,
          describe_runnable (text_at lower show "description" item) (text_at lower show "slug" item)
              (job_of lower show item n).action_key,
        )
        h.1,
  )

  quantity-Expanded :
      (seq : ℕ) (q : Result ℕ) (f : ℕ → Result (List SubscriptionJob × List Warning))
      → InBounds q
      → ((n : ℕ) → (1 ≤ n) × (n ≤ 10) → Expanded seq (f n))
      → Expanded seq (q >>= f)
  unfolding InBounds
  quantity-Expanded seq (ok n) f b k = k n b
  quantity-Expanded seq (err e) f b k = tt

  scan_jobs-Expanded :
      (idx seq : ℕ) (items : Items) → Expanded seq (scan_jobs lower show idx seq items)
  unfolding scan_jobs
  scan_jobs-Expanded idx seq nil = (refl, tt)
  scan_jobs-Expanded idx seq (cons (obj item) rest) =
      quantity-Expanded seq (quantity_of (get "quantity" item)) _
        (quantity_of-InBounds (get "quantity" item))
        (λ n b.
          step-Expanded item idx seq n (scan_jobs lower show (suc idx) (seq + n) rest) b
            (scan_jobs-Expanded (suc idx) (seq + n) rest))
  scan_jobs-Expanded idx seq (cons null rest) =
      skip-Expanded seq _ _ (scan_jobs-Expanded (suc idx) seq rest)
  scan_jobs-Expanded idx seq (cons (bool b) rest) =
      skip-Expanded seq _ _ (scan_jobs-Expanded (suc idx) seq rest)
  scan_jobs-Expanded idx seq (cons (int z) rest) =
      skip-Expanded seq _ _ (scan_jobs-Expanded (suc idx) seq rest)
  scan_jobs-Expanded idx seq (cons (float b z) rest) =
      skip-Expanded seq _ _ (scan_jobs-Expanded (suc idx) seq rest)
  scan_jobs-Expanded idx seq (cons (str s) rest) =
      skip-Expanded seq _ _ (scan_jobs-Expanded (suc idx) seq rest)
  scan_jobs-Expanded idx seq (cons (arr vs) rest) =
      skip-Expanded seq _ _ (scan_jobs-Expanded (suc idx) seq rest)

  at_jobs-Expanded :
      (v : Value)
      → Expanded 0 (elim v [ arr items ↦ scan_jobs lower show 0 0 items | _ ↦ ok ([], []) ])
  at_jobs-Expanded (arr items) = scan_jobs-Expanded 0 0 items
  at_jobs-Expanded null = (refl, tt)
  at_jobs-Expanded (bool b) = (refl, tt)
  at_jobs-Expanded (int z) = (refl, tt)
  at_jobs-Expanded (float b z) = (refl, tt)
  at_jobs-Expanded (str s) = (refl, tt)
  at_jobs-Expanded (obj fs) = (refl, tt)

  -- The jobs of a subscription are numbered 0, 1, 2, … in order; each has a quantity from 1 to 10, and
  -- each create_post or edit_post job has a description.
  pub extract_subscription_jobs-IsExpansion :
      (client_request : Fields) (jobs : List SubscriptionJob) (ws : List Warning)
      → extract_subscription_jobs lower show client_request ≡ ok (jobs, ws)
      → IsExpansion 0 jobs
  unfolding extract_subscription_jobs
  extract_subscription_jobs-IsExpansion client_request jobs ws h =
      subst (Expanded 0) h (at_jobs-Expanded (get "jobs" client_request))
