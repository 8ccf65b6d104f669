-- ===== src/Tests/Batches.antt =====
-- The jobs of a subscription.
use marketer.Prelude.{ℕ, String, true, List, ◌≡◌, refl}
use marketer.Value.{
  null, str, int, pos, arr, obj, float, Items, nil, cons, Fields, end, field, ok, err,
  overflow_error,
}
use marketer.Schemas.{Warning, SubscriptionJob}
use marketer.Normalizer.Jobs.{extract_subscription_jobs}
use marketer.Normalizer.Jobs.Expansion.{IsExpansion, extract_subscription_jobs-IsExpansion}
use marketer.Normalizer.Jobs.Quantities.{
  append_items, extract_subscription_jobs_answers, extract_subscription_jobs_raises,
}

abbrev same : String → String
same s = s

abbrev digit : ℕ → String
digit n = "0"

abbrev sample_items : Items
sample_items =
    cons
      (obj (
        field "action_key" (str "create_post")
          (field "quantity" (int (pos 2)) (field "orchestrator_agent" (str "job-router") end))))
      (cons null (cons (obj (field "slug" (str "web") end)) nil))

abbrev sample_request : Fields
sample_request = field "jobs" (arr sample_items) end

abbrev sample_answer :
    (r : List SubscriptionJob × List Warning) × (extract_subscription_jobs same digit sample_request
      ≡ ok r)
sample_answer = extract_subscription_jobs_answers same digit sample_request sample_items refl refl

extract_subscription_jobs-IsExpansion_example : IsExpansion 0 sample_answer.0.0
extract_subscription_jobs-IsExpansion_example =
    extract_subscription_jobs-IsExpansion same digit sample_request sample_answer.0.0
      sample_answer.0.1 sample_answer.1

abbrev endless : Fields
endless = field "quantity" (float true (err overflow_error)) end

abbrev endless_request : Fields
endless_request =
    field "jobs" (arr (append_items sample_items (cons (obj endless) sample_items))) end

extract_subscription_jobs_raises_example :
    extract_subscription_jobs same digit endless_request ≡ err overflow_error
extract_subscription_jobs_raises_example =
    extract_subscription_jobs_raises same digit endless_request sample_items endless sample_items
      true overflow_error refl refl refl
