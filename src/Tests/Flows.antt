-- ===== src/Tests/Flows.antt =====
-- A batch with one job for the language model and one that is passed through.
use marketer.Prelude.{ℕ, String, true, none, some, List, [], ◌∷◌, ◌≡◌, refl}
use marketer.Value.{null, str, arr, obj, nil, cons, Fields, end, field, Result, ok, Exc}
use marketer.Schemas.{Warning, SubscriptionJob, failed_body}
use marketer.Persistence.{Created}
use marketer.Normalizer.Clean.{clean_string}
use marketer.Normalizer.Jobs.{quantity_of, expand, scan_jobs, extract_subscription_jobs}
use marketer.Text.{strip, lstrip, rstrip, is_space}
use marketer.Dispatch.Delivery.{Reply, response}
use marketer.Dispatch.Batch.{Results, Run, aggregate, post_results}
use marketer.Dispatch.Batch.Flow.{jobs_of, context_account, results_of, run_multi}
use marketer.Dispatch.Batch.Posting.{Posted, run_multi_reports, post_results-Posted}
use marketer.Dispatch.Batch.Unmarked.{run_multi_unmarked}
use marketer.Tests.Data.{
  no_dump, used_tables, sample_context, sample_settings, completed_callback, sample_job,
}

abbrev pub same : String → String
same s = s

abbrev pub digit : ℕ → String
digit n = "0"

abbrev pub crash : Exc → String
crash e = "internal_error"

abbrev pub batch_envelope : Fields
batch_envelope = field "callback_url" (str "https://router/cb") (
    field "payload"
      (obj (
        field "client_request"
          (obj (
            field "jobs"
              (arr (
                cons (obj (field "action_key" (str "create_post") end))
                  (cons (obj (field "slug" (str "site") end)) nil)))
              end))
          end))
      end)

abbrev pub batch_jobs : Result (List SubscriptionJob × List Warning)
batch_jobs = jobs_of same digit batch_envelope

abbrev one_result : Results
one_result = (completed_callback, some (sample_job (some "job-router"))) ∷ []

abbrev model : List SubscriptionJob → Result Results
model jobs = ok one_result

abbrev pub accepting : ℕ → ℕ → Reply
accepting id k = response 201

abbrev pub start : Run
start = record {
  sess = record { db = used_tables; faults = [] };
  sent = [];
  posted = [];
  dispatched = [];
}

abbrev pub llm_job : SubscriptionJob
llm_job = record {
  action_key = "create_post";
  description = some "Generate a create_post";
  index = 0;
  quantity = 1;
  slug = none;
  orchestrator_agent = none;
  product_uuid = none;
}

abbrev pub site_job : SubscriptionJob
site_job = record {
  action_key = "create_prod_line";
  description = none;
  index = 1;
  quantity = 1;
  slug = some "site";
  orchestrator_agent = none;
  product_uuid = none;
}

abbrev pub fallback_warning : List Warning
fallback_warning =
    (record { code = "job_missing_description_fallback"; about = some "jobs[0].description" }) ∷ []

pub batch_jobs_lem : batch_jobs ≡ ok (llm_job ∷ site_job ∷ [], fallback_warning)
unfolding jobs_of extract_subscription_jobs scan_jobs quantity_of expand clean_string strip lstrip
    rstrip is_space
batch_jobs_lem = refl

run_multi_reports_example :
    (run_multi sample_settings true no_dump crash model accepting accepting same digit
      batch_envelope
      (some sample_context)
      12
      (λ k. response 200)
      start).1.sent
    ≡ aggregate (
        results_of sample_settings true no_dump crash model accepting accepting
          (llm_job ∷ site_job ∷ []))
      ∷ []
unfolding context_account
run_multi_reports_example =
    run_multi_reports sample_settings true no_dump crash model accepting accepting same digit
      batch_envelope (some sample_context) 12 (λ k. response 200) start (llm_job ∷ site_job ∷ [])
      fallback_warning null batch_jobs_lem refl refl

abbrev created_rows : Created
created_rows = (10, sample_job (some "job-router")) ∷ []

post_results-Posted_example :
    Posted created_rows one_result []
      (post_results sample_settings true accepting created_rows one_result start).1.posted
post_results-Posted_example =
    post_results-Posted sample_settings true accepting created_rows one_result start

abbrev site_envelope : Fields
site_envelope =
    field "payload"
      (obj (
        field "client_request"
          (obj (field "jobs" (arr (cons (obj (field "slug" (str "site") end)) nil)) end)) end))
      end

abbrev only_site : List SubscriptionJob
only_site =
    (record {
      action_key = "create_prod_line";
      description = none;
      index = 0;
      quantity = 1;
      slug = some "site";
      orchestrator_agent = none;
      product_uuid = none;
    })
    ∷ []

site_jobs_lem : jobs_of same digit site_envelope ≡ ok (only_site, [])
unfolding jobs_of extract_subscription_jobs scan_jobs quantity_of expand clean_string strip lstrip
    rstrip is_space
site_jobs_lem = refl

run_multi_unmarked_example :
    (run_multi sample_settings true no_dump crash model accepting accepting same digit site_envelope
      (some sample_context)
      12
      (λ k. response 200)
      start).1.sess.db.raw_briefs
    ≡ used_tables.raw_briefs
run_multi_unmarked_example =
    run_multi_unmarked sample_settings true no_dump crash model accepting accepting same digit
      site_envelope (some sample_context) 12 (λ k. response 200) start only_site [] site_jobs_lem
      refl

abbrev fatal_results : Results
fatal_results = (failed_body "internal_error", none) ∷ []
