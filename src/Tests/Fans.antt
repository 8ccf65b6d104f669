-- ===== src/Tests/Fans.antt =====
-- Batches whose jobs go through the language model.
use marketer.Prelude.{ℕ, true, none, some, [], ◌∷◌, ◌≡◌, refl, map, All}
use marketer.Value.{null, str, Fields, field, ok}
use marketer.Schemas.{SubscriptionJob}
use marketer.Text.{is_space, lstrip, rstrip, strip}
use marketer.Catalog.{overlays}
use marketer.Normalizer.Clean.{clean_string}
use marketer.Llm.{Client, Log, generate_structured, read_response}
use marketer.Reasoner.Multi.{Pairs, reason_multi}
use marketer.Reasoner.Multi.Aligned.{IsItem, Small, reason_multi_answers}
use marketer.Reasoner.Pairing.{Matches}
use marketer.Reasoner.Clone.{set_field, find_field, clone_envelope_for_job}
use marketer.Reasoner.Clone.Carried.{IsClone, clone_envelope_for_job-IsClone}
use marketer.Reasoner.Fanout.{extract_brand_dna, reason_multi_fanout}
use marketer.Reasoner.Fanout.Shared.{IsFanned, reason_multi_fanout-Matches}
use marketer.Reasoner.Fanout.BrandDna.{reason_multi_fanout-brand_dna}
use marketer.Dispatch.Delivery.{response}
use marketer.Dispatch.Batch.{valid_of}
use marketer.Dispatch.Batch.Flow.{jobs_of, context_account, results_of, run_multi}
use marketer.Dispatch.Batch.Requested.{llm_envelope, model_path, renumber}
use marketer.Dispatch.Batch.Requested.Reread.{IsReadable, jobs_of-llm_envelope}
use marketer.Dispatch.Batch.Reasoned.{completed_body, run_multi_completes}
use marketer.Tests.Data.{no_dump, sample_context, sample_settings, sample_job}
use marketer.Tests.Flows.{
  same, digit, crash, accepting, start, batch_envelope, llm_job, site_job, fallback_warning,
  batch_jobs_lem,
}
use marketer.Tests.Models.{patient_client, sample_runtime, batch_internal}

abbrev the_job : SubscriptionJob
the_job = sample_job none

abbrev batch : Fields
batch = field "action_code" (str "subscription_strategy") batch_envelope

reason_multi_answers_example :
    ((rs : Pairs) × ((reason_multi sample_runtime 100 batch 7 []).0 ≡ ok rs)
      × Matches (IsItem sample_runtime batch_internal 1) (the_job ∷ []) rs)
    × Small (reason_multi sample_runtime 100 batch 7 []).1
unfolding overlays
reason_multi_answers_example =
    reason_multi_answers sample_runtime batch_internal 1 (λ name u h. (("http", u), refl)) 100 batch
      [] 7 the_job [] refl refl refl refl

abbrev clients : ℕ → Client
clients k = patient_client

abbrev latencies : ℕ → ℕ
latencies k = 9

shared_dna :
    (log : Log) × (extract_brand_dna sample_runtime 2048 batch [] ≡ (ok (some "shared"), log))
unfolding extract_brand_dna generate_structured read_response strip lstrip rstrip is_space
shared_dna = (_, refl)

reason_multi_fanout-Matches_example :
    (rs : Pairs) × (reason_multi_fanout sample_runtime 100 clients latencies 2048 batch []
      ≡ (ok rs, shared_dna.0))
    × Matches
        (IsFanned sample_runtime 100 clients latencies (some "shared") batch 1)
        (the_job ∷ [])
        rs
reason_multi_fanout-Matches_example =
    reason_multi_fanout-Matches sample_runtime 100 clients latencies 2048 batch batch_internal []
      the_job [] (some "shared") shared_dna.0 refl refl shared_dna.1

reason_multi_fanout-brand_dna_example :
    (rs : Pairs) × (reason_multi_fanout sample_runtime 100 clients latencies 2048 batch []
      ≡ (ok rs, shared_dna.0))
    × Matches
        (λ k out. (out.enrichment.brand_dna ≡ "shared") × (out.payload.client_dna ≡ "shared"))
        (the_job ∷ [])
        rs
reason_multi_fanout-brand_dna_example =
    reason_multi_fanout-brand_dna sample_runtime 100 clients latencies 2048 batch batch_internal []
      the_job [] "shared" shared_dna.0 refl refl shared_dna.1

the_clone : (c : Fields) × (clone_envelope_for_job batch the_job ≡ ok c)
unfolding clone_envelope_for_job find_field
the_clone = (_, refl)

clone_envelope_for_job-IsClone_example : IsClone batch the_job the_clone.0
clone_envelope_for_job-IsClone_example =
    clone_envelope_for_job-IsClone batch the_job the_clone.0 the_clone.1

llm_job-IsReadable : All (IsReadable same digit) (llm_job ∷ [])
unfolding clean_string strip lstrip rstrip is_space
llm_job-IsReadable = (
  record {
    key_lem = refl;
    text = "Generate a create_post";
    described = refl;
    text_lem = refl;
    slug_lem = tt;
    agent_lem = tt;
    product_lem = tt;
  },
  tt,
)

job_router_lem : clean_string same (str "job-router") ≡ some "job-router"
unfolding clean_string strip lstrip rstrip is_space
job_router_lem = refl

jobs_of-llm_envelope_example :
    jobs_of same digit (llm_envelope batch (llm_job ∷ [])) ≡ ok (renumber 0 (llm_job ∷ []), [])
jobs_of-llm_envelope_example =
    jobs_of-llm_envelope same digit batch (llm_job ∷ []) llm_job-IsReadable job_router_lem

run_multi_completes_example :
    ((run_multi sample_settings true no_dump crash
        (model_path true sample_runtime clients latencies 7 100 2048 batch)
        accepting
        accepting
        same
        digit
        batch
        (some sample_context)
        12
        (λ k. response 200)
        start).1.sent
      ≡ completed_body ∷ [])
    × (map
          (λ r. r.1)
          (valid_of (
            results_of sample_settings true no_dump crash
              (model_path true sample_runtime clients latencies 7 100 2048 batch)
              accepting
              accepting
              (llm_job ∷ site_job ∷ [])))
        ≡ the_job ∷ [])
unfolding overlays context_account jobs_of llm_envelope set_field
run_multi_completes_example =
    run_multi_completes sample_runtime clients latencies 7 100 2048 sample_settings true no_dump
      crash accepting accepting true same digit batch (some sample_context) 12 (λ k. response 200)
      start (llm_job ∷ site_job ∷ []) fallback_warning null batch_internal [] the_job []
      batch_jobs_lem refl refl refl refl refl refl (λ name u h. (("http", u), refl))
