-- ===== src/Dispatch/Batch/Requested/Reread.antt =====
-- main.py: what the model path reads of the envelope that is made for it.
use marketer.Prelude.{
  ℕ, suc, ◌+◌, String, false, Option, none, some, List, [], ◌∷◌, ◌++◌, ◌≡◌, refl, sym, subst, ap,
  ◌∙◌, arith, ◌==◌, All,
}
use marketer.Value.{
  Value, str, arr, obj, Items, cons, Fields, end, field, ok, get, get_attr, or_empty, ◌>>=◌,
}
use marketer.Schemas.{Warning, SubscriptionJob}
use marketer.Text.{lstrip, rstrip, strip}
use marketer.Normalizer.Clean.{clean_string}
use marketer.Normalizer.Jobs.{
  scan_jobs, extract_subscription_jobs, quantity_of, expand, describe, or_key, job_at, lacks_text,
  text_at, job_of, warnings_of,
}
use marketer.Reasoner.Clone.{set_field}
use marketer.Reasoner.Clone.Carried.{get-set_field}
use marketer.Dispatch.Batch.Flow.{jobs_in, jobs_of}
use marketer.Dispatch.Batch.Requested.{
  or_text, opt_str, llm_fields, llm_item, llm_items, payload_fields, request_fields, llm_payload,
  llm_envelope, resent, renumber,
}

or_empty-set_field :
    (k : String) (v : Value) (fs : Fields)
    → or_empty (obj (set_field k v fs)) ≡ obj (set_field k v fs)
unfolding set_field
or_empty-set_field k v end = refl
or_empty-set_field k v (field j w fs) = ground arith

module _ (lower : String → String) (show : ℕ → String) where
  -- A text that the normalizer takes as it is.
  abbrev pub Readable : String → Type 0
  Readable s = clean_string lower (str s) ≡ some s

  abbrev pub ReadableOption : Option String → Type 0
  ReadableOption none = Unit
  ReadableOption (some s) = (Readable s) × ((s == "") ≡ false)

  pub record IsReadable (j : SubscriptionJob) : Type 0 where
    pub key_lem : Readable j.action_key
    pub text : String
    pub described : j.description ≡ some text
    pub text_lem : Readable text
    pub slug_lem : ReadableOption j.slug
    pub agent_lem : ReadableOption j.orchestrator_agent
    pub product_lem : ReadableOption j.product_uuid

  blank_lem : clean_string lower (str "") ≡ none
  unfolding clean_string strip lstrip rstrip
  blank_lem = ground arith

  or_text_blank :
      (o : Option String) → ReadableOption o → clean_string lower (str (or_text o "")) ≡ o
  or_text_blank none r = blank_lem
  or_text_blank (some s) (r, n) = rw n r

  or_text_agent :
      (o : Option String)
      → ReadableOption o
      → Readable "job-router"
      → clean_string lower (str (or_text o "job-router")) ≡ some (or_text o "job-router")
  or_text_agent none r h = h
  or_text_agent (some s) (r, n) h = rw n r

  described_lem :
      (j : SubscriptionJob)
      → IsReadable j
      → text_at lower show "description" (llm_fields j) ≡ j.description
  described_lem j r =
      ap (λ o. clean_string lower (opt_str o)) r.described ∙ (r.text_lem ∙ sym r.described)

  described_text : (o slug : Option String) (key d : String) → o ≡ some d → describe o slug key ≡ o
  described_text none slug key d h = cc
  described_text (some c) slug key d h = refl

  text_there : (o : Option String) (key d : String) → o ≡ some d → lacks_text o key ≡ false
  text_there none key d h = cc
  text_there (some c) key d h = refl

  -- the job that an item is read as, before its number
  item_job :
      (j : SubscriptionJob)
      → IsReadable j
      → Readable "job-router"
      → job_of lower show (llm_fields j) 1 ≡ resent j 0
  item_job j r h = λ i. record {
    action_key = or_key (r.key_lem i) "create_prod_line";
    description =
        (ap
              (λ o.
                describe o (text_at lower show "slug" (llm_fields j))
                  (or_key (text_at lower show "action_key" (llm_fields j)) "create_prod_line"))
              (described_lem j r)
            ∙ described_text j.description _ _ r.text r.described)
          i;
    index = 0;
    quantity = 1;
    slug = or_text_blank j.slug r.slug_lem i;
    orchestrator_agent = or_text_agent j.orchestrator_agent r.agent_lem h i;
    product_uuid = or_text_blank j.product_uuid r.product_lem i;
  }

  no_warnings :
      (j : SubscriptionJob) (idx : ℕ)
      → IsReadable j
      → warnings_of lower show (llm_fields j) idx ≡ []
  no_warnings j idx r =
      rw
        (ap
            (λ o.
              lacks_text o
                (or_key (text_at lower show "action_key" (llm_fields j)) "create_prod_line"))
            (described_lem j r)
          ∙ text_there j.description _ r.text r.described)
        refl

  scan_item :
      (j : SubscriptionJob) (idx n : ℕ) (rest : Items)
      → IsReadable j
      → Readable "job-router"
      → scan_jobs lower show idx n (cons (llm_item j) rest)
        ≡ (scan_jobs lower show (suc idx) (n + 1) rest >>= (λ (js, ws). ok (resent j n ∷ js, ws)))
  unfolding scan_jobs quantity_of expand
  scan_item j idx n rest r h =
      ap
        (λ (x : SubscriptionJob × List Warning).
          scan_jobs lower show (suc idx) (n + 1) rest
          >>= (λ (js, ws). ok (job_at x.0 n ∷ js, x.1 ++ ws)))
        (λ i. (item_job j r h i, no_warnings j idx r i))

  scan_items :
      (js : List SubscriptionJob) (idx n : ℕ)
      → All IsReadable js
      → Readable "job-router"
      → scan_jobs lower show idx n (llm_items js) ≡ ok (renumber n js, [])
  unfolding llm_items renumber
  scan_items [] idx n r h = unfold scan_jobs in refl
  scan_items (j ∷ js) idx n (r, rs) h =
      scan_item j idx n (llm_items js) r h
      ∙ ap (λ q. q >>= (λ (ks, ws). ok (resent j n ∷ ks, ws)))
          (subst
            (λ m. scan_jobs lower show (suc idx) m (llm_items js) ≡ ok (renumber (suc n) js, []))
            (omega arith) (scan_items js (suc idx) (suc n) rs h))

  extract_items :
      (fs : Fields) (items : Items)
      → get "jobs" fs ≡ arr items
      → extract_subscription_jobs lower show fs ≡ scan_jobs lower show 0 0 items
  unfolding extract_subscription_jobs
  extract_items fs items h = rw (h, extract_subscription_jobs) refl

  -- The jobs that are read from the envelope made for the model path are the jobs that it was made
  -- for, in their order, numbered anew from 0, once each, and with an agent, if the normalizer takes
  -- their texts and "job-router" as they are.
  pub jobs_of-llm_envelope :
      (envelope : Fields) (js : List SubscriptionJob)
      → All IsReadable js
      → Readable "job-router"
      → jobs_of lower show (llm_envelope envelope js) ≡ ok (renumber 0 js, [])
  unfolding jobs_of llm_envelope
  jobs_of-llm_envelope envelope js r h =
      let request = set_field "jobs" (arr (llm_items js)) (request_fields envelope) in
      ap (λ p. get_attr "client_request" p >>= (λ q. jobs_in lower show (or_empty q)))
        (ap or_empty (get-set_field "payload" (obj (llm_payload envelope js)) envelope)
          ∙ or_empty-set_field "client_request" (obj request) (payload_fields envelope))
      ∙ (ap (λ q. jobs_in lower show (or_empty q))
            (get-set_field "client_request" (obj request) (payload_fields envelope))
          ∙ (ap (jobs_in lower show)
                (or_empty-set_field "jobs" (arr (llm_items js)) (request_fields envelope))
              ∙ (extract_items request (llm_items js)
                    (get-set_field "jobs" (arr (llm_items js)) (request_fields envelope))
                  ∙ scan_items js 0 0 r h)))
