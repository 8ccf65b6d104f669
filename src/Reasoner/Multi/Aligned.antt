-- ===== src/Reasoner/Multi/Aligned.antt =====
-- reasoner.py: the results of `reason_multi` and the jobs of its batch.
use marketer.Prelude.{
  ℕ, ◌≤◌, String, true, Option, none, some, List, [], ◌∷◌, ◌≡◌, refl, sym, subst, arith, length,
  contains, map, All, if_keeps,
}
use marketer.Value.{Fields, Result, ok, ◌>>=◌}
use marketer.Schemas.{Warning, CallbackOutputData, CallbackBody, PostEnrichment, SubscriptionJob}
use marketer.Context.{InternalContext, normalized}
use marketer.Catalog.{overlays}
use marketer.Validator.Cta.{handles_of}
use marketer.Validator.Correction.{
  Verdict, validate_and_correct, IsDeliverable, validate_and_correct-IsDeliverable,
  validate_and_correct_total,
}
use marketer.Llm.{
  Failure, Usage, Answer, Log, Request, ask, request, generate_structured, repair,
  is_timeout_exception,
}
use marketer.Reasoner.Assembly.{
  Runtime, build_user_prompt, repair_cause, jobs_or_empty, payload_of, assemble_single_callback,
}
use marketer.Reasoner.Single.Outcome.{not_blocked}
use marketer.Reasoner.Multi.{
  Pairs, fail_all, Parsed, Batch, parse_multi, item_callback, assemble_items, after_multi_repair,
  after_multi, parse_first, scaled_tokens, multi_over, begin_multi, reason_multi,
}
use marketer.Reasoner.Pairing.{Matches, IsFor, fail_all-Matches}

-- A log of at most two requests, each within the limit of the model.
abbrev pub Small : Log → Type 0
Small log = (length log ≤ 2) × All (λ q. q.max_output_tokens ≤ 65536) log

module _ (rt : Runtime) (ctx : InternalContext) (total : ℕ) where
  -- The output of a job is stamped with it, and holds an enrichment that the validator promises to be
  -- deliverable.
  pub record IsItem (j : SubscriptionJob) (out : CallbackOutputData) : Type 0 where
    pub index_lem : out.trace.job_index ≡ some j.index
    pub key_lem : out.trace.job_action_key ≡ some j.action_key
    pub total_lem : out.trace.total_jobs ≡ some total
    pub wanted : PostEnrichment
    pub verdict : Verdict
    pub promises : IsDeliverable rt.language rt.urlparse ctx wanted verdict
    pub enriched : out.enrichment ≡ verdict.enrichment
    pub paid : out.payload ≡ payload_of ctx out.enrichment

  abbrev pub Answered : List SubscriptionJob → Result Pairs → Type 0
  Answered js r = (rs : Pairs) × (r ≡ ok rs) × Matches IsItem js rs

module _ (rt : Runtime) (ctx : InternalContext) (total : ℕ)
    (parses : (name u : String)
      → contains
          (rt.language.lower u)
          (map rt.language.lower (handles_of ctx.available_channels name))
        ≡ true
      → (p : String × String) × (rt.urlparse u ≡ ok p)) where
  cons-Answered :
      (j : SubscriptionJob) (p : CallbackBody × Option SubscriptionJob) (js : List SubscriptionJob)
      (q : Result Pairs)
      → IsFor (IsItem rt ctx total) j p
      → Answered rt ctx total js q
      → Answered rt ctx total (j ∷ js) (q >>= (λ rest. ok (p ∷ rest)))
  cons-Answered j p js q f (rs, e, m) = (p ∷ rs, rw e refl, (f, m))

  item_callback-IsFor :
      (b : Batch) (j : SubscriptionJob) (e : PostEnrichment) (v : Verdict)
      → b.total ≡ total
      → validate_and_correct rt.language rt.urlparse ctx e ≡ ok v
      → IsFor (IsItem rt ctx total) j (item_callback rt ctx b j v, some j)
  unfolding assemble_single_callback
  item_callback-IsFor b j e v t h =
      let k = validate_and_correct-IsDeliverable rt.language rt.urlparse ctx e v h in
      subst (λ cb. IsFor (IsItem rt ctx total) j (cb, some j))
        (sym (not_blocked v.blocking _ _ k.never_blocked))
        (
          refl,
          refl,
          record {
            index_lem = refl;
            key_lem = refl;
            total_lem = λ i. some (t i);
            wanted = e;
            verdict = v;
            promises = k;
            enriched = refl;
            paid = refl;
          },
        )

  assemble_items-Answered :
      (b : Batch) (js : List SubscriptionJob) (es : List PostEnrichment)
      → b.total ≡ total
      → Answered rt ctx total js (assemble_items rt ctx b js es)
  unfolding assemble_items
  assemble_items-Answered b [] es t = ([], refl, tt)
  assemble_items-Answered b (j ∷ js) [] t =
      cons-Answered j _ js _ (refl, refl, tt) (assemble_items-Answered b js [] t)
  assemble_items-Answered b (j ∷ js) (e ∷ es) t =
      let (v, h) = validate_and_correct_total rt.language rt.urlparse ctx parses e in
      rw h (
        cons-Answered j _ js _ (item_callback-IsFor b j e v t h)
          (assemble_items-Answered b js es t))

  abbrev Done : List SubscriptionJob → Result Pairs × Log → Type 0
  Done js (r, log) = Answered rt ctx total js r × Small log

  refused_all :
      (m : String) (js : List SubscriptionJob) → Answered rt ctx total js (ok (fail_all m js))
  refused_all m js = (fail_all m js, refl, fail_all-Matches (IsItem rt ctx total) m js)

  after_multi_repair-Answered :
      (ws : List Warning) (u : Usage) (x : Option Failure) (latency : ℕ) (js : List SubscriptionJob)
      (p : Parsed) (log : Log)
      → length js ≡ total
      → Answered rt ctx total js (after_multi_repair rt ctx ws u x latency js p log).0
  after_multi_repair-Answered ws u x latency js (some items, y) log t =
      assemble_items-Answered _ js items t
  after_multi_repair-Answered ws u x latency js (none, y) log t = refused_all _ js

  after_multi_repair-log :
      (ws : List Warning) (u : Usage) (x : Option Failure) (latency : ℕ) (js : List SubscriptionJob)
      (p : Parsed) (log : Log)
      → (after_multi_repair rt ctx ws u x latency js p log).1 ≡ log
  after_multi_repair-log ws u x latency js (some items, y) log = refl
  after_multi_repair-log ws u x latency js (none, y) log = refl

  after_multi-Done :
      (ws : List Warning) (scaled latency : ℕ) (js : List SubscriptionJob) (a : Answer)
      (q : Request) (p : Parsed)
      → length js ≡ total
      → scaled ≤ 65536
      → q.max_output_tokens ≤ 65536
      → Done js (after_multi rt ctx ws scaled latency js a (q ∷ []) p)
  unfolding repair
  after_multi-Done ws scaled latency js a q (some items, x) t s w =
      (assemble_items-Answered _ js items t, (omega arith, (w, tt)))
  after_multi-Done ws scaled latency js a q (none, x) t s w =
      if_keeps (Done js) (is_timeout_exception rt.language.lower x)
        (refused_all _ js, (omega arith, (w, tt)))
        (let r =
            request rt.client rt.system_prompt (rt.repair_prompt (repair_cause x) a.raw_text) 2
              scaled in
          let b = (ask rt.client r (q ∷ [])).0 in
          (
            after_multi_repair-Answered ws _ x latency js (parse_multi rt ctx b.raw_text b.error) _
                t,
            subst Small
                (sym (
                  after_multi_repair-log ws _ x latency js (parse_multi rt ctx b.raw_text b.error)
                    (q ∷ r ∷ [])))
                (omega arith, (w, (s, tt))),
          ))

  prompted-Done :
      (max_tokens : ℕ) (ws : List Warning) (latency : ℕ) (j : SubscriptionJob)
      (js : List SubscriptionJob)
      → length (j ∷ js) ≡ total
      → contains ctx.action_code overlays ≡ true
      → Done (j ∷ js) (multi_over rt ctx max_tokens ws latency [] (j ∷ js))
  unfolding build_user_prompt generate_structured
  prompted-Done max_tokens ws latency j js t h = rw h (
      asked (request rt.client rt.system_prompt _ 4 (scaled_tokens rt ctx max_tokens (j ∷ js)))
        (omega arith))
    where
      asked :
          (q : Request)
          → q.max_output_tokens ≤ 65536
          → Done (j ∷ js) (
              parse_first rt ctx ws
                (scaled_tokens rt ctx max_tokens (j ∷ js))
                latency
                (j ∷ js)
                (ask rt.client q []))
      asked q w =
          after_multi-Done ws (scaled_tokens rt ctx max_tokens (j ∷ js)) latency (j ∷ js)
            (ask rt.client q []).0 q _ t (omega arith) w

  -- A batch that normalizes to at least one job, with an action that has an overlay, gets one result
  -- for each job, in their order, whatever the model does, if the parser of URLs answers for the
  -- handles of the channels of the context: a FAILED callback with a text, or a COMPLETED one whose output is stamped with its job and
  -- holds a deliverable enrichment. At most two calls of the model are made, none for more than 65536
  -- tokens.
  pub reason_multi_answers :
      (max_tokens : ℕ) (envelope : Fields) (ws : List Warning) (latency : ℕ) (j : SubscriptionJob)
      (js : List SubscriptionJob)
      → rt.normalize envelope ≡ normalized ctx ws
      → jobs_or_empty ctx.subscription_jobs ≡ j ∷ js
      → length (j ∷ js) ≡ total
      → contains ctx.action_code overlays ≡ true
      → ((rs : Pairs) × ((reason_multi rt max_tokens envelope latency []).0 ≡ ok rs)
          × Matches (IsItem rt ctx total) (j ∷ js) rs)
        × Small (reason_multi rt max_tokens envelope latency []).1
  unfolding reason_multi
  reason_multi_answers max_tokens envelope ws latency j js h k t o =
      subst (λ n. Done (j ∷ js) (begin_multi rt max_tokens latency [] n)) (sym h)
        (subst (λ l. Done (j ∷ js) (multi_over rt ctx max_tokens ws latency [] l)) (sym k)
          (prompted-Done max_tokens ws latency j js t o))
