-- ===== src/Reasoner/Fanout/Shared.antt =====
-- reasoner.py: what the results of a fan-out share.
use marketer.Prelude.{
  ℕ, suc, String, true, Option, none, some, List, [], ◌∷◌, ◌≡◌, refl, ap, length, contains,
  if_keeps,
}
use marketer.Value.{Fields, Result, ok, err}
use marketer.Schemas.{
  Status, Warning, CfPayload, CallbackOutputData, CallbackBody, PostEnrichment, SubscriptionJob,
}
use marketer.Context.{InternalContext, Normalized, normalized, invalid, crashed}
use marketer.Validator.Correction.{Verdict, IsDeliverable}
use marketer.Llm.{Client, Log}
use marketer.Reasoner.Assembly.{Runtime, jobs_or_empty, stamp_of, payload_of}
use marketer.Reasoner.Single.{inject_dna, begin, reason}
use marketer.Reasoner.Single.Outcome.{is_settled, Reported, Told, begin-Told}
use marketer.Reasoner.Multi.{Pairs}
use marketer.Reasoner.Clone.{clone_envelope_for_job}
use marketer.Reasoner.Pairing.{Promised, IsFor, Matches}
use marketer.Reasoner.Fanout.{
  known_fanout_actions, extract_brand_dna, runtime_of, run_clone, run_one, settled, stamp_option,
  stamped, stitch, fan_out, reason_multi_fanout,
}

module _ (rt : Runtime) (max_tokens : ℕ) (clients : ℕ → Client) (latencies : ℕ → ℕ)
    (dna : Option String) (envelope : Fields) where
  -- What the clone of a job led to: the context that it normalizes to, an enrichment that is
  -- deliverable in that context, with the shared brand DNA in it, and the payload made of it.
  pub record IsShared (j : SubscriptionJob) (e : PostEnrichment) (p : CfPayload) : Type 0 where
    pub clone : Fields
    pub ctx : InternalContext
    pub warnings : List Warning
    pub cloned : clone_envelope_for_job envelope j ≡ ok clone
    pub normal : rt.normalize clone ≡ normalized ctx warnings
    pub wanted : PostEnrichment
    pub verdict : Verdict
    pub promises : IsDeliverable rt.language rt.urlparse ctx wanted verdict
    pub enriched : e ≡ inject_dna rt max_tokens dna verdict.enrichment
    pub paid : p ≡ payload_of ctx e

  abbrev Shared : SubscriptionJob → Option CallbackOutputData → Type 0
  Shared j o = Promised (λ k out. IsShared k out.enrichment out.payload) j o

  abbrev Kept : SubscriptionJob → Result CallbackBody → Type 0
  Kept j (err x) = Unit
  Kept j (ok cb) = (is_settled cb ≡ true) × Shared j cb.output_data

  Reported-Shared :
      (j : SubscriptionJob) (idx : ℕ) (clone : Fields) (ctx : InternalContext) (ws : List Warning)
      (log : Log) (o : Option CallbackOutputData)
      → clone_envelope_for_job envelope j ≡ ok clone
      → rt.normalize clone ≡ normalized ctx ws
      → Reported (runtime_of rt max_tokens clients latencies idx) max_tokens ctx dna log o
      → Shared j o
  Reported-Shared j idx clone ctx ws log none c n k = tt
  Reported-Shared j idx clone ctx ws log (some out) c n k = record {
    clone = clone;
    ctx = ctx;
    warnings = ws;
    cloned = c;
    normal = n;
    wanted = k.wanted;
    verdict = k.verdict;
    promises = k.promises;
    enriched = k.enriched;
    paid = k.paid;
  }

  Told-Kept :
      (j : SubscriptionJob) (idx : ℕ) (clone : Fields) (ctx : InternalContext) (ws : List Warning)
      (r : Result CallbackBody × Log)
      → clone_envelope_for_job envelope j ≡ ok clone
      → rt.normalize clone ≡ normalized ctx ws
      → Told (runtime_of rt max_tokens clients latencies idx) max_tokens ctx dna r
      → Kept j r.0
  Told-Kept j idx clone ctx ws (err x, log) c n t = tt
  Told-Kept j idx clone ctx ws (ok cb, log) c n (w, s, q) =
      (s, Reported-Shared j idx clone ctx ws log cb.output_data c n q)

  begin-Kept :
      (j : SubscriptionJob) (idx : ℕ) (clone : Fields) (n : Normalized)
      → clone_envelope_for_job envelope j ≡ ok clone
      → rt.normalize clone ≡ n
      → Kept j
          (begin
            (runtime_of rt max_tokens clients latencies idx)
            max_tokens
            dna
            (latencies idx)
            []
            n).0
  begin-Kept j idx clone (crashed x) c h = tt
  begin-Kept j idx clone (invalid m) c h = (refl, tt)
  begin-Kept j idx clone (normalized ctx ws) c h =
      Told-Kept j idx clone ctx ws _ c h (begin-Told _ max_tokens ctx dna ws (latencies idx))

  run_clone-Kept :
      (j : SubscriptionJob) (idx : ℕ) (c : Result Fields)
      → clone_envelope_for_job envelope j ≡ c
      → Kept j (run_clone rt max_tokens clients latencies dna idx c)
  unfolding reason
  run_clone-Kept j idx (err x) h = tt
  run_clone-Kept j idx (ok clone) h = begin-Kept j idx clone _ h refl

  run_one-Kept :
      (j : SubscriptionJob) (idx : ℕ)
      → Kept j (run_one rt max_tokens clients latencies dna envelope idx j)
  unfolding run_one
  run_one-Kept j idx =
      if_keeps (Kept j) (contains j.action_key known_fanout_actions)
        (run_clone-Kept j idx (clone_envelope_for_job envelope j) refl) (refl, tt)

  -- The output of a job: stamped with it, and shared.
  pub record IsFanned (total : ℕ) (j : SubscriptionJob) (out : CallbackOutputData) : Type 0 where
    pub index_lem : out.trace.job_index ≡ some j.index
    pub key_lem : out.trace.job_action_key ≡ some j.action_key
    pub total_lem : out.trace.total_jobs ≡ some total
    pub shared : IsShared j out.enrichment out.payload

  stamped-IsFor :
      (total : ℕ) (j : SubscriptionJob) (r : Result CallbackBody)
      → Kept j r
      → IsFor (IsFanned total) j (
        stamped rt max_tokens clients latencies
            (stamp_of j total)
            (settled rt max_tokens clients latencies r),
        some j,
      )
  stamped-IsFor total j (err x) k = (refl, refl, tt)
  stamped-IsFor total j (ok cb) (s, q) =
      let (a, b) = ready cb.status cb.output_data cb.error_message s q in (refl, a, b)
    where
      ready :
          (st : Status) (o : Option CallbackOutputData) (m : Option String)
          → is_settled (record { status = st; output_data = o; error_message = m }) ≡ true
          → Shared j o
          → (is_settled (
                stamped rt max_tokens clients latencies
                  (stamp_of j total)
                  (record { status = st; output_data = o; error_message = m }))
              ≡ true)
            × Promised
                (IsFanned total)
                j
                (stamp_option rt max_tokens clients latencies (stamp_of j total) o)
      ready st none m s q = (s, tt)
      ready st (some out) m s q =
          (s, record { index_lem = refl; key_lem = refl; total_lem = refl; shared = q })

  stitch-Matches :
      (total idx : ℕ) (js : List SubscriptionJob)
      → Matches
          (IsFanned total)
          js
          (stitch rt max_tokens clients latencies dna envelope total idx js)
  unfolding stitch
  stitch-Matches total idx [] = tt
  stitch-Matches total idx (j ∷ js) = (
    stamped-IsFor total j (run_one rt max_tokens clients latencies dna envelope idx j)
        (run_one-Kept j idx),
    stitch-Matches total (suc idx) js,
  )

module _ (rt : Runtime) (max_tokens : ℕ) (clients : ℕ → Client) (latencies : ℕ → ℕ) where
  -- A fan-out over at least one job gives one result for each job, in their order, whatever the model
  -- does and whatever the calls of `reason` raise: a FAILED callback with a text, or a COMPLETED one
  -- whose output is stamped with its job and holds an enrichment that is deliverable in the context of
  -- the clone of the job, with the extracted brand DNA, if there is one, in place of its own.
  pub reason_multi_fanout-Matches :
      (dna_tokens : ℕ) (envelope : Fields) (ctx : InternalContext) (ws : List Warning)
      (j : SubscriptionJob) (js : List SubscriptionJob) (dna : Option String) (log : Log)
      → rt.normalize envelope ≡ normalized ctx ws
      → jobs_or_empty ctx.subscription_jobs ≡ j ∷ js
      → extract_brand_dna rt dna_tokens envelope [] ≡ (ok dna, log)
      → (rs : Pairs) × (reason_multi_fanout rt max_tokens clients latencies dna_tokens envelope []
          ≡ (ok rs, log))
        × Matches
            (IsFanned rt max_tokens clients latencies dna envelope (length (j ∷ js)))
            (j ∷ js)
            rs
  unfolding reason_multi_fanout
  reason_multi_fanout-Matches dna_tokens envelope ctx ws j js dna log h k e = (
    stitch rt max_tokens clients latencies dna envelope (length (j ∷ js)) 0 (j ∷ js),
    rw h (rw k (ap (fan_out rt max_tokens clients latencies envelope (j ∷ js)) e)),
    stitch-Matches rt max_tokens clients latencies dna envelope (length (j ∷ js)) 0 (j ∷ js),
  )
