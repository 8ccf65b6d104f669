-- ===== src/Reasoner/Fanout/BrandDna.antt =====
-- reasoner.py: the brand DNA that the outputs of a fan-out carry.
use marketer.Prelude.{
  ℕ, String, Bool, true, false, Option, none, some, List, [], ◌∷◌, ◌≡◌, refl, subst, ap, ◌∙◌, ◌==◌,
  length, if◌then◌else◌,
}
use marketer.Value.{Fields, Result, ok, err}
use marketer.Schemas.{Warning, CallbackOutputData, PostEnrichment, SubscriptionJob}
use marketer.Context.{InternalContext, Normalized, normalized, invalid, crashed}
use marketer.Llm.{Client, Attempt, returned, raised, Log}
use marketer.Reasoner.Assembly.{Runtime, jobs_or_empty}
use marketer.Reasoner.Single.{inject_dna}
use marketer.Reasoner.Multi.{Pairs}
use marketer.Reasoner.Pairing.{Matches, Matches-map}
use marketer.Reasoner.Fanout.{dna_of, begin_dna, extract_brand_dna, reason_multi_fanout}
use marketer.Reasoner.Fanout.Shared.{IsFanned, reason_multi_fanout-Matches}

-- A text that is there is not empty.
abbrev Filled : Option String → Type 0
Filled none = Unit
Filled (some d) = (d == "") ≡ false

some_text-Filled : (s : String) (b : Bool) → (s == "") ≡ b → Filled (if b then none else some s)
some_text-Filled s true h = tt
some_text-Filled s false h = h

dna_of-Filled : (r : Attempt (Option String)) → Filled (dna_of r)
dna_of-Filled (raised x) = tt
dna_of-Filled (returned o) = some_text-Filled _ _ refl

unless-Filled : (b : Bool) (r : Attempt (Option String)) → Filled (if b then none else dna_of r)
unless-Filled true r = tt
unless-Filled false r = dna_of-Filled r

abbrev Extracted : Result (Option String) × Log → Type 0
Extracted (err e, log) = Unit
Extracted (ok dna, log) = Filled dna

begin_dna-Extracted :
    (rt : Runtime) (max_tokens : ℕ) (log : Log) (n : Normalized)
    → Extracted (begin_dna rt max_tokens log n)
begin_dna-Extracted rt max_tokens log (crashed x) = tt
begin_dna-Extracted rt max_tokens log (invalid m) = tt
begin_dna-Extracted rt max_tokens log (normalized ctx ws) = unless-Filled _ _

pub extract_brand_dna_answers :
    (rt : Runtime) (max_tokens : ℕ) (envelope : Fields) (log : Log) (ctx : InternalContext)
    (ws : List Warning)
    → rt.normalize envelope ≡ normalized ctx ws
    → (dna : Option String) × (log' : Log) × (extract_brand_dna rt max_tokens envelope log
        ≡ (ok dna, log'))
unfolding extract_brand_dna
extract_brand_dna_answers rt max_tokens envelope log ctx ws h =
    (_, _, ap (begin_dna rt max_tokens log) h)

injected :
    (rt : Runtime) (max_tokens : ℕ) (d : String) (e : PostEnrichment)
    → (d == "") ≡ false
    → (inject_dna rt max_tokens (some d) e).brand_dna ≡ d
injected rt max_tokens d e h = rw h refl

-- If the extraction of the brand DNA gives a text, every output of the fan-out carries that text, in
-- its enrichment and as the client DNA of its payload.
pub reason_multi_fanout-brand_dna :
    (rt : Runtime) (max_tokens : ℕ) (clients : ℕ → Client) (latencies : ℕ → ℕ) (dna_tokens : ℕ)
    (envelope : Fields) (ctx : InternalContext) (ws : List Warning) (j : SubscriptionJob)
    (js : List SubscriptionJob) (d : String) (log : Log)
    → rt.normalize envelope ≡ normalized ctx ws
    → jobs_or_empty ctx.subscription_jobs ≡ j ∷ js
    → extract_brand_dna rt dna_tokens envelope [] ≡ (ok (some d), log)
    → (rs : Pairs) × (reason_multi_fanout rt max_tokens clients latencies dna_tokens envelope []
        ≡ (ok rs, log))
      × Matches (λ k out. (out.enrichment.brand_dna ≡ d) × (out.payload.client_dna ≡ d)) (j ∷ js) rs
unfolding extract_brand_dna
reason_multi_fanout-brand_dna rt max_tokens clients latencies dna_tokens envelope ctx ws j js d log
      h k e =
    let (rs, made, m) =
      reason_multi_fanout-Matches rt max_tokens clients latencies dna_tokens envelope ctx ws j js
        (some d) log h k e in
    let filled = subst Extracted e (begin_dna-Extracted rt dna_tokens [] (rt.normalize envelope)) in
    (rs, made, Matches-map _ _ (λ i out f. carried i out f filled) (j ∷ js) rs m)
  where
    carried :
        (i : SubscriptionJob) (out : CallbackOutputData)
        → IsFanned rt max_tokens clients latencies (some d) envelope (length (j ∷ js)) i out
        → (d == "") ≡ false
        → (out.enrichment.brand_dna ≡ d) × (out.payload.client_dna ≡ d)
    carried i out r f =
        let s = r.shared in
        let b =
          ap (λ e. e.brand_dna) s.enriched ∙ injected rt max_tokens d s.verdict.enrichment f in
        (b, ap (λ p. p.client_dna) s.paid ∙ b)
