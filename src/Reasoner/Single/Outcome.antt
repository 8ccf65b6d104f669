-- ===== src/Reasoner/Single/Outcome.antt =====
-- reasoner.py: what `reason` reports, and what its calls cost.
use marketer.Prelude.{
  ℕ, String, Bool, true, false, ◌&&◌, not, ◌==◌, Option, none, some, List, [], ◌∷◌, ◌≡◌, refl, sym,
  subst, arith, leb, length, is_empty, is_some, contains, map, if_keeps, if◌then◌else◌,
}
use marketer.Value.{Fields, Result, ok, err}
use marketer.Schemas.{
  Warning, CallbackOutputData, CallbackBody, Status, PostEnrichment, TraceInfo, failed_body,
}
use marketer.Context.{InternalContext, Normalized, normalized, invalid, crashed}
use marketer.Catalog.{overlays}
use marketer.Validator.Cta.{handles_of}
use marketer.Validator.Correction.{
  Verdict, IsDeliverable, validate_and_correct-IsDeliverable, validate_and_correct_total,
}
use marketer.Llm.{Usage, Log}
use marketer.Llm.Budget.{spent}
use marketer.Reasoner.Assembly.{
  Runtime, build_user_prompt, Draft, payload_of, assemble_single_callback,
}
use marketer.Reasoner.Single.{
  Step, drafted, refused, validated, inject_dna, judge, conclude, prompted, web_refusal,
  prior_refusal, begin, reason,
}
use marketer.Reasoner.Single.Calls.{Within, IsAccounted, Composed, compose-Composed}

abbrev pub tokens_of : TraceInfo → Usage
tokens_of t = record {
  input_tokens = t.input_tokens;
  output_tokens = t.output_tokens;
  thoughts_tokens = t.thoughts_tokens;
}

-- A callback is FAILED with a text and no output, or COMPLETED with an output and no text.
abbrev pub well_formed : Status → Bool → Bool → Bool
well_formed Status.completed output error = output && not error
well_formed Status.failed output error = not output && error
well_formed Status.in_progress output error = false

abbrev pub is_settled : CallbackBody → Bool
is_settled cb = well_formed cb.status (is_some cb.output_data) (is_some cb.error_message)

pub not_blocked {ℓ} :
    {A : Type ℓ} (bs : List String) (x y : A) → bs ≡ [] → (if not (is_empty bs) then x else y) ≡ y
not_blocked [] x y h = refl
not_blocked (b ∷ bs) x y h = ground arith

module _ (rt : Runtime) (max_tokens : ℕ) (ctx : InternalContext) (dna : Option String) where
  -- What the output of a COMPLETED callback promises, after the calls of the log.
  pub record IsReported (log : Log) (out : CallbackOutputData) : Type 0 where
    pub wanted : PostEnrichment
    pub verdict : Verdict
    pub promises : IsDeliverable rt.language rt.urlparse ctx wanted verdict
    pub enriched : out.enrichment ≡ inject_dna rt max_tokens dna verdict.enrichment
    pub paid : out.payload ≡ payload_of ctx out.enrichment
    pub accounted : tokens_of out.trace ≡ spent rt.client log
    pub repaired : out.trace.repair_attempted ≡ leb 2 (length log)

  abbrev pub Reported : Log → Option CallbackOutputData → Type 0
  Reported log none = Unit
  Reported log (some out) = IsReported log out

  -- What holds of an end of `reason`, whatever it is.
  abbrev pub Told : Result CallbackBody × Log → Type 0
  Told (err x, log) = Within rt max_tokens 3 log
  Told (ok cb, log) =
      Within rt max_tokens 3 log × (is_settled cb ≡ true) × Reported log cb.output_data

  judge-Told :
      (latency : ℕ) (d : Draft) (log : Log) (r : Result Verdict)
      → Within rt max_tokens 3 log
      → IsAccounted rt max_tokens log d
      → validated rt max_tokens ctx d.enrichment ≡ r
      → Told (judge rt max_tokens ctx dna latency d log r)
  unfolding assemble_single_callback
  judge-Told latency d log (err x) w a h = w
  judge-Told latency d log (ok v) w a h =
      let k = validate_and_correct-IsDeliverable rt.language rt.urlparse ctx d.enrichment v h in
      subst Told (sym (not_blocked v.blocking _ _ k.never_blocked)) (
        w,
        refl,
        record {
          wanted = d.enrichment;
          verdict = v;
          promises = k;
          enriched = refl;
          paid = refl;
          accounted = a.usage_lem;
          repaired = a.repaired_lem;
        },
      )

  conclude-Told :
      (latency : ℕ) (s : Step × Log)
      → Composed rt max_tokens s
      → Told (conclude rt max_tokens ctx dna latency s)
  unfolding conclude
  conclude-Told latency (refused m, log) w = (w, refl, tt)
  conclude-Told latency (drafted d, log) (w, a) = judge-Told latency d log _ w a refl

  prompted-Told :
      (ws : List Warning) (latency : ℕ) (r : Result String)
      → Told (prompted rt max_tokens ctx ws dna latency [] r)
  prompted-Told ws latency (err x) = (omega arith, tt)
  prompted-Told ws latency (ok p) = conclude-Told latency _ (compose-Composed rt max_tokens ws p)

  failed-Told : (m : String) → Told (ok (failed_body m), [])
  failed-Told m = ((omega arith, tt), refl, tt)

  pub begin-Told :
      (ws : List Warning) (latency : ℕ)
      → Told (begin rt max_tokens dna latency [] (normalized ctx ws))
  begin-Told ws latency =
      if_keeps Told (ctx.action_code == "create_web") (failed-Told (web_refusal rt max_tokens)) (
        if_keeps Told (ctx.action_code == "edit_post" && not (is_some ctx.prior_post))
          (failed-Told (prior_refusal rt max_tokens)) (prompted-Told ws latency _))

  reason-Told :
      (envelope : Fields) (ws : List Warning) (latency : ℕ)
      → rt.normalize envelope ≡ normalized ctx ws
      → Told (reason rt max_tokens dna envelope latency [])
  unfolding reason
  reason-Told envelope ws latency h =
      subst (λ n. Told (begin rt max_tokens dna latency [] n)) (sym h) (begin-Told ws latency)

  -- The output of a COMPLETED callback of `reason` holds an enrichment that the validator promises to
  -- be deliverable, with the given brand DNA, if any, in place of its own; the payload is made of it;
  -- the tokens of the trace are the sum of those of all the calls that were made; and the trace says
  -- that a repair was attempted exactly if there was more than one call.
  pub reason-IsReported :
      (envelope : Fields) (ws : List Warning) (latency : ℕ) (cb : CallbackBody) (log : Log)
      (out : CallbackOutputData)
      → rt.normalize envelope ≡ normalized ctx ws
      → reason rt max_tokens dna envelope latency [] ≡ (ok cb, log)
      → cb.output_data ≡ some out
      → IsReported log out
  reason-IsReported envelope ws latency cb log out h e o =
      subst (Reported log) o (subst Told e (reason-Told envelope ws latency h)).2

module _ (rt : Runtime) (max_tokens : ℕ) (ctx : InternalContext) (dna : Option String)
    (parses : (name u : String)
      → contains
          (rt.language.lower u)
          (map rt.language.lower (handles_of ctx.available_channels name))
        ≡ true
      → (p : String × String) × (rt.urlparse u ≡ ok p)) where
  abbrev Answered : Result CallbackBody × Log → Type 0
  Answered r = (cb : CallbackBody) × (r.0 ≡ ok cb) × (is_settled cb ≡ true)

  failed-Answered : (m : String) (log : Log) → Answered (ok (failed_body m), log)
  failed-Answered m log = (failed_body m, refl, refl)

  judge-Answered :
      (latency : ℕ) (d : Draft) (log : Log) (v : Verdict)
      → validated rt max_tokens ctx d.enrichment ≡ ok v
      → Answered (judge rt max_tokens ctx dna latency d log (ok v))
  unfolding assemble_single_callback
  judge-Answered latency d log v h =
      let k = validate_and_correct-IsDeliverable rt.language rt.urlparse ctx d.enrichment v h in
      subst Answered (sym (not_blocked v.blocking _ _ k.never_blocked)) (_, refl, refl)

  conclude-Answered :
      (latency : ℕ) (s : Step × Log) → Answered (conclude rt max_tokens ctx dna latency s)
  unfolding conclude
  conclude-Answered latency (refused m, log) = failed-Answered m log
  conclude-Answered latency (drafted d, log) =
      let (v, h) = validate_and_correct_total rt.language rt.urlparse ctx parses d.enrichment in
      subst (λ r. Answered (judge rt max_tokens ctx dna latency d log r)) (sym h)
        (judge-Answered latency d log v h)

  begin-Answered :
      (ws : List Warning) (latency : ℕ)
      → contains ctx.action_code overlays ≡ true
      → Answered (begin rt max_tokens dna latency [] (normalized ctx ws))
  unfolding build_user_prompt
  begin-Answered ws latency h =
      if_keeps Answered (ctx.action_code == "create_web") (failed-Answered _ []) (
        if_keeps Answered (ctx.action_code == "edit_post" && not (is_some ctx.prior_post))
          (failed-Answered _ []) (rw h (conclude-Answered latency _)))

  -- `reason` answers, with a callback that is FAILED with a text and no output or COMPLETED with an
  -- output and no text, whatever the model does, if the envelope normalizes to an action that has an
  -- overlay and the parser of URLs answers for the handles of its channels.
  pub reason_answers :
      (envelope : Fields) (ws : List Warning) (latency : ℕ)
      → rt.normalize envelope ≡ normalized ctx ws
      → contains ctx.action_code overlays ≡ true
      → (cb : CallbackBody) × ((reason rt max_tokens dna envelope latency []).0 ≡ ok cb)
        × (is_settled cb ≡ true)
  unfolding reason
  reason_answers envelope ws latency h k =
      subst (λ n. Answered (begin rt max_tokens dna latency [] n)) (sym h)
        (begin-Answered ws latency k)

-- Whatever the envelope and the answers of the model are, `reason` makes at most three calls of it,
-- none of which asks for more tokens than the larger of its own limit and 16384.
pub reason_calls :
    (rt : Runtime) (max_tokens : ℕ) (dna : Option String) (envelope : Fields) (latency : ℕ)
    → Within rt max_tokens 3 (reason rt max_tokens dna envelope latency []).1
unfolding reason
reason_calls rt max_tokens dna envelope latency = begun (rt.normalize envelope)
  where
    within :
        (ctx : InternalContext) (r : Result CallbackBody × Log)
        → Told rt max_tokens ctx dna r
        → Within rt max_tokens 3 r.1
    within ctx (err x, log) t = t
    within ctx (ok cb, log) t = t.0

    begun : (n : Normalized) → Within rt max_tokens 3 (begin rt max_tokens dna latency [] n).1
    begun (crashed x) = (omega arith, tt)
    begun (invalid m) = (omega arith, tt)
    begun (normalized ctx ws) = within ctx _ (begin-Told rt max_tokens ctx dna ws latency)
