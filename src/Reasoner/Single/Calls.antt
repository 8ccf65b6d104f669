-- ===== src/Reasoner/Single/Calls.antt =====
-- reasoner.py: the calls of the model that `reason` makes up to a draft.
use Prim.Native.String.{◌++◌ as str_append}
use marketer.Prelude.{
  ℕ, max, ◌≤◌, String, Option, none, some, List, [], ◌∷◌, ◌≡◌, refl, ap, ◌∙◌, arith, leb, length,
  All, if_keeps,
}
use marketer.Schemas.{Warning, PostEnrichment}
use marketer.Llm.{
  Failure, Request, Usage, Answer, Log, add_usage, ask, request, generate_structured, repair,
}
use marketer.Llm.Budget.{usage_at, spent, spent_one, spent_two, spent_three}
use marketer.Reasoner.Assembly.{Runtime, is_truncated_json_error, or_error, repair_cause, Draft}
use marketer.Reasoner.Single.{
  Step, drafted, refused, compact_suffix, timed_out, after_compact, after_repair, after_first,
  compose,
}

module _ (rt : Runtime) (max_tokens : ℕ) where
  abbrev pub cap : ℕ
  cap = max max_tokens 16384

  -- At most `n` requests, each within the limit on its output.
  abbrev pub Within : ℕ → Log → Type 0
  Within n log = (length log ≤ n) × All (λ q. q.max_output_tokens ≤ cap) log

  -- The usage of a draft is what its calls cost, and it says that a repair was attempted exactly if
  -- more than one call was made.
  pub record IsAccounted (log : Log) (d : Draft) : Type 0 where
    pub usage_lem : d.usage ≡ spent rt.client log
    pub repaired_lem : d.repair_attempted ≡ leb 2 (length log)

  abbrev pub Composed : Step × Log → Type 0
  Composed (drafted d, log) = Within 3 log × IsAccounted log d
  Composed (refused m, log) = Within 3 log

  after_compact-Composed :
      (ws : List Warning) (q r s : Request) (first : Answer) (u : Usage) (o : Option PostEnrichment)
      (raw : String) (x : Option Failure) (v : Usage)
      → Within 3 (q ∷ r ∷ s ∷ [])
      → u ≡ add_usage (usage_at rt.client 0 q) (usage_at rt.client 1 r)
      → v ≡ usage_at rt.client 2 s
      → Composed (
          after_compact rt max_tokens ws first u
            (record { parsed = o; raw_text = raw; error = x; usage = v }, q ∷ r ∷ s ∷ []))
  after_compact-Composed ws q r s first u none raw x v w e f = w
  after_compact-Composed ws q r s first u (some p) raw x v w e f = (
    w,
    record {
      usage_lem =
          ap (λ t. add_usage t v) e
          ∙ (ap (λ t. add_usage (add_usage (usage_at rt.client 0 q) (usage_at rt.client 1 r)) t) f
              ∙ spent_three rt.client q r s);
      repaired_lem = refl;
    },
  )

  after_repair-Composed :
      (ws : List Warning) (q r : Request) (first : Answer) (prompt : String)
      (o : Option PostEnrichment) (raw : String) (x : Option Failure) (v : Usage)
      → q.max_output_tokens ≤ cap
      → r.max_output_tokens ≤ cap
      → first.usage ≡ usage_at rt.client 0 q
      → v ≡ usage_at rt.client 1 r
      → Composed (
          after_repair rt max_tokens ws first prompt
            (record { parsed = o; raw_text = raw; error = x; usage = v }, q ∷ r ∷ []))
  unfolding repair
  after_repair-Composed ws q r first prompt (some p) raw x v a b e f = (
    (omega arith, (a, (b, tt))),
    record {
      usage_lem =
          ap (λ t. add_usage t v) e
          ∙ (ap (λ t. add_usage (usage_at rt.client 0 q) t) f ∙ spent_two rt.client q r);
      repaired_lem = refl;
    },
  )
  after_repair-Composed ws q r first prompt none raw x v a b e f =
      if_keeps Composed (is_truncated_json_error rt.language.lower (or_error x first.error))
        (let s = request rt.client rt.system_prompt (str_append prompt compact_suffix) 2 cap in
          let c = (ask rt.client s (q ∷ r ∷ [])).0 in
          after_compact-Composed ws q r s first (add_usage first.usage v) c.parsed c.raw_text
            c.error c.usage (omega arith, (a, (b, (omega arith, tt))))
            (ap (λ t. add_usage t v) e ∙ ap (λ t. add_usage (usage_at rt.client 0 q) t) f) refl)
        (omega arith, (a, (b, tt)))

  after_first-Composed :
      (ws : List Warning) (q : Request) (o : Option PostEnrichment) (raw : String)
      (x : Option Failure) (v : Usage)
      → q.max_output_tokens ≤ cap
      → v ≡ usage_at rt.client 0 q
      → Composed (
          after_first rt max_tokens ws
            (record { parsed = o; raw_text = raw; error = x; usage = v }, q ∷ []))
  unfolding repair
  after_first-Composed ws q (some p) raw x v a e = (
    (omega arith, (a, tt)),
    record { usage_lem = e ∙ spent_one rt.client q; repaired_lem = refl },
  )
  after_first-Composed ws q none raw x v a e =
      let prompt = rt.repair_prompt (repair_cause x) raw in
      if_keeps Composed (timed_out rt max_tokens x) (omega arith, (a, tt))
        (let r = request rt.client rt.system_prompt prompt 2 max_tokens in
          let b = (ask rt.client r (q ∷ [])).0 in
          after_repair-Composed ws q r
            (record { parsed = none; raw_text = raw; error = x; usage = v }) prompt b.parsed
            b.raw_text b.error b.usage a (omega arith) e refl)

  -- The calls up to a draft are at most three, each within the limit, and a draft is accounted for.
  pub compose-Composed :
      (ws : List Warning) (user_prompt : String)
      → Composed (compose rt max_tokens ws user_prompt [])
  unfolding compose generate_structured
  compose-Composed ws user_prompt =
      let q = request rt.client rt.system_prompt user_prompt 4 max_tokens in
      let a = (ask rt.client q []).0 in
      after_first-Composed ws q a.parsed a.raw_text a.error a.usage (omega arith) refl
