-- ===== src/Reasoner/Pairing.antt =====
-- reasoner.py: results that stand for the jobs of a batch, one each and in their order.
use marketer.Prelude.{String, true, false, Option, none, some, List, [], ◌∷◌, ◌≡◌, refl}
use marketer.Schemas.{CallbackOutputData, CallbackBody, SubscriptionJob}
use marketer.Reasoner.Multi.{Pairs, fail_all}
use marketer.Reasoner.Single.Outcome.{is_settled}

module _ (P : SubscriptionJob → CallbackOutputData → Type 0) where
  abbrev pub Promised : SubscriptionJob → Option CallbackOutputData → Type 0
  Promised j none = Unit
  Promised j (some out) = P j out

  -- The pair names the job, its callback is FAILED or COMPLETED, and its output, if any, is as promised.
  abbrev pub IsFor : SubscriptionJob → CallbackBody × Option SubscriptionJob → Type 0
  IsFor j r = (r.1 ≡ some j) × (is_settled r.0 ≡ true) × Promised j r.0.output_data

  abbrev pub Matches : List SubscriptionJob → Pairs → Type 0
  Matches [] [] = Unit
  Matches (j ∷ js) (r ∷ rs) = IsFor j r × Matches js rs
  Matches [] (r ∷ rs) = false ≡ true
  Matches (j ∷ js) [] = false ≡ true

  pub fail_all-Matches : (m : String) (js : List SubscriptionJob) → Matches js (fail_all m js)
  unfolding fail_all
  fail_all-Matches m [] = tt
  fail_all-Matches m (j ∷ js) = ((refl, refl, tt), fail_all-Matches m js)

module _ (P Q : SubscriptionJob → CallbackOutputData → Type 0)
    (f : (j : SubscriptionJob) (out : CallbackOutputData) → P j out → Q j out) where
  Promised-map :
      (j : SubscriptionJob) (o : Option CallbackOutputData) → Promised P j o → Promised Q j o
  Promised-map j none p = tt
  Promised-map j (some out) p = f j out p

  pub Matches-map : (js : List SubscriptionJob) (rs : Pairs) → Matches P js rs → Matches Q js rs
  Matches-map [] [] m = tt
  Matches-map [] (r ∷ rs) m = m
  Matches-map (j ∷ js) [] m = m
  Matches-map (j ∷ js) ((cb, o) ∷ rs) ((e, s, p), m) =
      ((e, s, Promised-map j cb.output_data p), Matches-map js rs m)
