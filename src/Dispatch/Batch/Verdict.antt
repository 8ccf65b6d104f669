-- ===== src/Dispatch/Batch/Verdict.antt =====
-- main.py: when the callback of a batch says FAILED.
use marketer.Prelude.{
  Bool, true, false, String, Option, none, some, [], ◌∷◌, ◌≡◌, refl, any, Bool-cases, inl, inr,
}
use marketer.Schemas.{CallbackBody, SubscriptionJob, is_failed}
use marketer.Dispatch.Batch.{Results, fatal_error, any_completed, aggregate_of, aggregate}

-- a failure of the whole batch: a FAILED result that belongs to no job
abbrev pub is_fatal : CallbackBody × Option SubscriptionJob → Bool
is_fatal (cb, some job) = false
is_fatal (cb, none) = is_failed cb.status

fatal_error_lem :
    (results : Results) (m : String) → fatal_error results ≡ some m → any is_fatal results ≡ true
unfolding fatal_error
fatal_error_lem [] m h = cc
fatal_error_lem ((cb, some job) ∷ rest) m h = fatal_error_lem rest m h
fatal_error_lem ((cb, none) ∷ rest) m h = elim (Bool-cases (is_failed cb.status)) [
  | inl f ↦ rw f refl
  | inr f ↦ rw f (fatal_error_lem rest m (rw f at h))
]

aggregate_of_lem :
    (o : Option String) (b : Bool)
    → is_failed (aggregate_of o b).status ≡ true
    → (b ≡ false) × ((m : String) × (o ≡ some m))
aggregate_of_lem none true h = cc
aggregate_of_lem none false h = cc
aggregate_of_lem (some m) true h = cc
aggregate_of_lem (some m) false h = (refl, (m, refl))

-- The callback of a batch says FAILED only if none of its results is COMPLETED and one of them is a
-- failure of the whole batch: jobs that failed one by one do not make it fail.
pub aggregate_failed :
    (results : Results)
    → is_failed (aggregate results).status ≡ true
    → (any_completed results ≡ false) × (any is_fatal results ≡ true)
unfolding aggregate
aggregate_failed results h =
    let k = aggregate_of_lem (fatal_error results) (any_completed results) h in
    (k.0, fatal_error_lem results k.1.0 k.1.1)
