-- ===== src/Normalizer/Jobs/Quantities.antt =====
-- normalizer.py: the quantities for which `_extract_subscription_jobs` answers, and those for which
-- it raises.
use marketer.Prelude.{ℕ, suc, ◌+◌, String, Bool, true, false, ◌&&◌, List, ◌≡◌, refl, arith}
use marketer.Value.{
  Value, null, bool, int, float, str, arr, obj, Items, nil, cons, Fields, Exc, Result, ok, err, get,
  ◌>>=◌,
}
use marketer.Schemas.{Warning, SubscriptionJob}
use marketer.Normalizer.Jobs.{quantity_of, scan_jobs, extract_subscription_jobs}

-- Whether `int` answers for a number.
abbrev is_finite : Value → Bool
is_finite (float b (err e)) = false
is_finite _ = true

abbrev item_is_finite : Value → Bool
item_is_finite (obj item) = is_finite (get "quantity" item)
item_is_finite _ = true

abbrev pub all_finite : Items → Bool
all_finite nil = true
all_finite (cons v vs) = item_is_finite v && all_finite vs

abbrev pub append_items : Items → Items → Items
append_items nil ws = ws
append_items (cons v vs) ws = cons v (append_items vs ws)

abbrev Answers : Result (List SubscriptionJob × List Warning) → Type 0
Answers r = (q : List SubscriptionJob × List Warning) × (r ≡ ok q)

quantity_answers : (v : Value) → is_finite v ≡ true → (n : ℕ) × (quantity_of v ≡ ok n)
unfolding quantity_of
quantity_answers null h = (_, refl)
quantity_answers (bool true) h = (_, refl)
quantity_answers (bool false) h = (_, refl)
quantity_answers (int z) h = (_, refl)
quantity_answers (float b (ok z)) h = (_, refl)
quantity_answers (float b (err e)) h = cc
quantity_answers (str s) h = (_, refl)
quantity_answers (arr vs) h = (_, refl)
quantity_answers (obj fs) h = (_, refl)

bind-Answers :
    (r : Result (List SubscriptionJob × List Warning))
    (f : List SubscriptionJob × List Warning → List SubscriptionJob × List Warning)
    → Answers r
    → Answers (r >>= (λ x. ok (f x)))
bind-Answers (ok q) f h = (f q, refl)
bind-Answers (err e) f h = cc h.1

quantity_bind :
    (q : Result ℕ) (n : ℕ) (f : ℕ → Result (List SubscriptionJob × List Warning))
    → q ≡ ok n
    → Answers (f n)
    → Answers (q >>= f)
quantity_bind q n f h k = rw h k

module _ (lower : String → String) (show : ℕ → String) where
  scan_jobs-Answers :
      (idx seq : ℕ) (items : Items)
      → all_finite items ≡ true
      → Answers (scan_jobs lower show idx seq items)
  unfolding scan_jobs
  scan_jobs-Answers idx seq nil h = (_, refl)
  scan_jobs-Answers idx seq (cons (obj item) rest) h =
      let q = quantity_answers (get "quantity" item) (ground arith) in
      quantity_bind (quantity_of (get "quantity" item)) q.0 _ q.1 (
        bind-Answers (scan_jobs lower show (suc idx) (seq + q.0) rest) _
          (scan_jobs-Answers (suc idx) (seq + q.0) rest (ground arith)))
  scan_jobs-Answers idx seq (cons null rest) h =
      bind-Answers _ _ (scan_jobs-Answers (suc idx) seq rest h)
  scan_jobs-Answers idx seq (cons (bool b) rest) h =
      bind-Answers _ _ (scan_jobs-Answers (suc idx) seq rest h)
  scan_jobs-Answers idx seq (cons (int z) rest) h =
      bind-Answers _ _ (scan_jobs-Answers (suc idx) seq rest h)
  scan_jobs-Answers idx seq (cons (float b z) rest) h =
      bind-Answers _ _ (scan_jobs-Answers (suc idx) seq rest h)
  scan_jobs-Answers idx seq (cons (str s) rest) h =
      bind-Answers _ _ (scan_jobs-Answers (suc idx) seq rest h)
  scan_jobs-Answers idx seq (cons (arr vs) rest) h =
      bind-Answers _ _ (scan_jobs-Answers (suc idx) seq rest h)

  -- The jobs of a subscription are extracted, whatever else their list holds, if each number that
  -- stands as a quantity is finite.
  pub extract_subscription_jobs_answers :
      (client_request : Fields) (items : Items)
      → get "jobs" client_request ≡ arr items
      → all_finite items ≡ true
      → (r : List SubscriptionJob × List Warning) × (extract_subscription_jobs lower show
            client_request
          ≡ ok r)
  unfolding extract_subscription_jobs
  extract_subscription_jobs_answers client_request items h k =
      rw (h, extract_subscription_jobs) (scan_jobs-Answers 0 0 items k)

  bind_raises :
      (r : Result (List SubscriptionJob × List Warning)) (e : Exc)
      (f : List SubscriptionJob × List Warning → List SubscriptionJob × List Warning)
      → r ≡ err e
      → (r >>= (λ x. ok (f x))) ≡ err e
  bind_raises (ok q) e f h = cc
  bind_raises (err x) e f h = h

  quantity_bind_raises :
      (q : Result ℕ) (n : ℕ) (f : ℕ → Result (List SubscriptionJob × List Warning)) (e : Exc)
      → q ≡ ok n
      → f n ≡ err e
      → (q >>= f) ≡ err e
  quantity_bind_raises q n f e h k = rw h k

  scan_jobs_raises :
      (idx seq : ℕ) (before : Items) (item : Fields) (after : Items) (b : Bool) (e : Exc)
      → all_finite before ≡ true
      → get "quantity" item ≡ float b (err e)
      → scan_jobs lower show idx seq (append_items before (cons (obj item) after)) ≡ err e
  unfolding scan_jobs quantity_of
  scan_jobs_raises idx seq nil item after b e h k = rw k refl
  scan_jobs_raises idx seq (cons (obj x) xs) item after b e h k =
      let q = quantity_answers (get "quantity" x) (ground arith) in
      quantity_bind_raises (quantity_of (get "quantity" x)) q.0 _ e q.1 (
        bind_raises
          (scan_jobs lower show (suc idx) (seq + q.0) (append_items xs (cons (obj item) after))) e _
          (scan_jobs_raises (suc idx) (seq + q.0) xs item after b e (ground arith) k))
  scan_jobs_raises idx seq (cons null xs) item after b e h k =
      bind_raises _ e _ (scan_jobs_raises (suc idx) seq xs item after b e h k)
  scan_jobs_raises idx seq (cons (bool c) xs) item after b e h k =
      bind_raises _ e _ (scan_jobs_raises (suc idx) seq xs item after b e h k)
  scan_jobs_raises idx seq (cons (int z) xs) item after b e h k =
      bind_raises _ e _ (scan_jobs_raises (suc idx) seq xs item after b e h k)
  scan_jobs_raises idx seq (cons (float c z) xs) item after b e h k =
      bind_raises _ e _ (scan_jobs_raises (suc idx) seq xs item after b e h k)
  scan_jobs_raises idx seq (cons (str s) xs) item after b e h k =
      bind_raises _ e _ (scan_jobs_raises (suc idx) seq xs item after b e h k)
  scan_jobs_raises idx seq (cons (arr vs) xs) item after b e h k =
      bind_raises _ e _ (scan_jobs_raises (suc idx) seq xs item after b e h k)

  -- If the first quantity of a batch that is an infinite number, or not a number, is that of an object,
  -- the extraction raises what `int` raises for it: no job of the batch is kept.
  pub extract_subscription_jobs_raises :
      (client_request : Fields) (before : Items) (item : Fields) (after : Items) (b : Bool)
      (e : Exc)
      → get "jobs" client_request ≡ arr (append_items before (cons (obj item) after))
      → all_finite before ≡ true
      → get "quantity" item ≡ float b (err e)
      → extract_subscription_jobs lower show client_request ≡ err e
  unfolding extract_subscription_jobs
  extract_subscription_jobs_raises client_request before item after b e g h k =
      rw (g, extract_subscription_jobs) (scan_jobs_raises 0 0 before item after b e h k)
