-- ===== src/Dispatch/Delivery/Attempts.antt =====
-- main.py: which attempts the retry loops make, and how they end.
use marketer.Prelude.{
  ℕ, zero, suc, ◌+◌, ◌-◌, ◌*◌, ◌≤◌, ◌<◌, true, false, ◌&&◌, ◌≡◌, refl, List, [], ◌∷◌, ◌++◌, arith,
  ◌==◌, ap, ◌∙◌, ◌≢◌, Bool, leb,
}
use marketer.Dispatch.Delivery.{
  Settings, Reply, response, Event, request, sleep, Verdict, success, again, give_up, raise,
  Outcome, delivered, failed, raised, backoff, pause, attempt_loop, attempts, plain_verdict,
  orch_verdict, patch_callback, post_orch_job, post_dispatcher, rstrip_slash,
}

-- requests in a trace, and the seconds slept
abbrev pub requests : List Event → ℕ
requests [] = 0
requests (request _ ∷ t) = suc (requests t)
requests (sleep _ ∷ t) = requests t

abbrev pub slept : List Event → ℕ
slept [] = 0
slept (request _ ∷ t) = slept t
slept (sleep n ∷ t) = n + slept t

-- Requests, with one sleep of at most 8 seconds between two of them.
abbrev pub is_paced : List Event → Bool
is_paced [] = true
is_paced (request _ ∷ []) = true
is_paced (request _ ∷ sleep n ∷ request k ∷ t) = leb n 8 && is_paced (request k ∷ t)
is_paced _ = false

-- The trace of n failed attempts from `k` on, each followed by its sleep, and then one more.
abbrev pub tries_then : ℕ → ℕ → List Event
tries_then zero k = request k ∷ []
tries_then (suc n) k = request k ∷ sleep (backoff k) ∷ tries_then n (suc k)

abbrev pub outcome_of : Verdict → Outcome
outcome_of success = delivered
outcome_of again = failed
outcome_of give_up = failed
outcome_of raise = raised

module _ (verdict : Reply → Verdict) (server : ℕ → Reply) where
  -- attempts k, k + 1, ..., k + n - 1 are all to be repeated
  abbrev pub AllAgain : ℕ → ℕ → Type 0
  AllAgain zero k = Unit
  AllAgain (suc n) k = (verdict (server k) ≡ again) × AllAgain n (suc k)

  loop_bounds :
      (left k : ℕ)
      → (requests (attempt_loop verdict server left k).0 ≤ left)
        × (slept (attempt_loop verdict server left k).0 ≤ 8 * (left - 1))
  unfolding attempt_loop
  loop_bounds zero k = (omega arith, omega arith)
  loop_bounds (suc zero) k = ground arith
  loop_bounds (suc (suc left)) k = ground (arith, loop_bounds (suc left) (suc k))

  short_pause : (k : ℕ) → leb (backoff k) 8 ≡ true
  short_pause k = ground arith

  -- A loop with attempts left starts with a request.
  loop_head :
      (left k : ℕ)
      → (rest : List Event) × ((attempt_loop verdict server (suc left) k).0 ≡ request k ∷ rest)
  unfolding attempt_loop
  loop_head left k = at_verdict (verdict (server k)) refl
    where
      at_verdict :
          (v : Verdict)
          → verdict (server k) ≡ v
          → (rest : List Event) × ((attempt_loop verdict server (suc left) k).0 ≡ request k ∷ rest)
      at_verdict success e = ([], rw (e, attempt_loop) refl)
      at_verdict again e =
          (pause left k ++ (attempt_loop verdict server left (suc k)).0, rw (e, attempt_loop) refl)
      at_verdict give_up e = ([], rw (e, attempt_loop) refl)
      at_verdict raise e = ([], rw (e, attempt_loop) refl)

  paced_after :
      (k n j : ℕ) (t rest : List Event)
      → t ≡ request j ∷ rest
      → is_paced t ≡ true
      → leb n 8 ≡ true
      → is_paced (request k ∷ sleep n ∷ t) ≡ true
  paced_after k n j t rest h p e = rw h (rw e (rw h at p))

  loop_paced : (left k : ℕ) → is_paced (attempt_loop verdict server left k).0 ≡ true
  unfolding attempt_loop
  loop_paced zero k = refl
  loop_paced (suc zero) k = ground arith
  loop_paced (suc (suc left)) k =
      let (r, e) = loop_head left (suc k) in
      let later =
        paced_after k (backoff k) (suc k) (attempt_loop verdict server (suc left) (suc k)).0 r e
          (loop_paced (suc left) (suc k)) (short_pause k) in
      ground (arith, later)

  -- The first attempt that is not to be repeated decides.
  loop_decides :
      (n left k j : ℕ) (v : Verdict)
      → n < left
      → j ≡ n + k
      → AllAgain n k
      → verdict (server j) ≡ v
      → v ≢ again
      → attempt_loop verdict server left k ≡ (tries_then n k, outcome_of v)
  unfolding attempt_loop
  loop_decides n zero k j v h e a d na = elim h [ ]
  loop_decides zero (suc left) k j v h e a d na =
      let here : verdict (server k) ≡ v = cc (d, let p : j ≡ k = omega arith in p) in
      at_verdict v here na
    where
      at_verdict :
          (w : Verdict)
          → verdict (server k) ≡ w
          → w ≢ again
          → attempt_loop verdict server (suc left) k ≡ (tries_then zero k, outcome_of w)
      at_verdict success p na = rw (p, attempt_loop)
      at_verdict again p na = absurd (na refl)
      at_verdict give_up p na = rw (p, attempt_loop)
      at_verdict raise p na = rw (p, attempt_loop)
  loop_decides (suc n) (suc zero) k j v h e a d na = absurd (omega arith)
  loop_decides (suc n) (suc (suc left)) k j v h e a d na =
      rw (a.0, attempt_loop)
        (rw (loop_decides n (suc left) (suc k) j v (omega arith) (omega arith) a.1 d na))

  -- With every attempt to be repeated, the last one is made and the call fails.
  loop_exhausts :
      (left k : ℕ)
      → AllAgain (suc left) k
      → attempt_loop verdict server (suc left) k ≡ (tries_then left k, failed)
  unfolding attempt_loop
  loop_exhausts zero k a = rw (a.0, attempt_loop)
  loop_exhausts (suc left) k a = rw (a.0, attempt_loop) (rw (loop_exhausts left (suc k) a.1))

attempts_pos : (settings : Settings) → attempts settings ≡ suc (attempts settings - 1)
attempts_pos settings = omega arith

-- None of the three calls makes more than max(1, callback_retry_attempts) requests, whatever the other
-- side answers; between two requests it sleeps once, for at most 8 seconds, and at no other time, and
-- so for at most 8 seconds for each attempt but one.
pub delivery_bounds :
    (settings : Settings) (server : ℕ → Reply)
    → (requests (patch_callback settings server).0 ≤ attempts settings)
      × (slept (patch_callback settings server).0 ≤ 8 * (attempts settings - 1))
      × (is_paced (patch_callback settings server).0 ≡ true)
      × (requests (post_orch_job settings server).0 ≤ attempts settings)
      × (slept (post_orch_job settings server).0 ≤ 8 * (attempts settings - 1))
      × (is_paced (post_orch_job settings server).0 ≡ true)
      × (requests (post_dispatcher settings server).0 ≤ attempts settings)
      × (slept (post_dispatcher settings server).0 ≤ 8 * (attempts settings - 1))
      × (is_paced (post_dispatcher settings server).0 ≡ true)
unfolding patch_callback post_orch_job post_dispatcher
delivery_bounds settings server = ground (
  arith,
  loop_bounds plain_verdict server (attempts settings) 1,
  loop_bounds orch_verdict server (attempts settings) 1,
  loop_paced plain_verdict server (attempts settings) 1,
  loop_paced orch_verdict server (attempts settings) 1,
)

-- If every attempt within the limit fails in a way that is retried, all of them are made and the
-- callback fails.
pub patch_callback_fails :
    (settings : Settings) (server : ℕ → Reply)
    → AllAgain plain_verdict server (suc (attempts settings - 1)) 1
    → patch_callback settings server ≡ (tries_then (attempts settings - 1) 1, failed)
unfolding patch_callback
patch_callback_fails settings server a =
    ap (λ n. attempt_loop plain_verdict server n 1) (attempts_pos settings)
    ∙ loop_exhausts plain_verdict server (attempts settings - 1) 1 a

-- A job is not posted again after a 4xx other than 409: with a base URL, if the first n attempts are
-- retried and the next one, within the limit, gets such a status, the call fails after n + 1 requests.
pub post_orch_job_terminal :
    (settings : Settings) (server : ℕ → Reply) (n status : ℕ)
    → (rstrip_slash settings.orch_api_base_url == "") ≡ false
    → n < attempts settings
    → AllAgain orch_verdict server n 1
    → server (n + 1) ≡ response status
    → 400 ≤ status
    → status < 500
    → status ≢ 409
    → post_orch_job settings server ≡ (tries_then n 1, failed)
unfolding post_orch_job
post_orch_job_terminal settings server n status base h a r lo hi ne = rw base (
    loop_decides orch_verdict server n (attempts settings) 1 (n + 1) give_up h refl a
      (rw r (unfold orch_verdict in ground arith)) (λ e. cc))
