-- ===== src/Retry.antt =====
-- src/actenon_permit/sdk/retry.py. `fn` is a step on whatever state its calls share; times are whole
-- numbers of a unit that the delays are multiples of. `random.uniform(0, high)` of an attempt is a
-- parameter, of which no more is used than that it is at most `high`.
use actenon_permit.Base.{
  ℕ, zero, suc, ◌+◌, ◌-◌, ◌*◌, ◌^◌, ◌≡◌, ◌≤◌, ◌<◌, inl, inr, refl, arith, Bool, true, false, not,
  ◌||◌, List, [], ◌∷◌, length, All, leb, if◌then◌else◌, sym, ap, Bool-cases,
}

-- How one call of `fn` ends.
pub data Attempt (T E : Type 0) : Type 0 where
  returned : T → Attempt T E
  raised : E → Attempt T E

-- What `with_retry` ends with, the state, the number of calls and the sleeps, in their order. It
-- raises an assertion when it made no call.
pub data Ending (T E : Type 0) : Type 0 where
  finished : Attempt T E → Ending T E
  assertion_failed : Ending T E

pub record Trace (S T E : Type 0) : Type 0 where
  pub ending : Ending T E
  pub state : S
  pub calls : ℕ
  pub sleeps : List ℕ

-- The other arguments. `jitter attempt delay` is random.uniform(0, delay * 0.1).
pub record Policy (E : Type 0) : Type 0 where
  pub base_delay : ℕ
  pub max_delay : ℕ
  pub is_retryable : E → Bool
  pub jitter : ℕ → ℕ → ℕ

abbrev pub min : ℕ → ℕ → ℕ
min a b = if leb a b then a else b

-- `min(base_delay_seconds * (2 ** (attempt - 1)), max_delay_seconds)`
unfoldable pub delay : {E : Type 0} → Policy E → ℕ → ℕ
delay policy attempt = min (policy.base_delay * 2 ^ (attempt - 1)) policy.max_delay

module _ {S T E : Type 0} (fn : S → Attempt T E × S) (policy : Policy E) where
  abbrev pub stop : Attempt T E → S → Trace S T E
  stop end s = record { ending = finished end; state = s; calls = 1; sleeps = [] }

  -- A call and a sleep before the rest of the loop.
  abbrev pub after_sleep : ℕ → Trace S T E → Trace S T E
  after_sleep pause trace = record trace { calls = suc trace.calls; sleeps = pause ∷ trace.sleeps }

  -- What a call leads to, given the rest of the loop.
  unfoldable pub after_attempt : ℕ → ℕ → Trace S T E → Attempt T E × S → Trace S T E
  unfolding delay
  after_attempt max_attempts attempt rest (returned value, s) = stop (returned value) s
  after_attempt max_attempts attempt rest (raised e, s) =
      let pause = delay policy attempt in
      if not (policy.is_retryable e) || leb max_attempts attempt
      then stop (raised e) s
      else after_sleep (pause + policy.jitter attempt pause) rest

  -- `for attempt in range(attempt, max_attempts + 1)`, with `left` values of the range left
  unfoldable pub attempts : ℕ → ℕ → ℕ → S → Trace S T E
  unfolding after_attempt
  attempts max_attempts attempt zero s = record {
    ending = assertion_failed;
    state = s;
    calls = 0;
    sleeps = [];
  }
  attempts max_attempts attempt (suc left) s =
      let call = fn s in
      after_attempt max_attempts attempt (attempts max_attempts (suc attempt) left call.1) call

  unfoldable pub with_retry : ℕ → S → Trace S T E
  unfolding attempts
  with_retry max_attempts s = attempts max_attempts 1 max_attempts s

  -- What the call after `k` others ends with.
  unfoldable pub nth_call : ℕ → S → Attempt T E
  nth_call zero s = (fn s).0
  nth_call (suc k) s = nth_call k (fn s).1

  -- The call raised something that is worth another attempt.
  unfoldable pub is_failure : Attempt T E → Bool
  is_failure (returned value) = false
  is_failure (raised e) = policy.is_retryable e

  -- The loop stopped after `suc k` calls, for the outcome of the last one or the number of attempts.
  pub record HasStopped (left : ℕ) (s : S) (trace : Trace S T E) (k : ℕ) : Type 0 where
    pub called : trace.calls ≡ suc k
    pub within : k < left
    pub ends : trace.ending ≡ finished (nth_call k s)
    pub failed : (j : ℕ) → j < k → is_failure (nth_call j s) ≡ true
    pub reason : suc k < left → is_failure (nth_call k s) ≡ false
    pub pauses : suc (length trace.sleeps) ≡ trace.calls
    pub short : All (λ pause. 10 * pause ≤ 11 * policy.max_delay) trace.sleeps

  module _ (small : (attempt high : ℕ) → 10 * policy.jitter attempt high ≤ high) where
    stop-HasStopped :
        (left : ℕ) (s : S) (end : Attempt T E) (end_state : S)
        → (fn s).0 ≡ end
        → (0 < left → is_failure end ≡ false)
        → HasStopped (suc left) s (stop end end_state) 0
    unfolding nth_call is_failure
    stop-HasStopped left s end end_state is_end why = record {
      called = refl;
      within = omega arith;
      ends = sym (ap finished is_end);
      failed = λ j below. ground (arith, below);
      reason = λ more. rw is_end (why (omega (arith, more)));
      pauses = refl;
      short = tt;
    }

    pause_bound :
        (attempt : ℕ)
        → 10 * (delay policy attempt + policy.jitter attempt (delay policy attempt))
          ≤ 11 * policy.max_delay
    unfolding delay
    pause_bound attempt = ground (arith, small attempt (delay policy attempt))

    sleep-HasStopped :
        (attempt left k : ℕ) (s : S) (e : E) (rest : Trace S T E)
        → (fn s).0 ≡ raised e
        → policy.is_retryable e ≡ true
        → HasStopped left (fn s).1 rest k
        → HasStopped
            (suc left)
            s
            (after_sleep (delay policy attempt + policy.jitter attempt (delay policy attempt)) rest)
            (suc k)
    unfolding nth_call is_failure
    sleep-HasStopped attempt left k s e rest is_end retry h = record {
      called = omega (arith, h.called);
      within = omega (arith, h.within);
      ends = h.ends;
      failed = λ j below.
          elim j as (λ j. j < suc k → is_failure (nth_call j s) ≡ true) [
            | zero ↦ λ first. rw is_end retry
            | suc i ↦ λ later. h.failed i (omega (arith, later))
          ]
            below;
      reason = λ more. h.reason (omega (arith, more));
      pauses = omega (arith, h.pauses);
      short = (pause_bound attempt, h.short);
    }

    after_attempt-HasStopped :
        (max_attempts attempt left : ℕ) (s : S) (rest : Trace S T E) (call : Attempt T E × S)
        → attempt + left ≡ max_attempts
        → fn s ≡ call
        → (0 < left → (k : ℕ) × HasStopped left (fn s).1 rest k)
        → (k : ℕ) × HasStopped (suc left) s (after_attempt max_attempts attempt rest call) k
    unfolding after_attempt is_failure
    after_attempt-HasStopped max_attempts attempt left s rest (returned value, s') sum called
          above =
        (
          0,
          stop-HasStopped left s (returned value) s' (ap (λ (c : Attempt T E × S). c.0) called)
              (λ more. refl),
        )
    after_attempt-HasStopped max_attempts attempt left s rest (raised e, s') sum called above =
        let is_end = ap (λ (c : Attempt T E × S). c.0) called in
        elim (Bool-cases (policy.is_retryable e)) [
          | inr fatal ↦ (0, rw fatal (stop-HasStopped left s (raised e) s' is_end (λ more. fatal)))
          | inl retry ↦ elim (Bool-cases (leb max_attempts attempt)) [
            | inl last ↦ (
              0,
              rw (retry, last)
                  (stop-HasStopped left s (raised e) s' is_end
                    (λ more. ground (arith, sum, last, more))),
            )
            | inr more ↦
                let (k, h) = above (ground (arith, sum, more)) in
                (suc k, rw (retry, more) (sleep-HasStopped attempt left k s e rest is_end retry h))
          ]
        ]

    attempts-HasStopped :
        (max_attempts attempt left : ℕ) (s : S)
        → attempt + left ≡ max_attempts
        → (k : ℕ) × HasStopped (suc left) s (attempts max_attempts attempt (suc left) s) k
    unfolding attempts
    attempts-HasStopped max_attempts attempt zero s sum =
        after_attempt-HasStopped max_attempts attempt zero s _ (fn s) sum refl
          (λ none_left. ground (arith, none_left))
    attempts-HasStopped max_attempts attempt (suc left) s sum =
        let above =
          attempts-HasStopped max_attempts (suc attempt) left (fn s).1 (omega (arith, sum)) in
        after_attempt-HasStopped max_attempts attempt (suc left) s _ (fn s) sum refl (λ more. above)

    -- With at least one attempt and a jitter of at most a tenth of the delay, `with_retry` ends after some
    -- number of calls within `max_attempts`, with the outcome of the last one; every call before it failed
    -- with what may be retried, the last one did not unless the attempts are used up, and there is one
    -- sleep between two calls, none longer than eleven tenths of the greatest delay.
    pub with_retry-HasStopped :
        (max_attempts : ℕ) (s : S)
        → 0 < max_attempts
        → (k : ℕ) × HasStopped max_attempts s (with_retry max_attempts s) k
    unfolding with_retry
    with_retry-HasStopped (suc n) s positive = attempts-HasStopped (suc n) 1 n s (omega arith)
    with_retry-HasStopped zero s positive = ground (arith, positive)
