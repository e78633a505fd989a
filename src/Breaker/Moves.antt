-- ===== src/Breaker/Moves.antt =====
-- Which states follow one another, and what is left of the breaker when Redis does not answer.
use rcs_bulk_messaging_syste.Prelude.{
  ℕ, ◌+◌, ◌≡◌, refl, ◌⊎◌, Bool, true, false, none, arith, leb, if◌then◌else◌,
}
use rcs_bulk_messaging_syste.Prelude.Text.{text_eq}
use rcs_bulk_messaging_syste.Prelude.Results.{Result, ok, err}
use rcs_bulk_messaging_syste.Breaker.{
  CircuitState, closed, opened, half_open, state_value, Breaker, Redis, is_live, get, setex,
  state_of, get_state, write_state, set_state, increment_failures, reset_failures,
  increment_successes, reset_successes, trip_open, open_since, refused, before_request, on_success,
  on_failure, Body, after_body, outcome, guarded,
}
use rcs_bulk_messaging_syste.Breaker.Runs.{Step, asks, succeeds, fails, take_step}

-- The state that Redis has.
unfoldable pub stored : ℕ → Redis → CircuitState
stored now r = state_of (get now r.state)

-- The changes of the state that a step may make.
unfoldable pub may_become : Step → CircuitState → CircuitState → Bool
may_become s closed closed = true
may_become s opened opened = true
may_become s half_open half_open = true
may_become asks opened half_open = true
may_become succeeds half_open closed = true
may_become fails closed opened = true
may_become fails half_open opened = true
may_become _ _ _ = false

stored_lem : (now : ℕ) (r : Redis) → stored now r ≡ state_of (get now r.state)
unfolding stored
stored_lem now r = refl

stored-if :
    (now : ℕ) (c : Bool) (x y : Redis)
    → stored now (if c then x else y) ≡ (if c then stored now x else stored now y)
stored-if now true x y = refl
stored-if now false x y = refl

stored-asked :
    (now : ℕ) (c : Bool) (p q : Result (Unit {0}) × Redis)
    → stored now (if◌then◌else◌ {A = Result (Unit {0}) × Redis} c p q).1
      ≡ (if c then stored now p.1 else stored now q.1)
stored-asked now true p q = refl
stored-asked now false p q = refl

stored-half_open :
    (up up' : Bool) (now : ℕ) (r : Redis)
    → stored now (reset_successes up' (set_state up now half_open none r))
      ≡ (if up then half_open else stored now r)
unfolding stored reset_successes set_state write_state get is_live state_of state_value text_eq
stored-half_open true true now r = refl
stored-half_open true false now r = refl
stored-half_open false true now r = refl
stored-half_open false false now r = refl

stored-closed :
    (up up' up'' : Bool) (now : ℕ) (r : Redis)
    → stored now (reset_successes up'' (reset_failures up' (set_state up now closed none r)))
      ≡ (if up then closed else stored now r)
unfolding stored reset_successes reset_failures set_state write_state get state_of
stored-closed true true true now r = refl
stored-closed true true false now r = refl
stored-closed true false true now r = refl
stored-closed true false false now r = refl
stored-closed false true true now r = refl
stored-closed false true false now r = refl
stored-closed false false true now r = refl
stored-closed false false false now r = refl

stored-increment_failures :
    (b : Breaker) (up : Bool) (now : ℕ) (r : Redis)
    → stored now (increment_failures b up now r).1 ≡ stored now r
unfolding stored increment_failures
stored-increment_failures b true now r = refl
stored-increment_failures b false now r = refl

stored-increment_successes :
    (b : Breaker) (up : Bool) (now : ℕ) (r : Redis)
    → stored now (increment_successes b up now r).1 ≡ stored now r
unfolding stored increment_successes
stored-increment_successes b true now r = refl
stored-increment_successes b false now r = refl

stored-trip_open :
    (b : Breaker) (up : ℕ → Bool) (k now : ℕ) (r : Redis)
    → (stored now (trip_open b up k now r) ≡ opened)
      ⊎ (stored now (trip_open b up k now r) ≡ stored now r)
unfolding stored trip_open reset_successes setex get is_live state_of state_value text_eq
stored-trip_open b up k now r = ground arith

asks_allowed :
    (b : Breaker) (up : ℕ → Bool) (now : ℕ) (r : Redis)
    → may_become asks (stored now r) (stored now (before_request b up now r).1) ≡ true
unfolding may_become before_request get_state
asks_allowed b up now r =
    let due = leb (open_since (up 1) r + b.recovery_timeout) now in
    let probed = reset_successes (up 3) (set_state (up 2) now half_open none r) in
    ground (
      arith,
      stored-asked now due (ok tt, probed) (err refused, r),
      stored-half_open (up 2) (up 3) now r,
      stored_lem now r,
    )

succeeds_allowed :
    (b : Breaker) (up : ℕ → Bool) (now : ℕ) (r : Redis)
    → may_become succeeds (stored now r) (stored now (on_success b up now r)) ≡ true
unfolding may_become on_success get_state
succeeds_allowed b up now r =
    let counted = increment_successes b (up 1) now r in
    let enough = leb b.success_threshold counted.0 in
    let done =
      reset_successes (up 4) (reset_failures (up 3) (set_state (up 2) now closed none counted.1)) in
    ground (
      arith,
      stored-if now enough done counted.1,
      stored-closed (up 2) (up 3) (up 4) now counted.1,
      stored-increment_successes b (up 1) now r,
      stored_lem now r,
    )

fails_allowed :
    (b : Breaker) (up : ℕ → Bool) (now : ℕ) (r : Redis)
    → may_become fails (stored now r) (stored now (on_failure b up now r)) ≡ true
unfolding may_become on_failure get_state
fails_allowed b up now r =
    let counted = increment_failures b (up 1) now r in
    let enough = leb b.failure_threshold counted.0 in
    ground (
      arith,
      stored-if now enough (trip_open b up 2 now counted.1) counted.1,
      stored-trip_open b up 2 now counted.1,
      stored-trip_open b up 1 now r,
      stored-increment_failures b (up 1) now r,
      stored_lem now r,
    )

step_allowed :
    (b : Breaker) (s : Step) (up : ℕ → Bool) (now : ℕ) (r : Redis)
    → may_become s (stored now r) (stored now (take_step b s up now r)) ≡ true
unfolding take_step
step_allowed b asks up now r = asks_allowed b up now r
step_allowed b succeeds up now r = succeeds_allowed b up now r
step_allowed b fails up now r = fails_allowed b up now r

later_allowed :
    (now passed : ℕ) (r : Redis)
    → (stored (now + passed) r ≡ stored now r) ⊎ (stored (now + passed) r ≡ closed)
unfolding stored get is_live state_of
later_allowed now passed r = ground arith

-- Whichever round trips Redis answers, a request only makes an open circuit half open, a success only closes one
-- that is half open, and a failure only opens one; each may also leave the state as it is. And a state that Redis
-- has later, with no step between, is the same or, after an expiry, closed.
pub take_step-may_become :
    (b : Breaker) (s : Step) (up : ℕ → Bool) (now passed : ℕ) (r : Redis)
    → (may_become s (stored now r) (stored now (take_step b s up now r)) ≡ true)
      × ((stored (now + passed) r ≡ stored now r) ⊎ (stored (now + passed) r ≡ closed))
take_step-may_become b s up now passed r = (step_allowed b s up now r, later_allowed now passed r)

after_body-unreached :
    (b : Breaker) (up : ℕ → Bool) (now : ℕ) (body : Body) (r : Redis)
    → ((k : ℕ) → up k ≡ false)
    → after_body b up now body r ≡ r
unfolding after_body on_success on_failure get_state increment_failures trip_open reset_successes
after_body-unreached b up now body r d = ground (arith, d 0, d 1, d 2, d 3)

-- With a Redis that does not answer, each request is let through and the body's outcome is the caller's; no key is
-- changed but by the others meanwhile.
pub guarded-unreached :
    (b : Breaker) (up up' : ℕ → Bool) (now later : ℕ) (body : Body) (meanwhile : Redis → Redis)
    (r : Redis)
    → ((k : ℕ) → up k ≡ false)
    → ((k : ℕ) → up' k ≡ false)
    → guarded b up up' now later body meanwhile r ≡ (outcome body, meanwhile r)
unfolding guarded before_request get_state
guarded-unreached b up up' now later body meanwhile r d d' =
    ground (arith, d 0, after_body-unreached b up' later body (meanwhile r) d')
