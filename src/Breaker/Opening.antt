-- ===== src/Breaker/Opening.antt =====
-- When the circuit breaker opens.
use rcs_bulk_messaging_syste.Prelude.{
  ℕ, suc, ◌+◌, ◌*◌, ◌≤◌, ◌<◌, ◌≡◌, refl, sym, ap, ◌∙◌, subst, ◌≢◌, Bool, true, none, some, List, [],
  ◌∷◌, ◌++◌, arith, count, All,
}
use rcs_bulk_messaging_syste.Breaker.{
  opened, state_value, Breaker, Redis, get, setex, incr, state_of, get_state, increment_failures,
  reset_successes, trip_open, before_request, on_success, on_failure,
}
use rcs_bulk_messaging_syste.Breaker.Runs.{
  Step, asks, succeeds, fails, same_step, Event, is_of, take_step, run, run-append, Answers, number,
  unexpired, next_key, counted, InTime, incr-number, number-next_key, number-counted, InTime-append,
}

-- The keys as `_trip_open` leaves them.
unfoldable pub OpenSince : Breaker → ℕ → Redis → Type 0
OpenSince b t r =
    (r.state
      ≡ some (record { value = state_value opened; expires = some (t + b.recovery_timeout * 2) }))
    × (r.open_ts ≡ some t)

pub trip_open-OpenSince :
    (b : Breaker) (up : ℕ → Bool) (k now : ℕ) (r : Redis)
    → b.recovery_timeout ≢ 0
    → ((j : ℕ) → up j ≡ true)
    → OpenSince b now (trip_open b up k now r)
unfolding OpenSince trip_open setex reset_successes
trip_open-OpenSince b up k now r h a = ground (arith, h, a k, a (suc k))

step_counting :
    (b : Breaker) (s : Step) (up : ℕ → Bool) (now : ℕ) (r : Redis)
    → r.state ≡ none
    → ((j : ℕ) → up j ≡ true)
    → (same_step fails s ≡ true → unexpired now r.failures ≡ true)
    → (same_step fails s ≡ true → suc (number r.failures) < b.failure_threshold)
    → ((take_step b s up now r).state ≡ none)
      × ((take_step b s up now r).failures
          ≡ next_key b.failure_window_seconds now (same_step fails s) r.failures)
unfolding take_step before_request on_success on_failure get_state get state_of increment_failures
    next_key same_step
step_counting b asks up now r n a u l = ground (arith, n, a 0)
step_counting b succeeds up now r n a u l = ground (arith, n, a 0)
step_counting b fails up now r n a u l =
    ground
      (arith, n, a 0, a 1, l refl, incr-number now b.failure_window_seconds r.failures (u refl))

-- Below the threshold the circuit stays closed, and the counter counts the failures alone.
pub run_counting :
    (b : Breaker) (es : List Event) (r : Redis)
    → r.state ≡ none
    → All Answers es
    → InTime fails b.failure_window_seconds r.failures es
    → number r.failures + count (is_of fails) es < b.failure_threshold
    → ((run b es r).state ≡ none)
      × ((run b es r).failures ≡ counted fails b.failure_window_seconds r.failures es)
unfolding run InTime counted Answers is_of
run_counting b [] r n a u l = (n, refl)
run_counting b (e ∷ es) r n a u l =
    let one = step_counting b e.step e.up e.now r n a.0 u.0 (λ h. ground (arith, l, h)) in
    let key = next_key b.failure_window_seconds e.now (same_step fails e.step) r.failures in
    let more =
      number-next_key b.failure_window_seconds e.now (same_step fails e.step) r.failures u.0 in
    let rest =
      run_counting b es (take_step b e.step e.up e.now r) one.0 a.1
        (subst (λ k. InTime fails b.failure_window_seconds k es) (sym one.1) u.1)
        (ground (arith, ap number one.1, more, l)) in
    (rest.0, rest.1 ∙ ap (λ k. counted fails b.failure_window_seconds k es) one.1)

on_failure-trips :
    (b : Breaker) (up : ℕ → Bool) (now : ℕ) (r : Redis)
    → r.state ≡ none
    → ((j : ℕ) → up j ≡ true)
    → b.failure_threshold ≤ (incr now b.failure_window_seconds r.failures).0
    → on_failure b up now r ≡ trip_open b up 2 now (increment_failures b true now r).1
unfolding on_failure get_state get state_of increment_failures
on_failure-trips b up now r n a l = ground (arith, n, a 0, a 1, l)

on_failure-opens :
    (b : Breaker) (up : ℕ → Bool) (now : ℕ) (r : Redis)
    → b.recovery_timeout ≢ 0
    → r.state ≡ none
    → ((j : ℕ) → up j ≡ true)
    → unexpired now r.failures ≡ true
    → suc (number r.failures) ≡ b.failure_threshold
    → OpenSince b now (on_failure b up now r)
on_failure-opens b up now r h n a u l =
    let renewed = (increment_failures b true now r).1 in
    let more = incr-number now b.failure_window_seconds r.failures u in
    subst (OpenSince b now) (sym (on_failure-trips b up now r n a (ground (arith, more, l))))
      (trip_open-OpenSince b up 2 now renewed h a)

abbrev pub failure_at : ℕ → (ℕ → Bool) → Event
failure_at now up = record { step = fails; now = now; up = up }

-- A closed circuit opens with the failure that reaches the threshold, and not before: at that instant, for as
-- long as the timeout. Each failure comes before the counter expires, which the one before it has renewed, so
-- that they need not lie in one window; the successes among them do not matter. Redis answers, and the timeout is
-- not zero.
pub failures-open :
    (b : Breaker) (es : List Event) (now : ℕ) (up : ℕ → Bool) (r : Redis)
    → b.recovery_timeout ≢ 0
    → r.state ≡ none
    → All Answers es
    → ((k : ℕ) → up k ≡ true)
    → InTime fails b.failure_window_seconds r.failures (es ++ failure_at now up ∷ [])
    → suc (number r.failures + count (is_of fails) es) ≡ b.failure_threshold
    → ((run b es r).state ≡ none) × OpenSince b now (run b (es ++ failure_at now up ∷ []) r)
unfolding run InTime take_step is_of same_step
failures-open b es now up r h n a a' u l =
    let in_time =
      InTime-append fails b.failure_window_seconds es (failure_at now up ∷ []) r.failures u in
    let so_far = run_counting b es r n a in_time.0 (ground (arith, l)) in
    let key = number-counted fails b.failure_window_seconds es r.failures in_time.0 in
    (
      so_far.0,
      subst (OpenSince b now) (sym (run-append b es (failure_at now up ∷ []) r)) (
          on_failure-opens b up now (run b es r) h so_far.0 a'
            (subst (λ k. unexpired now k ≡ true) (sym so_far.1) (in_time.1.0 refl))
            (ap (λ k. suc (number k)) so_far.1 ∙ ap suc key ∙ l)),
    )
