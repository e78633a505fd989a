-- ===== src/Breaker/Closing.antt =====
-- How the circuit breaker closes again.
use rcs_bulk_messaging_syste.Prelude.{
  ℕ, suc, ◌+◌, ◌≤◌, ◌<◌, ◌≡◌, refl, sym, ap, ◌∙◌, subst, ◌≢◌, Bool, true, false, Option, none, some,
  List, [], ◌∷◌, ◌++◌, arith, count, All,
}
use rcs_bulk_messaging_syste.Prelude.Text.{text_eq}
use rcs_bulk_messaging_syste.Breaker.{
  half_open, state_value, Breaker, Entry, Redis, is_live, get, incr, state_of, get_state,
  write_state, set_state, reset_failures, increment_successes, reset_successes, trip_open,
  before_request, on_success, on_failure,
}
use rcs_bulk_messaging_syste.Breaker.Runs.{
  Step, asks, succeeds, fails, same_step, Event, is_of, take_step, run, run-append, Answers, number,
  unexpired, next_key, counted, InTime, incr-number, number-next_key, number-counted, InTime-append,
}
use rcs_bulk_messaging_syste.Breaker.Opening.{OpenSince, trip_open-OpenSince, failure_at}

-- The keys of a circuit that is being probed, with the successes so far.
abbrev pub Probing : Option (Entry ℕ) → Redis → Type 0
Probing key r =
    (r.state ≡ some (record { value = state_value half_open; expires = none }))
    × (r.successes ≡ key)

step-Probing :
    (b : Breaker) (s : Step) (up : ℕ → Bool) (now : ℕ) (r : Redis)
    → Probing r.successes r
    → ((j : ℕ) → up j ≡ true)
    → same_step fails s ≡ false
    → (same_step succeeds s ≡ true → unexpired now r.successes ≡ true)
    → (same_step succeeds s ≡ true → suc (number r.successes) < b.success_threshold)
    → Probing
        (next_key b.recovery_timeout now (same_step succeeds s) r.successes)
        (take_step b s up now r)
unfolding take_step before_request on_success get_state get state_of is_live increment_successes
    next_key same_step state_value text_eq
step-Probing b asks up now r p a f u l = ground (arith, p.0, a 0)
step-Probing b fails up now r p a f u l = ground (arith, f)
step-Probing b succeeds up now r p a f u l =
    ground (arith, p.0, a 0, a 1, l refl, incr-number now b.recovery_timeout r.successes (u refl))

run-Probing :
    (b : Breaker) (es : List Event) (r : Redis)
    → Probing r.successes r
    → All Answers es
    → All (λ e. is_of fails e ≡ false) es
    → InTime succeeds b.recovery_timeout r.successes es
    → number r.successes + count (is_of succeeds) es < b.success_threshold
    → Probing (counted succeeds b.recovery_timeout r.successes es) (run b es r)
unfolding run InTime counted Answers is_of
run-Probing b [] r p a f u l = p
run-Probing b (e ∷ es) r p a f u l =
    let key = next_key b.recovery_timeout e.now (same_step succeeds e.step) r.successes in
    let one = step-Probing b e.step e.up e.now r p a.0 f.0 u.0 (λ h. ground (arith, l, h)) in
    let more =
      number-next_key b.recovery_timeout e.now (same_step succeeds e.step) r.successes u.0 in
    let rest =
      run-Probing b es (take_step b e.step e.up e.now r) (one.0, refl) a.1 f.1
        (subst (λ k. InTime succeeds b.recovery_timeout k es) (sym one.1) u.1)
        (ground (arith, ap number one.1, more, l)) in
    (rest.0, rest.1 ∙ ap (λ k. counted succeeds b.recovery_timeout k es) one.1)

-- The keys of a circuit that has recovered.
unfoldable pub Recovered : Redis → Type 0
Recovered r = (r.state ≡ none) × (r.failures ≡ none) × (r.successes ≡ none)

on_success-closes :
    (b : Breaker) (up : ℕ → Bool) (now : ℕ) (r : Redis)
    → Probing r.successes r
    → ((j : ℕ) → up j ≡ true)
    → b.success_threshold ≤ (incr now b.recovery_timeout r.successes).0
    → Recovered (on_success b up now r)
unfolding on_success get_state get state_of is_live increment_successes state_value text_eq
    set_state write_state reset_failures reset_successes Recovered
on_success-closes b up now r p a l = ground (arith, p.0, a 0, a 1, a 2, a 3, a 4, l)

reopening :
    (b : Breaker) (up : ℕ → Bool) (now : ℕ) (r : Redis)
    → Probing r.successes r
    → ((j : ℕ) → up j ≡ true)
    → on_failure b up now r ≡ trip_open b up 1 now r
unfolding on_failure get_state get state_of is_live state_value text_eq
reopening b up now r p a = ground (arith, p.0, a 0)

on_failure-reopens :
    (b : Breaker) (up : ℕ → Bool) (now : ℕ) (r : Redis)
    → b.recovery_timeout ≢ 0
    → Probing r.successes r
    → ((j : ℕ) → up j ≡ true)
    → OpenSince b now (on_failure b up now r)
on_failure-reopens b up now r h p a =
    subst (OpenSince b now) (sym (reopening b up now r p a)) (trip_open-OpenSince b up 1 now r h a)

abbrev pub success_at : ℕ → (ℕ → Bool) → Event
success_at now up = record { step = succeeds; now = now; up = up }

-- A circuit that is being probed stays so, without end, until there are as many successes as the threshold,
-- each before the counter expires, which the one before it has renewed: then it is closed, and both counters
-- are gone. A failure before that opens it again, from that instant on, however many successes there were.
-- Redis answers, and the timeout is not zero.
pub successes-close :
    (b : Breaker) (es : List Event) (now : ℕ) (up : ℕ → Bool) (r : Redis)
    → b.recovery_timeout ≢ 0
    → Probing r.successes r
    → All Answers es
    → All (λ e. is_of fails e ≡ false) es
    → ((k : ℕ) → up k ≡ true)
    → InTime succeeds b.recovery_timeout r.successes (es ++ success_at now up ∷ [])
    → suc (number r.successes + count (is_of succeeds) es) ≡ b.success_threshold
    → Probing (counted succeeds b.recovery_timeout r.successes es) (run b es r)
      × Recovered (run b (es ++ success_at now up ∷ []) r)
      × OpenSince b now (run b (es ++ failure_at now up ∷ []) r)
unfolding run InTime take_step is_of same_step
successes-close b es now up r h p a f a' u l =
    let in_time =
      InTime-append succeeds b.recovery_timeout es (success_at now up ∷ []) r.successes u in
    let so_far = run-Probing b es r p a f in_time.0 (ground (arith, l)) in
    let key = number-counted succeeds b.recovery_timeout es r.successes in_time.0 in
    let again : Probing (run b es r).successes (run b es r) = (so_far.0, refl) in
    let fresh =
      incr-number now b.recovery_timeout (run b es r).successes
        (subst (λ k. unexpired now k ≡ true) (sym so_far.1) (in_time.1.0 refl)) in
    (
      so_far,
      subst Recovered (sym (run-append b es (success_at now up ∷ []) r)) (
          on_success-closes b up now (run b es r) again a'
            (ground (arith, fresh, ap number so_far.1, key, l))),
      subst (OpenSince b now) (sym (run-append b es (failure_at now up ∷ []) r))
          (on_failure-reopens b up now (run b es r) h again a'),
    )
