-- ===== src/Breaker/Waiting.antt =====
-- What an open circuit lets through.
use rcs_bulk_messaging_syste.Prelude.{
  ℕ, ◌+◌, ◌*◌, ◌<◌, ◌≡◌, refl, ap, ◌∙◌, Bool, true, List, [], ◌∷◌, arith, ltb, if◌then◌else◌, All,
}
use rcs_bulk_messaging_syste.Prelude.Text.{text_eq}
use rcs_bulk_messaging_syste.Prelude.Results.{ok, err}
use rcs_bulk_messaging_syste.Breaker.{
  closed, opened, half_open, state_value, Breaker, Redis, is_live, get, state_of, get_state,
  write_state, set_state, reset_successes, open_since, refused, before_request, on_success,
  on_failure,
}
use rcs_bulk_messaging_syste.Breaker.Runs.{
  Step, asks, succeeds, fails, Event, take_step, run, Answers,
}
use rcs_bulk_messaging_syste.Breaker.Opening.{OpenSince}

waiting_step :
    (b : Breaker) (s : Step) (up : ℕ → Bool) (now t : ℕ) (r : Redis)
    → OpenSince b t r
    → ((j : ℕ) → up j ≡ true)
    → now < t + b.recovery_timeout
    → take_step b s up now r ≡ r
unfolding take_step before_request on_success on_failure get_state get state_of is_live OpenSince
    state_value text_eq open_since
waiting_step b asks up now t r o a l = ground (arith, o.0, o.1, a 0, a 1, l)
waiting_step b succeeds up now t r o a l = ground (arith, o.0, o.1, a 0, a 1, l)
waiting_step b fails up now t r o a l = ground (arith, o.0, o.1, a 0, a 1, l)

waiting_run :
    (b : Breaker) (es : List Event) (t : ℕ) (r : Redis)
    → OpenSince b t r
    → All Answers es
    → All (λ e. e.now < t + b.recovery_timeout) es
    → run b es r ≡ r
unfolding run Answers
waiting_run b [] t r o a l = refl
waiting_run b (e ∷ es) t r o a l =
    ap (run b es) (waiting_step b e.step e.up e.now t r o a.0 l.0) ∙ waiting_run b es t r o a.1 l.1

asked_at :
    (b : Breaker) (now t : ℕ) (up : ℕ → Bool) (r : Redis)
    → OpenSince b t r
    → ((k : ℕ) → up k ≡ true)
    → ((before_request b up now r).0
        ≡ (if ltb now (t + b.recovery_timeout) then err refused else ok tt))
      × (get_state true now (before_request b up now r).1 ≡ (
          if ltb now (t + b.recovery_timeout)
          then opened
          else if ltb now (t + b.recovery_timeout * 2)
          then half_open
          else closed))
unfolding before_request get_state get state_of is_live OpenSince state_value text_eq open_since
    set_state write_state reset_successes
asked_at b now t up r o a = ground (arith, o.0, o.1, a 0, a 1, a 2, a 3)

-- An open circuit stays as it is until its timeout is over, whatever the workers do: each request is refused, and
-- no report of a success or a failure changes a key. A request after the timeout is let through, and finds or
-- makes the circuit half open before twice the timeout, and closed after that. Redis answers.
pub open-waits :
    (b : Breaker) (es : List Event) (now t : ℕ) (up : ℕ → Bool) (r : Redis)
    → OpenSince b t r
    → All Answers es
    → All (λ e. e.now < t + b.recovery_timeout) es
    → ((k : ℕ) → up k ≡ true)
    → (run b es r ≡ r)
      × ((before_request b up now (run b es r)).0
          ≡ (if ltb now (t + b.recovery_timeout) then err refused else ok tt))
      × (get_state true now (before_request b up now (run b es r)).1 ≡ (
          if ltb now (t + b.recovery_timeout)
          then opened
          else if ltb now (t + b.recovery_timeout * 2)
          then half_open
          else closed))
open-waits b es now t up r o a l u =
    let same = waiting_run b es t r o a l in
    let asked = asked_at b now t up r o u in
    (
      same,
      ap (λ s. (before_request b up now s).0) same ∙ asked.0,
      ap (λ s. get_state true now (before_request b up now s).1) same ∙ asked.1,
    )
