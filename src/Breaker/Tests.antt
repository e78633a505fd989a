-- ===== src/Breaker/Tests.antt =====
-- Concrete circuits.
use rcs_bulk_messaging_syste.Prelude.{
  ℕ, ◌≡◌, refl, ◌⊎◌, Bool, true, false, none, some, [], ◌∷◌, ◌++◌, arith,
}
use rcs_bulk_messaging_syste.Prelude.Text.{codes}
use rcs_bulk_messaging_syste.Prelude.Results.{ok, err}
use rcs_bulk_messaging_syste.Breaker.{
  closed, half_open, state_value, Breaker, Redis, no_keys, is_live, get, incr, get_state,
  before_request, raises, outcome, guarded,
}
use rcs_bulk_messaging_syste.Breaker.Runs.{
  Step, asks, succeeds, fails, same_step, Event, is_of, take_step, run, Answers, number, unexpired,
  next_key, counted, InTime,
}
use rcs_bulk_messaging_syste.Prelude.Results.{value_error}
use rcs_bulk_messaging_syste.Breaker.Opening.{OpenSince, failure_at, failures-open}
use rcs_bulk_messaging_syste.Breaker.Waiting.{open-waits}
use rcs_bulk_messaging_syste.Breaker.Closing.{Probing, Recovered, success_at, successes-close}
use rcs_bulk_messaging_syste.Breaker.Moves.{
  stored, may_become, take_step-may_become, guarded-unreached,
}

abbrev small : Breaker
small = record {
  failure_threshold = 2;
  failure_window_seconds = 60;
  recovery_timeout = 60;
  success_threshold = 2;
}

abbrev answering : ℕ → Bool
answering k = true

abbrev dead : ℕ → Bool
dead k = false

abbrev at : Step → ℕ → Event
at s now = record { step = s; now = now; up = answering }

abbrev open_at_ten : Redis
open_at_ten = record {
  state = some (record { value = codes "open"; expires = some 130 });
  failures = some (record { value = 2; expires = some 70 });
  successes = none;
  open_ts = some 10;
}

abbrev probing : Redis
probing = record open_at_ten { state = some (record { value = codes "half_open"; expires = none }) }

-- A failure, a success, and a failure a minute later.
failures-open_example :
    ((run small (at fails 0 ∷ at succeeds 5 ∷ []) no_keys).state ≡ none)
    × OpenSince small 59
        (run small ((at fails 0 ∷ at succeeds 5 ∷ []) ++ failure_at 59 answering ∷ []) no_keys)
unfolding Answers InTime is_of same_step next_key incr get unexpired is_live number
failures-open_example =
    failures-open small (at fails 0 ∷ at succeeds 5 ∷ []) 59 answering no_keys
      (λ h. ground (arith, h)) refl ((λ k. refl), ((λ k. refl), tt)) (λ k. refl)
      ((λ h. refl), ((λ h. refl), ((λ h. refl), tt))) refl

open-waits_example :
    (run small (at asks 20 ∷ at fails 30 ∷ at succeeds 69 ∷ []) open_at_ten ≡ open_at_ten)
    × ((before_request small answering 70
          (run small (at asks 20 ∷ at fails 30 ∷ at succeeds 69 ∷ []) open_at_ten)).0
        ≡ ok tt)
    × (get_state true 70
          (before_request small answering 70
            (run small (at asks 20 ∷ at fails 30 ∷ at succeeds 69 ∷ []) open_at_ten)).1
        ≡ half_open)
unfolding Answers OpenSince state_value
open-waits_example =
    open-waits small (at asks 20 ∷ at fails 30 ∷ at succeeds 69 ∷ []) 70 10 answering open_at_ten
      (refl, refl) ((λ k. refl), ((λ k. refl), ((λ k. refl), tt)))
      (ground arith, (ground arith, (ground arith, tt))) (λ k. refl)

successes-close_example :
    Probing
      (counted succeeds 60 none (at succeeds 80 ∷ at asks 90 ∷ []))
      (run small (at succeeds 80 ∷ at asks 90 ∷ []) probing)
    × Recovered
        (run small ((at succeeds 80 ∷ at asks 90 ∷ []) ++ success_at 100 answering ∷ []) probing)
    × OpenSince small 100
        (run small ((at succeeds 80 ∷ at asks 90 ∷ []) ++ failure_at 100 answering ∷ []) probing)
unfolding Answers InTime is_of same_step next_key incr get unexpired is_live number state_value
successes-close_example =
    successes-close small (at succeeds 80 ∷ at asks 90 ∷ []) 100 answering probing
      (λ h. ground (arith, h)) (refl, refl) ((λ k. refl), ((λ k. refl), tt)) (refl, (refl, tt))
      (λ k. refl) ((λ h. refl), ((λ h. refl), ((λ h. refl), tt))) refl

take_step-may_become_example :
    (may_become fails (stored 50 probing) (stored 50 (take_step small fails answering 50 probing))
      ≡ true)
    × ((stored 300 probing ≡ stored 50 probing) ⊎ (stored 300 probing ≡ closed))
take_step-may_become_example = take_step-may_become small fails answering 50 250 probing

guarded-unreached_example :
    guarded small dead dead 20 25 (raises (value_error [])) (λ r. r) open_at_ten
    ≡ (some (err (value_error [])), open_at_ten)
unfolding outcome
guarded-unreached_example =
    guarded-unreached small dead dead 20 25 (raises (value_error [])) (λ r. r) open_at_ten
      (λ k. refl) (λ k. refl)
