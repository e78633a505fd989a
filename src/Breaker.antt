-- ===== src/Breaker.antt =====
-- `class RedisCircuitBreaker` of apps/core/resilience/redis_circuit_breaker.py. Redis is not part of the program: it
-- is a record of the four keys, each with the instant at which it expires, and whether it answers the k-th
-- round trip of a call is an argument, `up k`. The clock of Redis is that of the program. The metrics and the
-- text of the exception after its first sentence are left out.
pub mod Runs
pub mod Opening
pub mod Waiting
pub mod Closing
pub mod Moves
mod Tests
use rcs_bulk_messaging_syste.Prelude.{
  ℕ, zero, suc, ◌+◌, ◌*◌, Bool, true, false, Option, none, some, ltb, leb, ◌==◌, if◌then◌else◌,
  or_else,
}
use rcs_bulk_messaging_syste.Prelude.Text.{Text, codes, text_eq}
use rcs_bulk_messaging_syste.Prelude.Results.{Exn, circuit_open, Result, ok, err}

pub data CircuitState : Type 0 where
  closed opened half_open : CircuitState

-- `state.value`
unfoldable pub state_value : CircuitState → Text
state_value closed = codes "closed"
state_value opened = codes "open"
state_value half_open = codes "half_open"

pub record Breaker : Type 0 where
  pub failure_threshold : ℕ
  pub failure_window_seconds : ℕ
  pub recovery_timeout : ℕ
  pub success_threshold : ℕ

-- A key of Redis that is there: its value, and when it expires.
pub record Entry {ℓ} (A : Type ℓ) : Type ℓ where
  pub value : A
  pub expires : Option ℕ

pub record Redis : Type 0 where
  pub state : Option (Entry Text)
  pub failures : Option (Entry ℕ)
  pub successes : Option (Entry ℕ)
  pub open_ts : Option ℕ

abbrev pub no_keys : Redis
no_keys = record { state = none; failures = none; successes = none; open_ts = none }

-- Whether the key has not expired.
unfoldable pub is_live : ℕ → Option ℕ → Bool
is_live now none = true
is_live now (some t) = ltb now t

module _ {ℓ} {A : Type ℓ} where
  -- `GET`
  unfoldable pub get : ℕ → Option (Entry A) → Option A
  get now none = none
  get now (some e) = if is_live now e.expires then some e.value else none

  -- `SETEX`, which Redis refuses for no time at all.
  unfoldable pub setex : ℕ → ℕ → A → Option (Entry A) → Option (Entry A)
  setex now ttl a old =
      if ttl == 0 then old else some (record { value = a; expires = some (now + ttl) })

-- `INCR` and `EXPIRE`: the new count, and the key.
unfoldable pub incr : ℕ → ℕ → Option (Entry ℕ) → ℕ × Option (Entry ℕ)
incr now ttl key =
    let count = suc (or_else (get now key) 0) in
    (count, some (record { value = count; expires = some (now + ttl) }))

unfoldable pub state_of : Option Text → CircuitState
state_of none = closed
state_of (some raw) =
    if text_eq raw (codes "open")
    then opened
    else if text_eq raw (codes "half_open")
    then half_open
    else closed

-- A Redis that does not answer counts as closed.
unfoldable pub get_state : Bool → ℕ → Redis → CircuitState
get_state up now r = if up then state_of (get now r.state) else closed

unfoldable pub write_state : ℕ → Option ℕ → CircuitState → Redis → Redis
write_state now ttl closed r = record r { state = none }
write_state now none s r = record r {
  state = some (record { value = state_value s; expires = none });
}
write_state now (some zero) s r = record r {
  state = some (record { value = state_value s; expires = none });
}
write_state now (some (suc n)) s r = record r { state = setex now (suc n) (state_value s) r.state }

unfoldable pub set_state : Bool → ℕ → CircuitState → Option ℕ → Redis → Redis
set_state up now s ttl r = if up then write_state now ttl s r else r

unfoldable pub increment_failures : Breaker → Bool → ℕ → Redis → ℕ × Redis
increment_failures b up now r =
    let counted = incr now b.failure_window_seconds r.failures in
    if up then (counted.0, record r { failures = counted.1 }) else (0, r)

unfoldable pub reset_failures : Bool → Redis → Redis
reset_failures up r = if up then record r { failures = none } else r

unfoldable pub increment_successes : Breaker → Bool → ℕ → Redis → ℕ × Redis
increment_successes b up now r =
    let counted = incr now b.recovery_timeout r.successes in
    if up then (counted.0, record r { successes = counted.1 }) else (0, r)

unfoldable pub reset_successes : Bool → Redis → Redis
reset_successes up r = if up then record r { successes = none } else r

-- The pipeline writes the state and the time in one round trip.
unfoldable pub trip_open : Breaker → (ℕ → Bool) → ℕ → ℕ → Redis → Redis
trip_open b up k now r =
    let written : Redis = record r {
      state = setex now (b.recovery_timeout * 2) (state_value opened) r.state;
      open_ts = some now;
    } in
    reset_successes (up (suc k)) (if up k then written else r)

-- `open_ts`, which is 0 if it is not there or Redis does not answer.
unfoldable pub open_since : Bool → Redis → ℕ
open_since up r = if up then or_else r.open_ts 0 else 0

abbrev pub refused : Exn
refused = circuit_open (codes "Circuit is OPEN.")

unfoldable pub before_request : Breaker → (ℕ → Bool) → ℕ → Redis → Result (Unit {0}) × Redis
before_request b up now r = elim (get_state (up 0) now r) [
  | opened ↦
      if leb (open_since (up 1) r + b.recovery_timeout) now
      then (ok tt, reset_successes (up 3) (set_state (up 2) now half_open none r))
      else (err refused, r)
  | half_open ↦ (ok tt, r)
  | closed ↦ (ok tt, r)
]

unfoldable pub on_success : Breaker → (ℕ → Bool) → ℕ → Redis → Redis
on_success b up now r = elim (get_state (up 0) now r) [
  | half_open ↦
      (let counted = increment_successes b (up 1) now r in
        if leb b.success_threshold counted.0
        then reset_successes (up 4)
            (reset_failures (up 3) (set_state (up 2) now closed none counted.1))
        else counted.1)
  | closed ↦ r
  | opened ↦ r
]

unfoldable pub on_failure : Breaker → (ℕ → Bool) → ℕ → Redis → Redis
on_failure b up now r = elim (get_state (up 0) now r) [
  | half_open ↦ trip_open b up 1 now r
  | closed ↦
      (let counted = increment_failures b (up 1) now r in
        if leb b.failure_threshold counted.0 then trip_open b up 2 now counted.1 else counted.1)
  | opened ↦ r
]

-- How the body of an `async with breaker():` ends: it returns, raises an `Exception`, or is cancelled.
pub data Body : Type 0 where
  returns cancelled : Body
  raises : Exn → Body

unfoldable pub is_open_error : Exn → Bool
is_open_error (circuit_open text) = true
is_open_error _ = false

unfoldable pub after_body : Breaker → (ℕ → Bool) → ℕ → Body → Redis → Redis
after_body b up now returns r = on_success b up now r
after_body b up now cancelled r = r
after_body b up now (raises e) r = if is_open_error e then r else on_failure b up now r

-- What the caller gets; a cancellation has no exception of the model.
unfoldable pub outcome : Body → Option (Result (Unit {0}))
outcome returns = some (ok tt)
outcome cancelled = none
outcome (raises e) = some (err e)

-- `async with breaker(): …`: the body runs, and takes until `later`, only if the request is let through;
-- `meanwhile` is what other workers do to the keys in the meantime.
unfoldable pub guarded :
    Breaker
    → (ℕ → Bool)
    → (ℕ → Bool)
    → ℕ
    → ℕ
    → Body
    → (Redis → Redis)
    → Redis
    → Option (Result (Unit {0})) × Redis
guarded b up up' now later body meanwhile r =
    let asked = before_request b up now r in
    elim asked.0 [
      | ok _ ↦ (outcome body, after_body b up' later body (meanwhile asked.1))
      | err e ↦ (some (err e), asked.1)
    ]
