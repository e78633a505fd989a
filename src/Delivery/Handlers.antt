-- ===== src/Delivery/Handlers.antt =====
-- The `except` clauses of a delivery: a rate limit is requeued, and any other exception is a failure.
use rcs_bulk_messaging_syste.Prelude.{ℕ}
use rcs_bulk_messaging_syste.Prelude.Results.{
  Exn, value_error, invalid_state_transition, not_implemented, attribute_error, type_error,
  queue_exception, aggregator_exception, rate_limit_exception, circuit_open, database_error,
  key_error, http_status_error, Result,
}
use rcs_bulk_messaging_syste.Delivery.World.{Env, Session}
use rcs_bulk_messaging_syste.Delivery.Send.{
  requeue_with_delay, handle_delivery_failure, on_exception, delay_or_minute,
}

pub on_exception-cases :
    (P : Result (Unit {0}) × Session → Type 0) (env : Env) (s : Session)
    → ((delay : ℕ) → P (requeue_with_delay env delay s))
    → ((e : Exn) → P (handle_delivery_failure env e s))
    → (e : Exn) → P (on_exception env e s)
unfolding on_exception
on_exception-cases P env s requeue fail (rate_limit_exception t c r) = requeue (delay_or_minute r)
on_exception-cases P env s requeue fail (value_error t) = fail (value_error t)
on_exception-cases P env s requeue fail (invalid_state_transition t) =
    fail (invalid_state_transition t)
on_exception-cases P env s requeue fail (not_implemented t) = fail (not_implemented t)
on_exception-cases P env s requeue fail (attribute_error t) = fail (attribute_error t)
on_exception-cases P env s requeue fail (type_error t) = fail (type_error t)
on_exception-cases P env s requeue fail (queue_exception t) = fail (queue_exception t)
on_exception-cases P env s requeue fail (aggregator_exception t c r) =
    fail (aggregator_exception t c r)
on_exception-cases P env s requeue fail (circuit_open t) = fail (circuit_open t)
on_exception-cases P env s requeue fail (database_error t) = fail (database_error t)
on_exception-cases P env s requeue fail (key_error t) = fail (key_error t)
on_exception-cases P env s requeue fail (http_status_error code t) = fail (http_status_error code t)
