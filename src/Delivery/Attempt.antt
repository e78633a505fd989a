-- ===== src/Delivery/Attempt.antt =====
-- What one delivery attempt does, from the capability check to the exception handlers.
use rcs_bulk_messaging_syste.Delivery.Handlers.{on_exception-cases}
use rcs_bulk_messaging_syste.Prelude.{
  ℕ, ◌≡◌, refl, sym, ◌∙◌, subst, ◌⊎◌, inl, inr, none, some, arith, Bool-cases,
}
use rcs_bulk_messaging_syste.Prelude.Results.{Exn, Result, ok, err}
use rcs_bulk_messaging_syste.Message.Types.{
  pending, queued, failed, rcs_not_supported, unknown, Message,
}
use rcs_bulk_messaging_syste.Message.Lifecycle.{
  can_transition_to, transition_to, record_attempt, queue, mark_sent, mark_failed,
}
use rcs_bulk_messaging_syste.Message.Fallback.{should_trigger_fallback}
use rcs_bulk_messaging_syste.Prelude.Time.{cannot_compare, datetime_le}
use rcs_bulk_messaging_syste.Queue.{schedule}
use rcs_bulk_messaging_syste.Delivery.World.{
  Env, Session, ◌>>=◌, ◌>>◌, attempt_or, this_message, call, save_message, publish_later,
  recalculate, ask_send, bind-ok, call-ok,
}
use rcs_bulk_messaging_syste.Delivery.Send.{
  check_rcs_capability, send_via_aggregator, handle_fallback_inline, requeue_with_delay,
  handle_delivery_failure, is_rcs_without_template, not_capable, queue_and_send, attempt,
  on_exception, deliver,
}
use rcs_bulk_messaging_syste.Delivery.Outcome.{
  Settled, SettledOr, failure_outcome, from_failed, marked_failed, fallback_outcome,
}
use rcs_bulk_messaging_syste.Prelude.Text.{codes}

-- The statuses in which an attempt can raise.
abbrev pub IsOpen : Message → Type 0
IsOpen m = (m.status ≡ pending) ⊎ (m.status ≡ queued)

-- What the handlers find: the broker as it was, and a message that is open or has failed.
abbrev pub Interrupted : Session → Session → Type 0
Interrupted s s' =
    (s'.world.broker ≡ s.world.broker)
    × (s'.message.retry_count ≡ s.message.retry_count)
    × (IsOpen s'.message ⊎ (s'.message.status ≡ failed))

abbrev pub SettledOrInterrupted : Env → Session → Result (Unit {0}) × Session → Type 0
SettledOrInterrupted env s (ok _, s') = Settled env s s'
SettledOrInterrupted env s (err _, s') = Interrupted s s'

pub requeue_with_delay_lem :
    (env : Env) (delay : ℕ) (s : Session) → requeue_with_delay env delay s ≡ (err cannot_compare, s)
unfolding requeue_with_delay publish_later schedule datetime_le
requeue_with_delay_lem env delay s = refl

failed-handle :
    (env : Env) (e : Exn) (s : Session)
    → s.message.status ≡ failed
    → SettledOr env s (handle_delivery_failure env e s)
unfolding handle_delivery_failure call mark_failed transition_to can_transition_to
failed-handle env e s h = ground arith

handle_outcome :
    (env : Env) (e : Exn) (s : Session)
    → IsOpen s.message ⊎ (s.message.status ≡ failed)
    → SettledOr env s (handle_delivery_failure env e s)
handle_outcome env e s (inl h) = failure_outcome env e s h
handle_outcome env e s (inr h) = failed-handle env e s h

on_exception_outcome :
    (env : Env) (e : Exn) (s : Session)
    → IsOpen s.message ⊎ (s.message.status ≡ failed)
    → SettledOr env s (on_exception env e s)
on_exception_outcome env e s h =
    on_exception-cases (SettledOr env s) env s
      (λ d. subst (SettledOr env s) (sym (requeue_with_delay_lem env d s)) refl)
      (λ x. handle_outcome env x s h) e

queue_and_send_outcome :
    (env : Env) (s : Session) → IsOpen s.message → SettledOrInterrupted env s (queue_and_send env s)
unfolding queue_and_send call save_message queue transition_to can_transition_to send_via_aggregator
    ask_send mark_sent record_attempt
queue_and_send_outcome env s h = ground arith

after_not_capable :
    (env : Env) (s : Session)
    → s.message.status ≡ failed
    → SettledOrInterrupted env s (
        (save_message env
            >> (handle_fallback_inline env
                >> (this_message >>= λ m. recalculate env m.campaign_id)))
          s)
unfolding save_message recalculate
after_not_capable env s h = elim (Bool-cases (should_trigger_fallback s.message)) [
  | inl f ↦ ground (arith, fallback_outcome env (save_message env s).1 f)
  | inr f ↦ unfold handle_fallback_inline in ground arith
]

interrupted_later :
    (env : Env) (s s' : Session)
    → s'.world.broker ≡ s.world.broker
    → s'.message.retry_count ≡ s.message.retry_count
    → (o : Result (Unit {0}) × Session) → SettledOrInterrupted env s' o
    → SettledOrInterrupted env s o
interrupted_later env s s' b n (ok u, s'') h = from_failed env s s' b n (ok u, s'') h
interrupted_later env s s' b n (err e, s'') h = (h.0 ∙ b, h.1 ∙ n, h.2)

not_capable_outcome :
    (env : Env) (s : Session) → IsOpen s.message → SettledOrInterrupted env s (not_capable env s)
unfolding not_capable
not_capable_outcome env s h =
    let text = codes "RCS not supported" in
    let mark = mark_failed env.now rcs_not_supported none (some text) in
    let (m', q, f, n) = marked_failed env.now rcs_not_supported none (some text) s.message h in
    let s' : Session = record s { message = m' } in
    subst (SettledOrInterrupted env s)
      (sym (
        bind-ok (call mark)
          (λ _.
            save_message env
            >> (handle_fallback_inline env
                >> (this_message >>= λ m. recalculate env m.campaign_id)))
          s (call-ok mark s q)))
      (interrupted_later env s s' refl n _ (after_not_capable env s' f))

attempt_outcome :
    (env : Env) (s : Session) → IsOpen s.message → SettledOrInterrupted env s (attempt env s)
unfolding attempt check_rcs_capability
attempt_outcome env s h =
    ground (arith, not_capable_outcome env s h, queue_and_send_outcome env s h)

handled :
    (env : Env) (s : Session) (o : Result (Unit {0}) × Session)
    → SettledOrInterrupted env s o
    → SettledOr env s (attempt_or (λ _. o) (on_exception env) s)
handled env s (ok u, s') h = h
handled env s (err e, s') h =
    from_failed env s s' h.0 h.1 (on_exception env e s') (on_exception_outcome env e s' h.2)

no_template_outcome :
    (env : Env) (s : Session)
    → IsOpen s.message
    → SettledOr env s (
        (call (
              mark_failed env.now unknown none
                (some (codes "template_id missing in MessageContent")))
            >> save_message env)
          s)
unfolding call save_message mark_failed transition_to can_transition_to record_attempt
no_template_outcome env s h = ground arith

-- A delivery job on a pending or queued message.
pub deliver_outcome : (env : Env) (s : Session) → IsOpen s.message → SettledOr env s (deliver env s)
unfolding deliver
deliver_outcome env s h = elim (Bool-cases (is_rcs_without_template s.message)) [
  | inl t ↦ rw t (no_template_outcome env s h)
  | inr t ↦ rw t (handled env s (attempt env s) (attempt_outcome env s h))
]
