-- ===== src/Delivery/Saved.antt =====
-- What a delivery job that returns has written of its message.
use rcs_bulk_messaging_syste.Delivery.Handlers.{on_exception-cases}
use rcs_bulk_messaging_syste.Prelude.{
  ℕ, ◌≡◌, refl, sym, ◌∙◌, subst, ◌≢◌, inl, inr, Option, none, some, arith, if◌then◌else◌,
  Bool-cases,
}
use rcs_bulk_messaging_syste.Prelude.Results.{Exn, Result, ok, err, Result-cases}
use rcs_bulk_messaging_syste.Prelude.Text.{Text, codes}
use rcs_bulk_messaging_syste.Message.Types.{FailureReason, rcs_not_supported, unknown, Message}
use rcs_bulk_messaging_syste.Message.Lifecycle.{
  create, transition_to, record_attempt, queue, mark_sent, mark_failed, increment_retry,
}
use rcs_bulk_messaging_syste.Message.Fallback.{fallback_child, create_fallback_message}
use rcs_bulk_messaging_syste.Queue.{enqueue}
use rcs_bulk_messaging_syste.Delivery.World.{
  answer, SendMessageResponse, Env, Session, Action, raise, continue, ◌>>=◌, ◌>>◌, attempt_or,
  this_message, call, save_message, save_other, publish, recalculate, ask_send, bind-ok, bind-err,
  call-ok, call-err,
}
use rcs_bulk_messaging_syste.Delivery.Send.{
  check_rcs_capability, send_request, response_error, send_via_aggregator, handle_fallback_inline,
  queue_message_for_delivery, failure_reason_of, error_code_of, exception_text, retry_or_fall_back,
  handle_delivery_failure, is_rcs_without_template, not_capable, queue_and_send, attempt,
  on_exception, deliver,
}
use rcs_bulk_messaging_syste.Store.Status.{
  row_status, mark_of, row_mark, row_mark-save, row_mark-save_other, row_mark-status,
}
use rcs_bulk_messaging_syste.Delivery.Attempt.{requeue_with_delay_lem}
use rcs_bulk_messaging_syste.Prelude.{◌≢◌}

-- The row of the message has the status, the retries, the channel and the parent of the message.
abbrev pub IsSaved : Session → Type 0
IsSaved s = row_mark s.message.id s.world.messages ≡ some (mark_of s.message)

-- Its status alone.
pub saved_status :
    (s : Session) → IsSaved s → row_status s.message.id s.world.messages ≡ some s.message.status
saved_status s h = row_mark-status s.message.id s.world.messages h

abbrev pub SameId : Session → Session → Type 0
SameId s s' = s'.message.id ≡ s.message.id

abbrev pub SavedOr : Session → Result (Unit {0}) × Session → Type 0
SavedOr s (ok _, s') = SameId s s' × IsSaved s'
SavedOr s (err _, s') = SameId s s'

saved-later :
    (s s' : Session) → SameId s s' → (o : Result (Unit {0}) × Session) → SavedOr s' o → SavedOr s o
saved-later s s' h (ok u, s'') k = (k.0 ∙ h, k.1)
saved-later s s' h (err e, s'') k = k ∙ h

save_message-IsSaved : (env : Env) (s : Session) → IsSaved (save_message env s).1
unfolding save_message
save_message-IsSaved env s = row_mark-save env.now s.message s.world.messages

fallback-saved :
    (env : Env) (s : Session)
    → env.fresh_id ≢ s.message.id
    → IsSaved s
    → SavedOr s (handle_fallback_inline env s)
unfolding handle_fallback_inline create_fallback_message fallback_child create save_other
    queue_message_for_delivery publish enqueue
fallback-saved env s n h = ground (
  arith,
  row_mark-save_other env.now s.message.id (fallback_child env.show env.now env.fresh_id s.message)
      s.world.messages,
)

mark_failed-id :
    (now : ℕ) (r : FailureReason) (c x : Option Text) (m m' : Message)
    → mark_failed now r c x m ≡ ok m'
    → m'.id ≡ m.id
unfolding mark_failed transition_to record_attempt
mark_failed-id now r c x m m' h = ground arith

-- A method that keeps the identifier, and then an action.
call-saved :
    (f : Message → Result Message) (k : Action (Unit {0})) (s : Session)
    → ((m' : Message) → f s.message ≡ ok m' → m'.id ≡ s.message.id)
    → ((s' : Session) → SameId s s' → SavedOr s' (k s'))
    → SavedOr s ((call f >> k) s)
call-saved f k s i h = elim (Result-cases (f s.message)) [
  | inr (e, q) ↦ subst (SavedOr s) (sym (bind-err (call f) (λ _. k) s (call-err f s q))) refl
  | inl (m', q) ↦
      let s' : Session = record s { message = m' } in
      subst (SavedOr s) (sym (bind-ok (call f) (λ _. k) s (call-ok f s q)))
        (saved-later s s' (i m' q) (k s') (h s' (i m' q)))
]

save_message-id : (env : Env) (s : Session) → SavedOr s (save_message env s)
unfolding save_message
save_message-id env s = (refl, row_mark-save env.now s.message s.world.messages)

retry-saved :
    (env : Env) (s : Session) → env.fresh_id ≢ s.message.id → SavedOr s (retry_or_fall_back env s)
unfolding retry_or_fall_back call save_message recalculate increment_retry
    queue_message_for_delivery publish enqueue
retry-saved env s n = ground (
  arith,
  row_mark-save env.now (increment_retry env.now s.message) s.world.messages,
  row_mark-save env.now s.message s.world.messages,
  fallback-saved env (save_message env s).1 n,
)

handle-saved :
    (env : Env) (e : Exn) (s : Session)
    → env.fresh_id ≢ s.message.id
    → SavedOr s (handle_delivery_failure env e s)
unfolding handle_delivery_failure
handle-saved env e s n = elim (Result-cases (failure_reason_of e)) [
  | inr (x, t) ↦ rw t refl
  | inl (r, t) ↦ rw t (
      call-saved (mark_failed env.now r (error_code_of e) (some (exception_text e)))
        (retry_or_fall_back env) s (λ m' h. mark_failed-id env.now r _ _ s.message m' h)
        (λ s' same. retry-saved env s' (λ c. n (c ∙ same))))
]

on_exception-saved :
    (env : Env) (e : Exn) (s : Session)
    → env.fresh_id ≢ s.message.id
    → SavedOr s (on_exception env e s)
on_exception-saved env e s n =
    on_exception-cases (SavedOr s) env s
      (λ d. subst (SavedOr s) (sym (requeue_with_delay_lem env d s)) refl)
      (λ x. handle-saved env x s n) e

mark_sent-id :
    (now : ℕ) (g : Text) (x : Option Text) (m m' : Message)
    → mark_sent now g x m ≡ ok m'
    → m'.id ≡ m.id
unfolding mark_sent transition_to record_attempt
mark_sent-id now g x m m' h = ground arith

queue-id : (now : ℕ) (m m' : Message) → queue now m ≡ ok m' → m'.id ≡ m.id
unfolding queue transition_to
queue-id now m m' h = ground arith

answered-saved :
    (env : Env) (s : Session) (r : Result SendMessageResponse)
    → SavedOr s (
        continue
          (λ response.
            if response.success
            then call (mark_sent env.now env.name response.external_id) >> save_message env
            else raise (response_error response))
          (r, s))
answered-saved env s (err e) = refl
answered-saved env s (ok r) = elim (Bool-cases r.success) [
  | inr b ↦ rw b refl
  | inl b ↦
      subst
        (λ z. SavedOr s (
          (if z
              then call (mark_sent env.now env.name r.external_id) >> save_message env
              else raise (response_error r))
            s))
        (sym b)
        (call-saved (mark_sent env.now env.name r.external_id) (save_message env) s
          (λ m' h. mark_sent-id env.now env.name r.external_id s.message m' h)
          (λ s' c. save_message-id env s'))
]

send-saved : (env : Env) (s : Session) → SavedOr s (send_via_aggregator env s)
unfolding send_via_aggregator ask_send
send-saved env s =
    let q = send_request s.message in
    let s' = (ask_send env q s).1 in saved-later s s' refl _ (answered-saved env s' (answer env q))

queue_and_send-saved : (env : Env) (s : Session) → SavedOr s (queue_and_send env s)
unfolding queue_and_send
queue_and_send-saved env s =
    call-saved (queue env.now) (save_message env >> send_via_aggregator env) s
      (λ m' h. queue-id env.now s.message m' h)
      (λ s' c.
        unfold save_message in
        (saved-later s' (save_message env s').1 refl _ (send-saved env (save_message env s').1)))

not_capable-saved :
    (env : Env) (s : Session) → env.fresh_id ≢ s.message.id → SavedOr s (not_capable env s)
unfolding not_capable
not_capable-saved env s n =
    call-saved (mark_failed env.now rcs_not_supported none (some (codes "RCS not supported")))
      (save_message env
        >> (handle_fallback_inline env >> (this_message >>= λ m. recalculate env m.campaign_id)))
      s (λ m' h. mark_failed-id env.now rcs_not_supported none _ s.message m' h)
      (λ s' same. after s' (λ c. n (c ∙ same)))
  where
    after :
        (s' : Session)
        → env.fresh_id ≢ s'.message.id
        → SavedOr s' (
            (save_message env
                >> (handle_fallback_inline env
                    >> (this_message >>= λ m. recalculate env m.campaign_id)))
              s')
    after s' n' =
        unfold save_message recalculate in
        ground (
          arith,
          row_mark-save env.now s'.message s'.world.messages,
          fallback-saved env (save_message env s').1 n',
        )

attempt-saved : (env : Env) (s : Session) → env.fresh_id ≢ s.message.id → SavedOr s (attempt env s)
unfolding attempt check_rcs_capability
attempt-saved env s n = ground (arith, not_capable-saved env s n, queue_and_send-saved env s)

handled-saved :
    (env : Env) (s : Session) (o : Result (Unit {0}) × Session)
    → env.fresh_id ≢ s.message.id
    → SavedOr s o
    → SavedOr s (attempt_or (λ _. o) (on_exception env) s)
handled-saved env s (ok u, s') n h = h
handled-saved env s (err e, s') n h =
    saved-later s s' h (on_exception env e s') (on_exception-saved env e s' (λ c. n (c ∙ h)))

-- A job that returns has saved the message.
pub deliver-saved :
    (env : Env) (s : Session) → env.fresh_id ≢ s.message.id → SavedOr s (deliver env s)
unfolding deliver
deliver-saved env s n = elim (Bool-cases (is_rcs_without_template s.message)) [
  | inl t ↦ rw t (
      call-saved
        (mark_failed env.now unknown none (some (codes "template_id missing in MessageContent")))
        (save_message env) s (λ m' h. mark_failed-id env.now unknown none _ s.message m' h)
        (λ s' same. save_message-id env s'))
  | inr t ↦ rw t (handled-saved env s (attempt env s) n (attempt-saved env s n))
]
