-- ===== src/Delivery/Requests.antt =====
-- The requests that a delivery job makes of the aggregator.
use rcs_bulk_messaging_syste.Delivery.Attempt.{requeue_with_delay_lem}
use rcs_bulk_messaging_syste.Delivery.Handlers.{on_exception-cases}
use rcs_bulk_messaging_syste.Prelude.{
  subst, sym, ◌≡◌, refl, ◌⊎◌, inl, inr, Bool, true, false, not, some, List, [], ◌∷◌, ◌++◌, arith,
  if◌then◌else◌, Bool-cases,
}
use rcs_bulk_messaging_syste.Prelude.Results.{Exn, Result, ok, err, Result-cases}
use rcs_bulk_messaging_syste.Message.Types.{sent, is_rcs, Message}
use rcs_bulk_messaging_syste.Message.Lifecycle.{
  can_transition_to, transition_to, record_attempt, queue, mark_sent, mark_failed,
}
use rcs_bulk_messaging_syste.Message.Fallback.{create_fallback_message}
use rcs_bulk_messaging_syste.Queue.{enqueue}
use rcs_bulk_messaging_syste.Delivery.World.{
  Exchange, answer, SendMessageRequest, SendMessageResponse, Env, Session, Action, pure, ◌>>=◌,
  ◌>>◌, attempt_or, lift, this_message, call, save_message, save_other, publish, recalculate,
  ask_send,
}
use rcs_bulk_messaging_syste.Delivery.Send.{
  check_rcs_capability, first_result, send_request, send_via_aggregator, handle_fallback_inline,
  queue_message_for_delivery, failure_reason_of, error_code_of, exception_text, retry_or_fall_back,
  handle_delivery_failure, is_rcs_without_template, not_capable, queue_and_send, attempt,
  on_exception, deliver,
}
use rcs_bulk_messaging_syste.Message.Content.{truthy}

is_success : Result SendMessageResponse → Bool
is_success (ok r) = r.success
is_success (err e) = false

-- The aggregator has accepted the message.
unfoldable pub is_accepted : Exchange → Bool
unfolding is_success
is_accepted x = is_success x.answer

-- What is asked for a message, with the answer.
unfoldable pub exchange : Env → Message → Exchange
exchange env m = record { request = send_request m; answer = answer env (send_request m) }

-- The request is for the message, and says what it says.
abbrev pub Carries : Message → SendMessageRequest → Type 0
Carries m q =
    (q.message_id ≡ m.id)
    × (q.recipient_phone ≡ m.recipient_phone)
    × (q.channel ≡ m.channel)
    × (q.content_text ≡ m.content.text)
    × (q.rich_card ≡ m.content.rich_card)
    × (q.suggestions ≡ m.content.suggestions)
    × (q.priority ≡ m.priority)
    × (q.template_id ≡ m.content.template_id)
    × (q.variables ≡ m.content.variables)
    × (q.rcs_type ≡ m.content.rcs_type)

pub exchange-Carries : (env : Env) (m : Message) → Carries m (exchange env m).request
unfolding exchange send_request
exchange-Carries env m = (refl, refl, refl, refl, refl, refl, refl, refl, refl, refl)

pub exchange-answer :
    (env : Env) (m : Message) → (exchange env m).answer ≡ answer env (exchange env m).request
unfolding exchange
exchange-answer env m = refl

-- RCS is asked for with a template, and to a recipient that the aggregator says it reaches.
abbrev pub IsAllowed : Env → Message → Type 0
IsAllowed env m =
    (is_rcs m.channel ≡ false)
    ⊎ ((truthy m.content.template_id ≡ true)
        × ((l : List Bool) × (env.capability m.recipient_phone ≡ ok (true ∷ l))))

-- No request is made, or one with the fields of the message.
abbrev pub Asks : Env → Session → Session → Type 0 → Type 0
Asks env s s' P =
    (s'.world.exchanges ≡ s.world.exchanges)
    ⊎ ((s'.world.exchanges ≡ s.world.exchanges ++ exchange env s.message ∷ [])
        × IsAllowed env s.message
        × P)

-- It is accepted only if the job returns with the message sent.
abbrev pub AsksOnce : Env → Session → Result (Unit {0}) × Session → Type 0
AsksOnce env s (ok _, s') =
    Asks env s s' ((s'.message.status ≡ sent) ⊎ (is_accepted (exchange env s.message) ≡ false))
AsksOnce env s (err _, s') = Asks env s s' (is_accepted (exchange env s.message) ≡ false)

abbrev pub IsQuiet : Session → Result (Unit {0}) × Session → Type 0
IsQuiet s o = o.1.world.exchanges ≡ s.world.exchanges

fallback-IsQuiet : (env : Env) (s : Session) → IsQuiet s (handle_fallback_inline env s)
unfolding handle_fallback_inline create_fallback_message save_other queue_message_for_delivery
    publish enqueue
fallback-IsQuiet env s = ground arith

retry-IsQuiet : (env : Env) (s : Session) → IsQuiet s (retry_or_fall_back env s)
unfolding retry_or_fall_back call save_message recalculate queue_message_for_delivery publish
    enqueue
retry-IsQuiet env s = ground (arith, fallback-IsQuiet env (save_message env s).1)

marked-IsQuiet :
    (f : Message → Result Message) (k : Action (Unit {0})) (s : Session)
    → ((m : Message) → IsQuiet (record s { message = m }) (k (record s { message = m })))
    → IsQuiet s ((call f >> k) s)
unfolding call
marked-IsQuiet f k s h = elim (Result-cases (f s.message)) [
  | inr (e, q) ↦ rw q refl
  | inl (m', q) ↦ rw q (h m')
]

handle-IsQuiet : (env : Env) (e : Exn) (s : Session) → IsQuiet s (handle_delivery_failure env e s)
unfolding handle_delivery_failure
handle-IsQuiet env e s = elim (Result-cases (failure_reason_of e)) [
  | inr (x, t) ↦ rw t refl
  | inl (r, t) ↦ rw t (
      marked-IsQuiet (mark_failed env.now r (error_code_of e) (some (exception_text e)))
        (retry_or_fall_back env) s (λ m. retry-IsQuiet env (record s { message = m })))
]

on_exception-IsQuiet : (env : Env) (e : Exn) (s : Session) → IsQuiet s (on_exception env e s)
on_exception-IsQuiet env e s =
    on_exception-cases (IsQuiet s) env s
      (λ d. subst (IsQuiet s) (sym (requeue_with_delay_lem env d s)) refl)
      (λ x. handle-IsQuiet env x s) e

not_capable-IsQuiet : (env : Env) (s : Session) → IsQuiet s (not_capable env s)
unfolding not_capable
not_capable-IsQuiet env s = marked-IsQuiet _ _ s (λ m. after (record s { message = m }))
  where
    after :
        (s' : Session)
        → IsQuiet s' (
            (save_message env
                >> (handle_fallback_inline env
                    >> (this_message >>= λ m. recalculate env m.campaign_id)))
              s')
    after s' =
        unfold save_message recalculate in
        ground (arith, fallback-IsQuiet env (save_message env s').1)

-- The same request, whatever `queue` has changed of the message.
queue_and_send-asks :
    (env : Env) (s : Session) → IsAllowed env s.message → AsksOnce env s (queue_and_send env s)
unfolding queue_and_send call save_message queue transition_to can_transition_to send_via_aggregator
    ask_send mark_sent record_attempt send_request answer is_accepted exchange
queue_and_send-asks env s h = ground arith

IsQuiet-asks :
    (env : Env) (s : Session) (o : Result (Unit {0}) × Session) → IsQuiet s o → AsksOnce env s o
IsQuiet-asks env s (ok u, s') h = inl h
IsQuiet-asks env s (err e, s') h = inl h

with_template :
    (m : Message)
    → is_rcs m.channel ≡ true
    → is_rcs_without_template m ≡ false
    → truthy m.content.template_id ≡ true
unfolding is_rcs_without_template
with_template m c h = ground arith

attempt-asks :
    (env : Env) (s : Session)
    → is_rcs_without_template s.message ≡ false
    → AsksOnce env s (attempt env s)
unfolding attempt check_rcs_capability is_rcs_without_template first_result
attempt-asks env s h = elim (Bool-cases (is_rcs s.message.channel)) [
  | inr c ↦ rw c (queue_and_send-asks env s (inl c))
  | inl c ↦
      rw c (asked (with_template s.message c h) (env.capability s.message.recipient_phone) refl)
]
  where
    asked :
        truthy s.message.content.template_id ≡ true
        → (r : Result (List Bool)) → env.capability s.message.recipient_phone ≡ r
        → AsksOnce env s (
            ((lift r >>= λ l. pure (first_result l)) >>= λ b.
            if not b then not_capable env else queue_and_send env)
              s)
    asked t (err e) q = inl refl
    asked t (ok []) q = IsQuiet-asks env s _ (not_capable-IsQuiet env s)
    asked t (ok (false ∷ l)) q = IsQuiet-asks env s _ (not_capable-IsQuiet env s)
    asked t (ok (true ∷ l)) q = queue_and_send-asks env s (inr (t, (l, q)))

handled-asks :
    (env : Env) (s : Session) (o : Result (Unit {0}) × Session)
    → AsksOnce env s o
    → AsksOnce env s (attempt_or (λ _. o) (on_exception env) s)
handled-asks env s (ok u, s') h = h
handled-asks env s (err e, s') h = later (on_exception env e s') (on_exception-IsQuiet env e s')
  where
    later : (o : Result (Unit {0}) × Session) → IsQuiet s' o → AsksOnce env s o
    later (ok u, s'') q = ground (arith, h)
    later (err x, s'') q = ground (arith, h)

saved-IsQuiet : (env : Env) (s : Session) → IsQuiet s (save_message env s)
unfolding save_message
saved-IsQuiet env s = refl

pub deliver-asks : (env : Env) (s : Session) → AsksOnce env s (deliver env s)
unfolding deliver
deliver-asks env s = elim (Bool-cases (is_rcs_without_template s.message)) [
  | inl t ↦ rw t (
      IsQuiet-asks env s _
        (marked-IsQuiet _ _ s (λ m. saved-IsQuiet env (record s { message = m }))))
  | inr t ↦ rw t (handled-asks env s (attempt env s) (attempt-asks env s t))
]
