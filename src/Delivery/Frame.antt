-- ===== src/Delivery/Frame.antt =====
-- A property of the session that every primitive action keeps is kept by whole jobs.
use rcs_bulk_messaging_syste.Delivery.Handlers.{on_exception-cases}
use rcs_bulk_messaging_syste.Prelude.{
  ℕ, ◌+◌, ◌≡◌, refl, inl, inr, Bool, true, false, not, Option, none, some, arith, if◌then◌else◌,
  Bool-cases,
}
use rcs_bulk_messaging_syste.Prelude.Results.{Exn, Result, ok, err, Result-cases}
use rcs_bulk_messaging_syste.Prelude.Text.{Text, codes}
use rcs_bulk_messaging_syste.Message.Types.{
  FailureReason, rcs_not_supported, unknown, is_rcs, Message,
}
use rcs_bulk_messaging_syste.Message.Lifecycle.{
  create, transition_to, record_attempt, queue, mark_sent, mark_delivered, mark_read, mark_failed,
  should_retry, increment_retry,
}
use rcs_bulk_messaging_syste.Message.Fallback.{
  should_trigger_fallback, fallback_child, create_fallback_message,
}
use rcs_bulk_messaging_syste.Prelude.Time.{Datetime, now_utc}
use rcs_bulk_messaging_syste.Queue.{QueueMessage}
use rcs_bulk_messaging_syste.Delivery.World.{
  SendMessageRequest, Env, Session, Action, continue, ◌>>=◌, attempt_or, lift, call, save_message,
  save_other, publish, publish_later, recalculate, ask_send,
}
use rcs_bulk_messaging_syste.Delivery.Send.{
  check_rcs_capability, send_request, send_via_aggregator, handle_fallback_inline,
  queue_message_for_delivery, job_for, requeue_with_delay, failure_reason_of, error_code_of,
  exception_text, retry_or_fall_back, handle_delivery_failure, is_rcs_without_template, not_capable,
  queue_and_send, attempt, on_exception, deliver,
}

-- How a message is changed without a change of its identifier.
abbrev pub KeepsId : (Message → Result Message) → Type 0
KeepsId f = (m m' : Message) → f m ≡ ok m' → m'.id ≡ m.id

pub queue-KeepsId : (now : ℕ) → KeepsId (queue now)
unfolding queue transition_to
queue-KeepsId now m m' h = ground arith

pub mark_sent-KeepsId : (now : ℕ) (g : Text) (x : Option Text) → KeepsId (mark_sent now g x)
unfolding mark_sent transition_to record_attempt
mark_sent-KeepsId now g x m m' h = ground arith

pub mark_failed-KeepsId :
    (now : ℕ) (r : FailureReason) (c x : Option Text) → KeepsId (mark_failed now r c x)
unfolding mark_failed transition_to record_attempt
mark_failed-KeepsId now r c x m m' h = ground arith

pub retry-KeepsId : (now : ℕ) → KeepsId (λ m. ok (increment_retry now m))
unfolding increment_retry
retry-KeepsId now m m' h = ground arith

pub mark_delivered-KeepsId : (now : ℕ) → KeepsId (mark_delivered now)
unfolding mark_delivered transition_to
mark_delivered-KeepsId now m m' h = ground arith

pub mark_read-KeepsId : (now : ℕ) → KeepsId (mark_read now)
unfolding mark_read transition_to
mark_read-KeepsId now m m' h = ground arith

-- What the primitive actions keep.
pub record IsFrame (env : Env) (P : Session → Type 0) : Type 0 where
  pub on_message :
      (s : Session) (m : Message) → m.id ≡ s.message.id → P s → P (record s { message = m })
  pub on_save : (s : Session) → P s → P (save_message env s).1
  pub on_save_other :
      (s : Session) (m : Message) → m.id ≡ env.fresh_id → P s → P (save_other env m s).1
  pub on_publish : (s : Session) (q : QueueMessage) → P s → P (publish env q s).1
  pub on_publish_later :
      (s : Session) (q : QueueMessage) (at : Datetime) → P s → P (publish_later env q at s).1
  pub on_recalculate : (s : Session) (cid : ℕ) → P s → P (recalculate env cid s).1
  pub on_ask : (s : Session) (q : SendMessageRequest) → P s → P (ask_send env q s).1

module _ (env : Env) (P : Session → Type 0) (F : IsFrame env P) where
  abbrev pub Keeps : {A : Type 0} → Action A → Type 0
  Keeps m = (s : Session) → P s → P (m s).1

  continue-Keeps :
      {A B : Type 0} (f : A → Action B)
      → ((a : A) → Keeps (f a))
      → (o : Result A × Session) → P o.1
      → P (continue f o).1
  continue-Keeps f h (ok a, s) p = h a s p
  continue-Keeps f h (err e, s) p = p

  pub bind-Keeps :
      {A B : Type 0} (m : Action A) (f : A → Action B)
      → Keeps m
      → ((a : A) → Keeps (f a))
      → Keeps (m >>= f)
  bind-Keeps m f h k s p = continue-Keeps f k (m s) (h s p)

  pub if-Keeps :
      {A : Type 0} (b : Bool) (m n : Action A) → Keeps m → Keeps n → Keeps (if b then m else n)
  if-Keeps true m n h k = h
  if-Keeps false m n h k = k

  pub call-Keeps : (f : Message → Result Message) → KeepsId f → Keeps (call f)
  unfolding call
  call-Keeps f i s p = elim (Result-cases (f s.message)) [
    | inl (m, e) ↦ rw e (F.on_message s m (i s.message m e) p)
    | inr (x, e) ↦ rw e p
  ]

  attempt_or-Keeps :
      {A : Type 0} (m : Action A) (h : Exn → Action A)
      → Keeps m
      → ((e : Exn) → Keeps (h e))
      → Keeps (attempt_or m h)
  attempt_or-Keeps {A = A} m h k l s p = after (m s) (k s p)
    where
      after : (o : Result A × Session) → P o.1 → P (attempt_or (λ _. o) h s).1
      after (ok a, s') q = q
      after (err e, s') q = l e s' q

  pub fallback-Keeps : Keeps (handle_fallback_inline env)
  unfolding handle_fallback_inline create_fallback_message
  fallback-Keeps s p = elim (Bool-cases (should_trigger_fallback s.message)) [
    | inr f ↦ rw f p
    | inl f ↦ rw f (
        unfold queue_message_for_delivery in
        bind-Keeps (save_other env child) (λ _. publish env (job_for child))
          (λ s'. F.on_save_other s' child (unfold fallback_child create in refl))
          (λ _ s'. F.on_publish s' (job_for child)) s p)
  ]
    where
      child : Message
      child = fallback_child env.show env.now env.fresh_id s.message

  retry-Keeps : Keeps (retry_or_fall_back env)
  unfolding retry_or_fall_back queue_message_for_delivery
  retry-Keeps s =
      if-Keeps (should_retry env.now s.message) _ _
        (bind-Keeps (call (λ m. ok (increment_retry env.now m))) _
          (call-Keeps _ (retry-KeepsId env.now))
          (λ _.
            bind-Keeps (save_message env) _ F.on_save
              (λ _ s'. F.on_publish s' (job_for s'.message))))
        (if-Keeps (should_trigger_fallback s.message) _ _
          (bind-Keeps (save_message env) _ F.on_save (λ _.
            bind-Keeps (handle_fallback_inline env) _ fallback-Keeps
              (λ _ s'. F.on_recalculate s' s.message.campaign_id)))
          (bind-Keeps (save_message env) _ F.on_save
            (λ _ s'. F.on_recalculate s' s.message.campaign_id)))
        s

  handle-Keeps : (e : Exn) → Keeps (handle_delivery_failure env e)
  unfolding handle_delivery_failure
  handle-Keeps e =
      bind-Keeps (lift (failure_reason_of e)) _ (λ s p. p)
        (λ r.
          bind-Keeps (call (mark_failed env.now r (error_code_of e) (some (exception_text e)))) _
            (call-Keeps _ (mark_failed-KeepsId env.now r _ _)) (λ _. retry-Keeps))

  requeue-Keeps : (delay : ℕ) → Keeps (requeue_with_delay env delay)
  unfolding requeue_with_delay
  requeue-Keeps delay s = F.on_publish_later s (job_for s.message) (now_utc (env.now + delay))

  on_exception-Keeps : (e : Exn) → Keeps (on_exception env e)
  on_exception-Keeps e s p =
      on_exception-cases (λ o. P o.1) env s (λ d. requeue-Keeps d s p) (λ x. handle-Keeps x s p) e

  not_capable-Keeps : Keeps (not_capable env)
  unfolding not_capable
  not_capable-Keeps =
      bind-Keeps
        (call (mark_failed env.now rcs_not_supported none (some (codes "RCS not supported")))) _
        (call-Keeps _ (mark_failed-KeepsId env.now rcs_not_supported none _))
        (λ _. bind-Keeps (save_message env) _ F.on_save (λ _.
          bind-Keeps (handle_fallback_inline env) _ fallback-Keeps
            (λ _ s'. F.on_recalculate s' s'.message.campaign_id)))

  send-Keeps : Keeps (send_via_aggregator env)
  unfolding send_via_aggregator
  send-Keeps s =
      bind-Keeps (ask_send env (send_request s.message)) _
        (λ s'. F.on_ask s' (send_request s.message))
        (λ r.
          if-Keeps r.success _ _
            (bind-Keeps (call (mark_sent env.now env.name r.external_id)) _
              (call-Keeps _ (mark_sent-KeepsId env.now env.name r.external_id)) (λ _. F.on_save))
            (λ s' p. p))
        s

  queue_and_send-Keeps : Keeps (queue_and_send env)
  unfolding queue_and_send
  queue_and_send-Keeps =
      bind-Keeps (call (queue env.now)) _ (call-Keeps _ (queue-KeepsId env.now))
        (λ _. bind-Keeps (save_message env) _ F.on_save (λ _. send-Keeps))

  attempt-Keeps : Keeps (attempt env)
  unfolding attempt check_rcs_capability
  attempt-Keeps s =
      if-Keeps (is_rcs s.message.channel) _ _
        (bind-Keeps (check_rcs_capability env s.message.recipient_phone) _
          (bind-Keeps (lift (env.capability s.message.recipient_phone)) _ (λ s' p. p) (λ l s' p. p))
          (λ b. if-Keeps (not b) _ _ not_capable-Keeps queue_and_send-Keeps))
        queue_and_send-Keeps s

  pub deliver-Keeps : Keeps (deliver env)
  unfolding deliver
  deliver-Keeps s =
      if-Keeps (is_rcs_without_template s.message) _ _
        (bind-Keeps
          (call (
            mark_failed env.now unknown none
              (some (codes "template_id missing in MessageContent"))))
          _ (call-Keeps _ (mark_failed-KeepsId env.now unknown none _)) (λ _. F.on_save))
        (attempt_or-Keeps (attempt env) (on_exception env) attempt-Keeps on_exception-Keeps) s
