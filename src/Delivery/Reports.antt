-- ===== src/Delivery/Reports.antt =====
-- What a delivery report changes.
use rcs_bulk_messaging_syste.Prelude.{◌≡◌, inl, inr, true, some, arith}
use rcs_bulk_messaging_syste.Prelude.Results.{Result, Result-cases}
use rcs_bulk_messaging_syste.Prelude.Text.{codes, text_eq}
use rcs_bulk_messaging_syste.Message.Types.{network_error, Message}
use rcs_bulk_messaging_syste.Message.Lifecycle.{
  transition_to, record_attempt, mark_delivered, mark_read, mark_failed,
}
use rcs_bulk_messaging_syste.Message.Fallback.{should_trigger_fallback, create_fallback_message}
use rcs_bulk_messaging_syste.Queue.{enqueue}
use rcs_bulk_messaging_syste.Delivery.World.{
  Env, Session, ◌>>◌, call, save_message, save_other, publish, recalculate,
}
use rcs_bulk_messaging_syste.Delivery.Send.{handle_fallback_inline, queue_message_for_delivery}
use rcs_bulk_messaging_syste.Delivery.Jobs.{
  StatusUpdate, apply_status, fallback_if_due, save_and_recalculate,
}
use rcs_bulk_messaging_syste.Delivery.Frame.{
  Keeps, IsFrame, bind-Keeps, if-Keeps, call-Keeps, fallback-Keeps, mark_delivered-KeepsId,
  mark_read-KeepsId, mark_failed-KeepsId,
}
use rcs_bulk_messaging_syste.Delivery.Redelivery.{is_done}

-- What every primitive action keeps, a report keeps.
pub report-Keeps :
    (env : Env) (P : Session → Type 0) (F : IsFrame env P) (u : StatusUpdate)
    → Keeps env P F (apply_status env u >> save_and_recalculate env)
unfolding apply_status fallback_if_due save_and_recalculate
report-Keeps env P F u =
    bind-Keeps env P F (apply_status env u) _
      (if-Keeps env P F (text_eq u.status (codes "delivered")) _ _
        (call-Keeps env P F _ (mark_delivered-KeepsId env.now))
        (if-Keeps env P F (text_eq u.status (codes "read")) _ _
          (call-Keeps env P F _ (mark_read-KeepsId env.now))
          (if-Keeps env P F (text_eq u.status (codes "failed")) _ _
            (bind-Keeps env P F
              (call (mark_failed env.now network_error u.error_code u.error_message)) _
              (call-Keeps env P F _
                (mark_failed-KeepsId env.now network_error u.error_code u.error_message))
              (λ _ s.
                if-Keeps env P F (should_trigger_fallback s.message) _ _ (fallback-Keeps env P F)
                  (λ s' p. p) s))
            (λ s p. p))))
      (λ _.
        bind-Keeps env P F (save_message env) _ F.on_save
          (λ _ s. F.on_recalculate s s.message.campaign_id))

fallback-message : (env : Env) (s : Session) → (handle_fallback_inline env s).1.message ≡ s.message
unfolding handle_fallback_inline create_fallback_message save_other queue_message_for_delivery
    publish enqueue
fallback-message env s = ground arith

fallback-exchanges :
    (env : Env) (s : Session) → (handle_fallback_inline env s).1.world.exchanges ≡ s.world.exchanges
unfolding handle_fallback_inline create_fallback_message save_other queue_message_for_delivery
    publish enqueue
fallback-exchanges env s = ground arith

failed_message : (env : Env) (u : StatusUpdate) (m : Message) → Result Message
failed_message env u m = mark_failed env.now network_error u.error_code u.error_message m

pub report-exchanges :
    (env : Env) (u : StatusUpdate) (s : Session)
    → ((apply_status env u >> save_and_recalculate env) s).1.world.exchanges ≡ s.world.exchanges
unfolding apply_status fallback_if_due save_and_recalculate save_message recalculate call
report-exchanges env u s = elim (Result-cases (failed_message env u s.message)) [
  | inr (x, e) ↦ unfold failed_message in ground arith
  | inl (m, e) ↦
      unfold failed_message in ground (arith, fallback-exchanges env (record s { message = m }))
]

pub apply_status-message :
    (env : Env) (u : StatusUpdate) (s : Session)
    → is_done (some s.message.status) ≡ true
    → ((apply_status env u s).1.message.id ≡ s.message.id)
      × (is_done (some (apply_status env u s).1.message.status) ≡ true)
unfolding apply_status fallback_if_due call mark_delivered mark_read transition_to
apply_status-message env u s h = elim (Result-cases (failed_message env u s.message)) [
  | inr (x, e) ↦ unfold failed_message in ground arith
  | inl (m, e) ↦
      unfold failed_message mark_failed transition_to record_attempt in
      ground (arith, fallback-message env (record s { message = m }))
]
