-- ===== src/Delivery/Reported.antt =====
-- When a delivery report is taken, and what it leaves.
use rcs_bulk_messaging_syste.Prelude.{
  ◌<◌, ◌≡◌, refl, sym, ap, ◌∙◌, subst, ◌↔◌, ◌⊎◌, true, false, none, some, arith,
}
use rcs_bulk_messaging_syste.Prelude.Results.{Result, ok, err, is_ok}
use rcs_bulk_messaging_syste.Prelude.Text.{codes, text_eq}
use rcs_bulk_messaging_syste.Message.Types.{sent, delivered, failed, network_error, is_rcs, Message}
use rcs_bulk_messaging_syste.Message.Lifecycle.{
  can_transition_to, transition_to, record_attempt, mark_delivered, mark_read, mark_failed,
}
use rcs_bulk_messaging_syste.Message.Fallback.{should_trigger_fallback}
use rcs_bulk_messaging_syste.Store.Rows.{save, get_by_external_id}
use rcs_bulk_messaging_syste.Delivery.World.{
  Env, World, Session, ◌>>◌, call, save_message, recalculate, transaction,
}
use rcs_bulk_messaging_syste.Store.Status.{row_status, row_status-save}
use rcs_bulk_messaging_syste.Delivery.Jobs.{
  StatusUpdate, apply_status, fallback_if_due, save_and_recalculate, update_loaded,
  handle_delivery_status_update,
}

reported :
    (env : Env) (u : StatusUpdate) (w : World) {m : Message}
    → get_by_external_id u.external_id w.messages ≡ ok (some m)
    → handle_delivery_status_update env u w
      ≡ transaction w
          ((apply_status env u >> save_and_recalculate env) (record { message = m; world = w }))
unfolding handle_delivery_status_update update_loaded
reported env u w h = rw h refl

transaction-is_ok :
    (w : World) (o : Result (Unit {0}) × Session) → is_ok (transaction w o).0 ≡ is_ok o.0
unfolding transaction
transaction-is_ok w (ok u, s) = refl
transaction-is_ok w (err e, s) = refl

delivered-is_ok :
    (env : Env) (u : StatusUpdate) (s : Session)
    → text_eq u.status (codes "delivered") ≡ true
    → (is_ok ((apply_status env u >> save_and_recalculate env) s).0 ≡ true)
      ↔ (s.message.status ≡ sent)
unfolding apply_status save_and_recalculate save_message recalculate call mark_delivered
    transition_to can_transition_to
delivered-is_ok env u s h = (λ k. ground arith, λ k. ground arith)

read-is_ok :
    (env : Env) (u : StatusUpdate) (s : Session)
    → text_eq u.status (codes "delivered") ≡ false
    → text_eq u.status (codes "read") ≡ true
    → (is_ok ((apply_status env u >> save_and_recalculate env) s).0 ≡ true)
      ↔ ((is_rcs s.message.channel ≡ false) ⊎ (s.message.status ≡ delivered))
unfolding apply_status save_and_recalculate save_message recalculate call mark_read transition_to
    can_transition_to
read-is_ok env u s h h' = (λ k. ground arith, λ k. ground arith)

-- A report of a delivery is taken exactly when the message is sent, and else the job raises: also on
-- a report that comes a second time.
pub delivered_report-returns :
    (env : Env) (u : StatusUpdate) (w : World) (m : Message)
    → get_by_external_id u.external_id w.messages ≡ ok (some m)
    → u.status ≡ codes "delivered"
    → (is_ok (handle_delivery_status_update env u w).0 ≡ true) ↔ (m.status ≡ sent)
delivered_report-returns env u w m q h =
    let s : Session = record { message = m; world = w } in
    let named : text_eq u.status (codes "delivered") ≡ true = rw h (unfold text_eq in refl) in
    subst (λ b. (b ≡ true) ↔ (m.status ≡ sent))
      (sym (ap (λ o. is_ok o.0) (reported env u w q) ∙ transaction-is_ok w _))
      (delivered-is_ok env u s named)

-- A report of a reading is taken exactly when the message is delivered, or is not an RCS message.
pub read_report-returns :
    (env : Env) (u : StatusUpdate) (w : World) (m : Message)
    → get_by_external_id u.external_id w.messages ≡ ok (some m)
    → u.status ≡ codes "read"
    → (is_ok (handle_delivery_status_update env u w).0 ≡ true)
      ↔ ((is_rcs m.channel ≡ false) ⊎ (m.status ≡ delivered))
read_report-returns env u w m q h =
    let s : Session = record { message = m; world = w } in
    let other : text_eq u.status (codes "delivered") ≡ false = rw h (unfold text_eq in refl) in
    let named : text_eq u.status (codes "read") ≡ true = rw h (unfold text_eq in refl) in
    subst (λ b. (b ≡ true) ↔ ((is_rcs m.channel ≡ false) ⊎ (m.status ≡ delivered)))
      (sym (ap (λ o. is_ok o.0) (reported env u w q) ∙ transaction-is_ok w _))
      (read-is_ok env u s other named)

failed-lost :
    (env : Env) (u : StatusUpdate) (s : Session)
    → text_eq u.status (codes "delivered") ≡ false
    → text_eq u.status (codes "read") ≡ false
    → text_eq u.status (codes "failed") ≡ true
    → s.message.status ≡ sent
    → s.message.retry_count < s.message.max_retries
    → let (r, w') = transaction s.world ((apply_status env u >> save_and_recalculate env) s) in
      (r ≡ ok tt)
      × (row_status s.message.id w'.messages ≡ some failed)
      × (w'.broker ≡ s.world.broker)
unfolding apply_status save_and_recalculate recalculate call mark_failed transition_to
    can_transition_to fallback_if_due should_trigger_fallback transaction save_message
    record_attempt
failed-lost env u s h h' h'' k n = ground (arith, failed_row)
  where
    m' : Message
    m' =
        record_attempt env.now failed s.message.aggregator none u.error_code u.error_message
          (record (s.message) {
            status = failed;
            updated_at = env.now;
            failed_at = some env.now;
            failure_reason = some network_error;
            error_code = u.error_code;
            error_message = u.error_message;
          })

    failed_row : row_status m'.id (save env.now m' s.world.messages) ≡ some failed
    failed_row = row_status-save env.now m' s.world.messages

-- A report that a sent message has failed is taken, and with retries left the message stays failed: it
-- is neither queued again nor replaced by an SMS message.
pub failed_report-no_retry :
    (env : Env) (u : StatusUpdate) (w : World) (m : Message)
    → get_by_external_id u.external_id w.messages ≡ ok (some m)
    → u.status ≡ codes "failed"
    → m.status ≡ sent
    → m.retry_count < m.max_retries
    → let (r, w') = handle_delivery_status_update env u w in
      (r ≡ ok tt) × (row_status m.id w'.messages ≡ some failed) × (w'.broker ≡ w.broker)
failed_report-no_retry env u w m q h k n =
    let s : Session = record { message = m; world = w } in
    let other : text_eq u.status (codes "delivered") ≡ false = rw h (unfold text_eq in refl) in
    let other' : text_eq u.status (codes "read") ≡ false = rw h (unfold text_eq in refl) in
    let named : text_eq u.status (codes "failed") ≡ true = rw h (unfold text_eq in refl) in
    subst
      (λ o. (o.0 ≡ ok tt) × (row_status m.id o.1.messages ≡ some failed) × (o.1.broker ≡ w.broker))
      (sym (reported env u w q)) (failed-lost env u s other other' named k n)
