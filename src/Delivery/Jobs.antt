-- ===== src/Delivery/Jobs.antt =====
-- The handlers of the queues: `process_message_job` of apps/workers/dispatcher/message_dispatcher.py,
-- `process_webhook_job` of apps/workers/events/webhook_processor.py, and
-- `handle_delivery_status_update` of `class DeliveryService`. Where a worker opens the unit of work
-- around the service's own, the inner one has already committed or rolled back.
use rcs_bulk_messaging_syste.Prelude.{ℕ, Bool, ◌||◌, not, Option, none, some, if◌then◌else◌}
use rcs_bulk_messaging_syste.Prelude.Text.{Text, codes, text_eq}
use rcs_bulk_messaging_syste.Prelude.Results.{Result, ok, err}
use rcs_bulk_messaging_syste.Message.Types.{pending, queued, network_error, status_eq, Message}
use rcs_bulk_messaging_syste.Message.Lifecycle.{mark_delivered, mark_read, mark_failed}
use rcs_bulk_messaging_syste.Message.Fallback.{should_trigger_fallback}
use rcs_bulk_messaging_syste.Store.Rows.{get_by_id, get_by_external_id}
use rcs_bulk_messaging_syste.Delivery.World.{
  Env, World, Action, pure, ◌>>=◌, ◌>>◌, this_message, call, save_message, recalculate, transaction,
}
use rcs_bulk_messaging_syste.Delivery.Send.{handle_fallback_inline, process_message_delivery}

-- Only a pending or queued message is worked on: a job may be delivered twice.
unfoldable pub is_processed : Message → Bool
unfolding status_eq
is_processed m = not (status_eq m.status pending || status_eq m.status queued)

guarded : Env → ℕ → World → Option Message → Result (Unit {0}) × World
guarded env message_id w none = (ok tt, w)
guarded env message_id w (some m) =
    if is_processed m then (ok tt, w) else process_message_delivery env message_id w

unfoldable pub process_message_job : Env → ℕ → World → Result (Unit {0}) × World
unfolding guarded
process_message_job env message_id w = guarded env message_id w (get_by_id message_id w.messages)

-- What a delivery report says.
pub record StatusUpdate : Type 0 where
  pub external_id : Text
  pub status : Text
  pub error_code : Option Text
  pub error_message : Option Text

unfoldable pub fallback_if_due : Env → Action (Unit {0})
fallback_if_due env = do
  m ← this_message
  (if should_trigger_fallback m then handle_fallback_inline env else pure tt)

-- A status that is none of the three changes nothing.
unfoldable pub apply_status : Env → StatusUpdate → Action (Unit {0})
apply_status env u =
    if text_eq u.status (codes "delivered")
    then call (mark_delivered env.now)
    else if text_eq u.status (codes "read")
    then call (mark_read env.now)
    else if text_eq u.status (codes "failed")
    then (call (mark_failed env.now network_error u.error_code u.error_message)
        >> fallback_if_due env)
    else pure tt

unfoldable pub save_and_recalculate : Env → Action (Unit {0})
save_and_recalculate env = do save_message env; m ← this_message; recalculate env m.campaign_id

unfoldable pub update_loaded :
    Env → StatusUpdate → World → Result (Option Message) → Result (Unit {0}) × World
unfolding save_and_recalculate
update_loaded env u w (err e) = (err e, w)
update_loaded env u w (ok none) = (ok tt, w)
update_loaded env u w (ok (some m)) =
    transaction w
      ((apply_status env u >> save_and_recalculate env) (record { message = m; world = w }))

unfoldable pub handle_delivery_status_update :
    Env → StatusUpdate → World → Result (Unit {0}) × World
unfolding update_loaded
handle_delivery_status_update env u w =
    update_loaded env u w (get_by_external_id u.external_id w.messages)

-- What the aggregator makes of a webhook: it refuses the signature, cannot read it, or reports.
pub data Webhook : Type 0 where
  refused : Webhook
  unread : Webhook
  report : StatusUpdate → Webhook

unfoldable pub process_webhook_job : Env → Webhook → World → Result (Unit {0}) × World
process_webhook_job env refused w = (ok tt, w)
process_webhook_job env unread w = (ok tt, w)
process_webhook_job env (report u) w = handle_delivery_status_update env u w
