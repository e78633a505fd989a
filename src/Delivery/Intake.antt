-- ===== src/Delivery/Intake.antt =====
-- `send_message` and `send_message_batch` of `class DeliveryService`: how messages come in.
use rcs_bulk_messaging_syste.Prelude.{
  ℕ, suc, not, none, List, [], ◌∷◌, ◌++◌, map, if◌then◌else◌, filter,
}
use rcs_bulk_messaging_syste.Prelude.Results.{Exn, value_error, Result, ok, err}
use rcs_bulk_messaging_syste.Prelude.Text.{Text, codes}
use rcs_bulk_messaging_syste.Message.Types.{rcs, MessageContent, Message}
use rcs_bulk_messaging_syste.Message.Lifecycle.{create}
use rcs_bulk_messaging_syste.Store.Rows.{save, save_batch}
use rcs_bulk_messaging_syste.Queue.{Broker, enqueue, enqueue_batch}
use rcs_bulk_messaging_syste.Delivery.World.{Env, World}
use rcs_bulk_messaging_syste.OptOut.{OptInRow, is_opted_out}
use rcs_bulk_messaging_syste.Delivery.Send.{job_for}

abbrev opted_out_error : Text → Exn
opted_out_error phone = value_error (codes "Recipient " ++ (phone ++ codes " has opted out"))

unfoldable pub queue_new : Env → Message → World → Result Broker → Result Message × World
queue_new env m w (ok b) = (ok m, record w { broker = b })
queue_new env m w (err e) = (err e, w)

-- The message is committed before the job is queued.
unfoldable pub send_message :
    Env → List OptInRow → ℕ → ℕ → Text → MessageContent → Text → World → Result Message × World
unfolding queue_new
send_message env opt_ins campaign_id tenant_id phone content priority w =
    if is_opted_out tenant_id phone opt_ins
    then (err (opted_out_error phone), w)
    else queue_new env m saved (enqueue env.accepts (job_for m) w.broker)
  where
    m : Message
    m = create env.now env.fresh_id campaign_id tenant_id phone content priority rcs none

    saved : World
    saved = record w { messages = save env.now m w.messages }

-- The messages to the recipients, in their order; `draw` gives the identifiers that `uuid4` draws.
unfoldable pub create_all :
    Env → (ℕ → ℕ) → ℕ → ℕ → MessageContent → Text → ℕ → List Text → List Message
create_all env draw campaign_id tenant_id content priority k [] = []
create_all env draw campaign_id tenant_id content priority k (phone ∷ phones) =
    create env.now (draw k) campaign_id tenant_id phone content priority rcs none
    ∷ create_all env draw campaign_id tenant_id content priority (suc k) phones

unfoldable pub valid_recipients : List OptInRow → ℕ → List Text → List Text
valid_recipients opt_ins tenant_id phones =
    filter (λ phone. not (is_opted_out tenant_id phone opt_ins)) phones

unfoldable pub returned :
    List Message → Result (Unit {0}) × Broker → World → Result (List Message) × World
returned ms (ok _, b) w = (ok ms, record w { broker = b })
returned ms (err e, b) w = (err e, record w { broker = b })

unfoldable pub send_message_batch :
    Env
    → (ℕ → ℕ)
    → List OptInRow
    → ℕ
    → ℕ
    → List Text
    → MessageContent
    → Text
    → World
    → Result (List Message) × World
unfolding returned
send_message_batch env draw opt_ins campaign_id tenant_id recipients content priority w =
    returned ms (enqueue_batch env.accepts (map job_for ms) w.broker) saved
  where
    ms : List Message
    ms =
        create_all env draw campaign_id tenant_id content priority 0
          (valid_recipients opt_ins tenant_id recipients)

    saved : World
    saved = record w { messages = save_batch ms w.messages }
