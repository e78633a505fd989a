-- ===== src/Delivery/IntakeTests.antt =====
-- One message, and a batch of two, of which one recipient has opted out.
use rcs_bulk_messaging_syste.Prelude.{◌≡◌, true, false, ◌+◌, List, [], ◌∷◌}
use rcs_bulk_messaging_syste.Prelude.Text.{Text, codes}
use rcs_bulk_messaging_syste.Prelude.Results.{is_ok}
use rcs_bulk_messaging_syste.OptOut.{OptInRow, opt_out}
use rcs_bulk_messaging_syste.Message.Types.{failed, status_eq}
use rcs_bulk_messaging_syste.Message.Lifecycle.{create}
use rcs_bulk_messaging_syste.Message.Fallback.{should_trigger_fallback}
use rcs_bulk_messaging_syste.Store.Rows.{to_model, to_domain, get_by_id}
use rcs_bulk_messaging_syste.Delivery.World.{World}
use rcs_bulk_messaging_syste.Delivery.Intake.{send_message_batch}
use rcs_bulk_messaging_syste.Delivery.IntakeLaws.{BatchSent, send_message_batch_lem}
use rcs_bulk_messaging_syste.Delivery.Samples.{taking, one_message, template_content, sample}
use rcs_bulk_messaging_syste.Delivery.SmsWorker.{process_fallback_job, process_fallback_job-idle}

abbrev number : Text
number = codes "+919876543210"

abbrev opted : List OptInRow
opted = opt_out 90 5 3 (codes "+919876543211") []

send_message_batch_lem_example :
    BatchSent taking opted 3 (number ∷ codes "+919876543211" ∷ []) one_message (
      send_message_batch taking
        (λ k. k + 10)
        opted
        7
        3
        (number ∷ codes "+919876543211" ∷ [])
        template_content
        (codes "medium")
        one_message)
send_message_batch_lem_example =
    send_message_batch_lem taking (λ k. k + 10) opted 7 3 (number ∷ codes "+919876543211" ∷ [])
      template_content (codes "medium") one_message

-- A message that has used up its retries.
abbrev failed_world : World
unfolding create to_model
failed_world = record one_message {
  messages = record (to_model sample) { status = failed; retry_count = 3 } ∷ [];
}

process_fallback_job-idle_example :
    ((process_fallback_job taking true 1 failed_world).1 ≡ failed_world)
    × (is_ok (process_fallback_job taking true 1 failed_world).0 ≡ false)
unfolding create to_model get_by_id to_domain should_trigger_fallback status_eq failed_world
process_fallback_job-idle_example = process_fallback_job-idle taking true 1 failed_world
