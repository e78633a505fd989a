-- ===== src/Delivery/Tests.antt =====
-- Delivery jobs on one message, with an aggregator that reaches nobody, one that refuses without a
-- code, and one that takes every message.
use rcs_bulk_messaging_syste.Prelude.{
  ◌≤◌, ◌≡◌, refl, ◌≢◌, ◌↔◌, ◌⊎◌, inl, inr, true, some, [], ◌∷◌, ◌++◌,
}
use rcs_bulk_messaging_syste.Prelude.Results.{ok, err, is_ok}
use rcs_bulk_messaging_syste.Prelude.Text.{Text, codes, text_eq, starts_with}
use rcs_bulk_messaging_syste.Message.Types.{pending, sent, Message}
use rcs_bulk_messaging_syste.Message.Lifecycle.{create, queue, mark_sent}
use rcs_bulk_messaging_syste.Delivery.World.{
  answer, Exchange, call, save_message, ask_send, transaction,
}
use rcs_bulk_messaging_syste.Delivery.Send.{
  check_rcs_capability, send_request, response_error, send_via_aggregator, job_for,
  failure_reason_of, handle_delivery_failure, is_rcs_without_template, queue_and_send, attempt,
  on_exception, deliver, process_message_delivery,
}
use rcs_bulk_messaging_syste.Phone.{normalize_phone}
use rcs_bulk_messaging_syste.Prelude.Time.{cannot_compare}
use rcs_bulk_messaging_syste.Store.Status.{row_status}
use rcs_bulk_messaging_syste.Prelude.{◌≢◌}
use rcs_bulk_messaging_syste.Delivery.Jobs.{
  is_processed, process_message_job, handle_delivery_status_update,
}
use rcs_bulk_messaging_syste.Delivery.Guarantees.{process_message_job-settles, JobSettled}
use rcs_bulk_messaging_syste.Store.Rows.{
  to_model, to_domain, update_row, save, find_row, get_by_id, get_by_external_id, one_or_none,
  of_content_row, to_content_row,
}
use rcs_bulk_messaging_syste.Delivery.Redelivery.{
  JobRequests, process_message_job-asks_once, process_message_job-redelivered,
}
use rcs_bulk_messaging_syste.Delivery.Events.{job, run_events, accepted_count}
use rcs_bulk_messaging_syste.Delivery.AtMostOnce.{run_events-at_most_once}
use rcs_bulk_messaging_syste.Delivery.Requests.{Carries}
use rcs_bulk_messaging_syste.Delivery.Branches.{
  IsReached, process_message_job-accepted, process_message_job-rate_limited,
}
use rcs_bulk_messaging_syste.Delivery.Reported.{delivered_report-returns}
use rcs_bulk_messaging_syste.Store.RowLaws.{stored}
use rcs_bulk_messaging_syste.Delivery.Samples.{
  sample, one_message, refusing, taking, taken, world_after, limiting, sent_row, sent_world, dlr,
}

taken_job : process_message_job taking 1 one_message ≡ (ok tt, world_after taking one_message)
unfolding process_message_job create get_by_id to_model is_processed to_domain
    process_message_delivery transaction deliver is_rcs_without_template attempt
    check_rcs_capability queue_and_send call queue save_message send_via_aggregator ask_send
    send_request on_exception handle_delivery_failure failure_reason_of response_error mark_sent
    save update_row starts_with normalize_phone
taken_job = refl

loaded_sample : get_by_id 1 one_message.messages ≡ some (stored sample)
unfolding get_by_id to_model to_domain create normalize_phone starts_with
loaded_sample = refl

two≢one : taking.fresh_id ≢ sample.id
unfolding create
two≢one e = cc

process_message_job-settles_example :
    JobSettled taking (stored sample) one_message (world_after taking one_message)
unfolding create
process_message_job-settles_example =
    process_message_job-settles taking 1 one_message (world_after taking one_message)
      (stored sample) loaded_sample (inl refl) (λ e. two≢one e) taken_job

process_message_job-asks_once_example :
    JobRequests taking (stored sample) one_message (world_after taking one_message)
unfolding create
process_message_job-asks_once_example =
    process_message_job-asks_once taking 1 one_message (stored sample) loaded_sample two≢one

process_message_job-redelivered_example :
    ((row_status 1 (world_after taking one_message).messages ≡ some pending)
      × ((m' : Message) × ((m'.id ≡ 1)
            × ((world_after taking one_message).broker ≡ one_message.broker ++ job_for m' ∷ []))))
    ⊎ (process_message_job refusing 1 (world_after taking one_message)
        ≡ (ok tt, world_after taking one_message))
unfolding create
process_message_job-redelivered_example =
    process_message_job-redelivered taking refusing 1 one_message (world_after taking one_message)
      (stored sample) loaded_sample (inl refl) two≢one taken_job

run_events-at_most_once_example :
    accepted_count 1 (run_events (job taking 1 ∷ job taking 1 ∷ []) one_message) ≤ 1
unfolding process_message_job create get_by_id to_model is_processed to_domain
    process_message_delivery transaction deliver is_rcs_without_template attempt
    check_rcs_capability queue_and_send call queue save_message send_via_aggregator ask_send
    send_request mark_sent save update_row starts_with normalize_phone row_status find_row
run_events-at_most_once_example =
    run_events-at_most_once (job taking 1 ∷ job taking 1 ∷ []) 1 one_message (refl, tt) refl
      (refl, (refl, tt))

sample-IsReached : IsReached taking (stored sample)
unfolding create of_content_row to_content_row
sample-IsReached = (refl, inr (refl, ([], refl)))

process_message_job-accepted_example :
    let (o, w') = process_message_job taking 1 one_message in
    (o ≡ ok tt)
    × (row_status 1 w'.messages ≡ some sent)
    × (w'.broker ≡ [])
    × ((x : Exchange) × ((w'.exchanges ≡ x ∷ [])
          × Carries (stored sample) x.request
          × (x.answer ≡ taken)))
unfolding create answer send_request
process_message_job-accepted_example =
    process_message_job-accepted taking 1 one_message (stored sample) _ loaded_sample two≢one
      sample-IsReached refl refl

process_message_job-rate_limited_example :
    let (o, w') = process_message_job limiting 1 one_message in
    (o ≡ err cannot_compare)
    × (w'.messages ≡ one_message.messages)
    × (w'.broker ≡ one_message.broker)
unfolding create answer send_request
process_message_job-rate_limited_example =
    process_message_job-rate_limited limiting 1 one_message (stored sample) _ _ _ loaded_sample
      sample-IsReached refl

abbrev sent_message : Message
unfolding to_domain
sent_message = to_domain sent_row

found_sent :
    (s : Text) → get_by_external_id (dlr s).external_id sent_world.messages ≡ ok (some sent_message)
unfolding get_by_external_id one_or_none text_eq sent_message to_domain to_model sent_row
found_sent s = refl

delivered_report-returns_example :
    (is_ok (handle_delivery_status_update taking (dlr (codes "delivered")) sent_world).0 ≡ true)
    ↔ (sent_message.status ≡ sent)
delivered_report-returns_example =
    delivered_report-returns taking (dlr (codes "delivered")) sent_world sent_message
      (found_sent (codes "delivered")) refl
