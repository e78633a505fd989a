-- ===== src/Delivery/Send.antt =====
-- `process_message_delivery` of `class DeliveryService`, and all that it calls.
use rcs_bulk_messaging_syste.Prelude.{
  ℕ, zero, suc, ◌+◌, Bool, false, ◌&&◌, not, Option, none, some, List, [], ◌∷◌, if◌then◌else◌,
}
use rcs_bulk_messaging_syste.Prelude.Text.{Text, codes, is_in, lower}
use rcs_bulk_messaging_syste.Prelude.Results.{
  Exn, value_error, invalid_state_transition, not_implemented, attribute_error, type_error,
  queue_exception, aggregator_exception, rate_limit_exception, circuit_open, database_error,
  key_error, http_status_error, Result, ok, err,
}
use rcs_bulk_messaging_syste.Message.Types.{
  FailureReason, rcs_not_supported, network_error, aggregator_error, unknown, is_rcs, Message,
}
use rcs_bulk_messaging_syste.Prelude.Time.{now_utc}
use rcs_bulk_messaging_syste.Message.Lifecycle.{
  queue, mark_sent, mark_failed, should_retry, increment_retry,
}
use rcs_bulk_messaging_syste.Message.Fallback.{should_trigger_fallback, create_fallback_message}
use rcs_bulk_messaging_syste.Message.Content.{truthy}
use rcs_bulk_messaging_syste.Store.Rows.{get_by_id}
use rcs_bulk_messaging_syste.Queue.{QueueMessage, map_priority}
use rcs_bulk_messaging_syste.Delivery.World.{
  SendMessageRequest, SendMessageResponse, Env, World, Action, pure, raise, ◌>>=◌, ◌>>◌, attempt_or,
  lift, this_message, call, save_message, save_other, publish, publish_later, recalculate, ask_send,
  transaction,
}

unfoldable pub job_for : Message → QueueMessage
job_for m = record {
  id = m.id;
  queue_name = codes "message.dispatch";
  payload = m.id;
  priority = map_priority m.priority;
  delay = none;
  max_retries = 3;
}

unfoldable pub queue_message_for_delivery : Env → Message → Action (Unit {0})
queue_message_for_delivery env m = publish env (job_for m)

unfoldable pub first_result : List Bool → Bool
first_result [] = false
first_result (b ∷ bs) = b

-- No result counts as not capable.
unfoldable pub check_rcs_capability : Env → Text → Action Bool
unfolding first_result
check_rcs_capability env phone = do
  results ← lift (env.capability phone)
  pure (first_result results)

unfoldable pub send_request : Message → SendMessageRequest
send_request m = record {
  message_id = m.id;
  recipient_phone = m.recipient_phone;
  channel = m.channel;
  content_text = m.content.text;
  rich_card = m.content.rich_card;
  suggestions = m.content.suggestions;
  priority = m.priority;
  template_id = m.content.template_id;
  variables = m.content.variables;
  rcs_type = m.content.rcs_type;
}

-- `response.error_message or "Unknown aggregator error"`
text_or : Option Text → Text → Text
text_or none d = d
text_or (some []) d = d
text_or (some (c ∷ s)) d = c ∷ s

unfoldable pub response_error : SendMessageResponse → Exn
unfolding text_or
response_error r =
    aggregator_exception (text_or r.error_message (codes "Unknown aggregator error")) r.error_code
      r.retry_after

unfoldable pub send_via_aggregator : Env → Action (Unit {0})
send_via_aggregator env = do
  m ← this_message
  response ← ask_send env (send_request m)
  (if response.success
      then (call (mark_sent env.now env.name response.external_id) >> save_message env)
      else raise (response_error response))

unfoldable pub handle_fallback_inline : Env → Action (Unit {0})
handle_fallback_inline env = do
  m ← this_message
  (if not (should_trigger_fallback m) then pure tt else (do
    child ← lift (create_fallback_message env.show env.now env.fresh_id m)
    save_other env child
    queue_message_for_delivery env child))

unfoldable pub requeue_with_delay : Env → ℕ → Action (Unit {0})
requeue_with_delay env delay = do
  m ← this_message
  publish_later env (job_for m) (now_utc (env.now + delay))

-- `getattr(exception, "error_code", "UNKNOWN")`
unfoldable pub error_code_of : Exn → Option Text
error_code_of (aggregator_exception t c r) = c
error_code_of (rate_limit_exception t c r) = c
error_code_of _ = some (codes "UNKNOWN")

reason_of_code : Text → FailureReason
reason_of_code c =
    if is_in (codes "rcs") (lower c)
    then rcs_not_supported
    else if is_in (codes "aggregator") (lower c)
    then aggregator_error
    else network_error

abbrev pub no_lower : Exn
no_lower = attribute_error (codes "'NoneType' object has no attribute 'lower'")

unfoldable pub reason_of : Option Text → Result FailureReason
unfolding reason_of_code
reason_of none = err no_lower
reason_of (some c) = ok (reason_of_code c)

-- The reason is read off the error code of an exception that has the attribute, which may be `None`.
unfoldable pub failure_reason_of : Exn → Result FailureReason
unfolding reason_of
failure_reason_of (aggregator_exception t c r) = reason_of c
failure_reason_of (rate_limit_exception t c r) = reason_of c
failure_reason_of _ = ok network_error

-- `str(exception)`
unfoldable pub exception_text : Exn → Text
exception_text (value_error t) = t
exception_text (invalid_state_transition t) = t
exception_text (not_implemented t) = t
exception_text (attribute_error t) = t
exception_text (type_error t) = t
exception_text (queue_exception t) = t
exception_text (aggregator_exception t c r) = t
exception_text (rate_limit_exception t c r) = t
exception_text (circuit_open t) = t
exception_text (database_error t) = t
exception_text (key_error t) = t
exception_text (http_status_error code t) = t

-- The decision that `_handle_delivery_failure` takes on a message that has failed.
unfoldable pub retry_or_fall_back : Env → Action (Unit {0})
retry_or_fall_back env = do
  m ← this_message
  (if should_retry env.now m
      then (do
        call (λ m. ok (increment_retry env.now m))
        save_message env
        m' ← this_message
        queue_message_for_delivery env m')
      else if should_trigger_fallback m
      then (do save_message env; handle_fallback_inline env; recalculate env m.campaign_id)
      else (do save_message env; recalculate env m.campaign_id))

unfoldable pub handle_delivery_failure : Env → Exn → Action (Unit {0})
handle_delivery_failure env e = do
  reason ← lift (failure_reason_of e)
  call (mark_failed env.now reason (error_code_of e) (some (exception_text e)))
  retry_or_fall_back env

unfoldable pub is_rcs_without_template : Message → Bool
is_rcs_without_template m = is_rcs m.channel && not (truthy m.content.template_id)

-- The branch for a recipient that RCS does not reach.
unfoldable pub not_capable : Env → Action (Unit {0})
not_capable env = do
  call (mark_failed env.now rcs_not_supported none (some (codes "RCS not supported")))
  save_message env
  handle_fallback_inline env
  m ← this_message
  recalculate env m.campaign_id

unfoldable pub queue_and_send : Env → Action (Unit {0})
queue_and_send env = do call (queue env.now); save_message env; send_via_aggregator env

-- The body of the `try`.
unfoldable pub attempt : Env → Action (Unit {0})
attempt env = do
  m ← this_message
  (if is_rcs m.channel
      then (do
        capable ← check_rcs_capability env m.recipient_phone
        (if not capable then not_capable env else queue_and_send env))
      else queue_and_send env)

-- `e.retry_after or 60`
abbrev pub delay_or_minute : Option ℕ → ℕ
delay_or_minute none = 60
delay_or_minute (some zero) = 60
delay_or_minute (some (suc n)) = suc n

-- The `except` clauses.
unfoldable pub on_exception : Env → Exn → Action (Unit {0})
on_exception env (rate_limit_exception t c r) = requeue_with_delay env (delay_or_minute r)
on_exception env e = handle_delivery_failure env e

unfoldable pub deliver : Env → Action (Unit {0})
deliver env = do
  m ← this_message
  (if is_rcs_without_template m
      then (do
        call (
            mark_failed env.now unknown none (some (codes "template_id missing in MessageContent")))
        save_message env)
      else attempt_or (attempt env) (on_exception env))

deliver_loaded : Env → World → Option Message → Result (Unit {0}) × World
deliver_loaded env w none = (ok tt, w)
deliver_loaded env w (some m) = transaction w (deliver env (record { message = m; world = w }))

-- A message that is not found is logged and skipped.
unfoldable pub process_message_delivery : Env → ℕ → World → Result (Unit {0}) × World
unfolding deliver_loaded
process_message_delivery env message_id w = deliver_loaded env w (get_by_id message_id w.messages)
