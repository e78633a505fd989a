-- ===== src/Message/Lifecycle.antt =====
-- The state machine of `class Message`. A method takes the instant at which it reads the clock, and
-- returns the changed message or raises and leaves it alone.
use rcs_bulk_messaging_syste.Prelude.{
  ℕ, ◌+◌, Bool, true, false, ◌||◌, not, Option, none, some, List, [], ◌∷◌, ◌++◌, map, ltb, leb,
  if◌then◌else◌, length, any,
}
use rcs_bulk_messaging_syste.Prelude.Text.{Text, codes, join}
use rcs_bulk_messaging_syste.Prelude.Results.{Exn, value_error, Result, ok, err, ◌>>=◌}
use rcs_bulk_messaging_syste.Phone.{normalize_phone}
use rcs_bulk_messaging_syste.Message.Types.{
  MessageStatus, pending, queued, sent, delivered, read, failed, expired, MessageChannel,
  FailureReason, invalid_number, rcs_not_supported, blocked, status_value, status_eq, is_rcs,
  MessageContent, DeliveryAttempt, Message,
}

-- `Message.__init__` and `Message.create`: the identifier that `uuid4` drew and the instant are
-- arguments.
unfoldable pub create :
    ℕ → ℕ → ℕ → ℕ → Text → MessageContent → Text → MessageChannel → Option ℕ → Message
create now id campaign_id tenant_id recipient_phone content priority channel parent = record {
  id = id;
  campaign_id = campaign_id;
  tenant_id = tenant_id;
  recipient_phone = normalize_phone recipient_phone;
  content = content;
  status = pending;
  channel = channel;
  priority = priority;
  parent_message_id = parent;
  created_at = now;
  updated_at = now;
  queued_at = none;
  sent_at = none;
  delivered_at = none;
  read_at = none;
  failed_at = none;
  aggregator = none;
  external_id = none;
  retry_count = 0;
  max_retries = 3;
  expires_at = now + 86400;
  failure_reason = none;
  error_code = none;
  error_message = none;
  metadata = [];
  delivery_attempts = [];
  fallback_enabled = true;
  fallback_triggered = false;
}

-- `_VALID_TRANSITIONS`
unfoldable pub valid_transitions : MessageStatus → List MessageStatus
valid_transitions pending = queued ∷ failed ∷ expired ∷ []
valid_transitions queued = sent ∷ failed ∷ []
valid_transitions sent = delivered ∷ failed ∷ []
valid_transitions delivered = read ∷ []
valid_transitions read = []
valid_transitions failed = []
valid_transitions expired = []

unfoldable pub can_transition_to : MessageStatus → Message → Bool
unfolding valid_transitions status_eq
can_transition_to new_status m = any (λ s. status_eq s new_status) (valid_transitions m.status)

quoted : MessageStatus → Text
quoted s = codes "'" ++ status_value s ++ codes "'"

-- The text of the `ValueError`.
unfoldable pub invalid_transition : MessageStatus → MessageStatus → Exn
unfolding quoted
invalid_transition old new = value_error (
    codes "Invalid status transition: "
    ++ (status_value old
        ++ (codes " → "
            ++ (status_value new
                ++ (codes ". Allowed transitions from "
                    ++ (status_value old
                        ++ (codes ": ["
                            ++ (join (codes ", ") (map quoted (valid_transitions old))
                                ++ codes "]"))))))))

unfoldable pub transition_to : ℕ → MessageStatus → Message → Result Message
unfolding can_transition_to
transition_to now new_status m =
    if not (can_transition_to new_status m)
    then err (invalid_transition m.status new_status)
    else ok (record m { status = new_status; updated_at = now })

-- `_record_attempt`
unfoldable pub record_attempt :
    ℕ → MessageStatus → Option Text → Option Text → Option Text → Option Text → Message → Message
record_attempt now status aggregator external_id error_code error_message m = record m {
  delivery_attempts = m.delivery_attempts ++ attempt ∷ [];
}
  where
    attempt : DeliveryAttempt
    attempt = record {
      attempt_number = length m.delivery_attempts + 1;
      channel = m.channel;
      attempted_at = now;
      status = status;
      aggregator = aggregator;
      error_code = error_code;
      error_message = error_message;
      external_id = external_id;
    }

unfoldable pub queue : ℕ → Message → Result Message
unfolding transition_to
queue now m = do m' ← transition_to now queued m; ok (record m' { queued_at = some now })

unfoldable pub mark_sent : ℕ → Text → Option Text → Message → Result Message
unfolding transition_to record_attempt
mark_sent now aggregator external_id m = do
  m' ← transition_to now sent m
  ok (
      record_attempt now sent (some aggregator) external_id none none
        (record m' { sent_at = some now; aggregator = some aggregator; external_id = external_id }))

unfoldable pub mark_delivered : ℕ → Message → Result Message
unfolding transition_to
mark_delivered now m = do
  m' ← transition_to now delivered m
  ok (record m' { delivered_at = some now })

-- Read receipts exist for RCS alone: the call does nothing on another channel.
unfoldable pub mark_read : ℕ → Message → Result Message
unfolding transition_to
mark_read now m =
    if not (is_rcs m.channel)
    then ok m
    else (do m' ← transition_to now read m; ok (record m' { read_at = some now }))

unfoldable pub mark_failed :
    ℕ → FailureReason → Option Text → Option Text → Message → Result Message
unfolding transition_to record_attempt
mark_failed now reason error_code error_message m = do
  m' ← transition_to now failed m
  ok (
      record_attempt now failed m.aggregator none error_code error_message (record m' {
        failed_at = some now;
        failure_reason = some reason;
        error_code = error_code;
        error_message = error_message;
      }))

unfoldable pub is_delivered : Message → Bool
unfolding status_eq
is_delivered m = status_eq m.status delivered || status_eq m.status read

unfoldable pub is_terminal : Message → Bool
unfolding status_eq
is_terminal m = status_eq m.status failed || (status_eq m.status expired || status_eq m.status read)

unfoldable pub mark_expired : ℕ → Message → Message
unfolding is_terminal
mark_expired now m =
    if not (is_terminal m) then record m { status = expired; updated_at = now } else m

unfoldable pub is_expired : ℕ → Message → Bool
is_expired now m = ltb m.expires_at now

unfoldable pub is_permanent : Option FailureReason → Bool
is_permanent (some invalid_number) = true
is_permanent (some blocked) = true
is_permanent (some rcs_not_supported) = true
is_permanent _ = false

unfoldable pub should_retry : ℕ → Message → Bool
unfolding status_eq is_expired is_permanent
should_retry now m =
    if not (status_eq m.status failed)
    then false
    else if leb m.max_retries m.retry_count
    then false
    else if is_expired now m
    then false
    else if is_permanent m.failure_reason
    then false
    else true

unfoldable pub increment_retry : ℕ → Message → Message
increment_retry now m = record m {
  retry_count = m.retry_count + 1;
  status = pending;
  updated_at = now;
}
