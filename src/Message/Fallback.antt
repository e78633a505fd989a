-- ===== src/Message/Fallback.antt =====
-- The SMS fallback of `class Message`: a failed RCS message spawns a new one and stays failed.
use rcs_bulk_messaging_syste.Prelude.{
  ℕ, Bool, true, false, ◌&&◌, not, Option, none, some, [], leb, if◌then◌else◌,
}
use rcs_bulk_messaging_syste.Prelude.Dict.{set_item}
use rcs_bulk_messaging_syste.Prelude.Text.{Text, codes}
use rcs_bulk_messaging_syste.Prelude.Results.{Exn, value_error, not_implemented, Result, ok, err}
use rcs_bulk_messaging_syste.Message.Types.{
  failed, sms, FailureReason, rcs_not_supported, network_error, reason_value, status_eq, is_rcs,
  MessageContent, Metadata, Message,
}
use rcs_bulk_messaging_syste.Message.Content.{to_sms_text}
use rcs_bulk_messaging_syste.Message.Lifecycle.{create}

abbrev pub is_reason_rcs : Option FailureReason → Bool
is_reason_rcs (some rcs_not_supported) = true
is_reason_rcs _ = false

abbrev pub is_reason_network : Option FailureReason → Bool
is_reason_network (some network_error) = true
is_reason_network _ = false

unfoldable pub should_trigger_fallback : Message → Bool
unfolding status_eq
should_trigger_fallback m =
    if not (status_eq m.status failed)
    then false
    else if not (is_rcs m.channel)
    then false
    else if not m.fallback_enabled
    then false
    else if is_reason_rcs m.failure_reason
    then true
    else if is_reason_network m.failure_reason && leb m.max_retries m.retry_count
    then true
    else if leb m.max_retries m.retry_count
    then true
    else false

-- The text goes on with the message's fields, as Python prints them.
abbrev pub cannot_fall_back : Exn
cannot_fall_back = value_error (codes "Cannot create fallback message")

-- The content of the child: plain text, no template.
unfoldable pub sms_content : MessageContent → MessageContent
sms_content c = record {
  text = to_sms_text c;
  rich_card = none;
  suggestions = [];
  template_id = none;
  variables = [];
  rcs_type = codes "BASIC";
}

unfoldable pub reason_text : Option FailureReason → Text
reason_text none = codes "unknown"
reason_text (some r) = reason_value r

-- The metadata of the child, on top of the parent's; `shown_id` is `str(self.id)`.
unfoldable pub fallback_metadata : Text → Message → Metadata
fallback_metadata shown_id m = set_item (codes "sms_text") (to_sms_text m.content) (
    set_item (codes "fallback_reason") (reason_text m.failure_reason) (
      set_item (codes "original_channel") (codes "rcs")
        (set_item (codes "fallback_from") shown_id m.metadata)))

-- The child takes the identifier `id`, and `show` prints identifiers.
unfoldable pub fallback_child : (ℕ → Text) → ℕ → ℕ → Message → Message
unfolding create
fallback_child show now id m = record child {
  metadata = fallback_metadata (show m.id) m;
  fallback_triggered = true;
}
  where
    child : Message
    child =
        create now id m.campaign_id m.tenant_id m.recipient_phone (sms_content m.content) m.priority
          sms (some m.id)

unfoldable pub create_fallback_message : (ℕ → Text) → ℕ → ℕ → Message → Result Message
create_fallback_message show now id m =
    if not (should_trigger_fallback m)
    then err cannot_fall_back
    else ok (fallback_child show now id m)

-- `should_fallback_to_sms`, the deprecated name.
unfoldable pub should_fallback_to_sms : Message → Bool
should_fallback_to_sms m = should_trigger_fallback m

-- `trigger_fallback` always raises.
unfoldable pub trigger_fallback : Message → Result Message
trigger_fallback m = err (
    not_implemented (
      codes
        "trigger_fallback() is deprecated and dangerous (causes FAILED → PENDING). Use create_fallback_message() instead."))
