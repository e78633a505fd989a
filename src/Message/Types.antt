-- ===== src/Message/Types.antt =====
-- The enumerations and dataclasses of apps/core/domain/message.py. Identifiers (`UUID`) and instants
-- (`datetime`, in seconds) are numbers; values of template variables are their texts; a metadata
-- dictionary is an association list in insertion order.
use rcs_bulk_messaging_syste.Prelude.{ℕ, Bool, true, false, Option, List}
use rcs_bulk_messaging_syste.Prelude.Dict.{Dict}
use rcs_bulk_messaging_syste.Prelude.Text.{Text, codes}

pub data MessageStatus : Type 0 where
  pending queued sent delivered read failed expired : MessageStatus

pub data MessageChannel : Type 0 where
  rcs sms whatsapp : MessageChannel

pub data FailureReason : Type 0 where
  invalid_number rcs_not_supported network_error rate_limited blocked reason_expired
        aggregator_error unknown :
      FailureReason

-- `MessageStatus(...).value`
unfoldable pub status_value : MessageStatus → Text
status_value pending = codes "pending"
status_value queued = codes "queued"
status_value sent = codes "sent"
status_value delivered = codes "delivered"
status_value read = codes "read"
status_value failed = codes "failed"
status_value expired = codes "expired"

unfoldable pub reason_value : FailureReason → Text
reason_value invalid_number = codes "invalid_number"
reason_value rcs_not_supported = codes "rcs_not_supported"
reason_value network_error = codes "network_error"
reason_value rate_limited = codes "rate_limited"
reason_value blocked = codes "blocked"
reason_value reason_expired = codes "expired"
reason_value aggregator_error = codes "aggregator_error"
reason_value unknown = codes "unknown"

-- `==` on the members of an enumeration.
unfoldable pub status_eq : MessageStatus → MessageStatus → Bool
status_eq pending pending = true
status_eq queued queued = true
status_eq sent sent = true
status_eq delivered delivered = true
status_eq read read = true
status_eq failed failed = true
status_eq expired expired = true
status_eq _ _ = false

abbrev pub is_rcs : MessageChannel → Bool
is_rcs rcs = true
is_rcs sms = false
is_rcs whatsapp = false

pub record SuggestedAction : Type 0 where
  pub kind : Text
  pub text : Text
  pub postback_data : Option Text
  pub url : Option Text
  pub phone_number : Option Text

pub record RichCard : Type 0 where
  pub title : Option Text
  pub description : Option Text
  pub media_url : Option Text
  pub media_type : Option Text
  pub media_height : Text
  pub suggestions : List SuggestedAction

pub record MessageContent : Type 0 where
  pub text : Text
  pub rich_card : Option RichCard
  pub suggestions : List SuggestedAction
  pub template_id : Option Text
  pub variables : List Text
  pub rcs_type : Text

pub record DeliveryAttempt : Type 0 where
  pub attempt_number : ℕ
  pub channel : MessageChannel
  pub attempted_at : ℕ
  pub status : MessageStatus
  pub aggregator : Option Text
  pub error_code : Option Text
  pub error_message : Option Text
  pub external_id : Option Text

abbrev pub Metadata : Type 0
Metadata = Dict Text

pub record Message : Type 0 where
  pub id : ℕ
  pub campaign_id : ℕ
  pub tenant_id : ℕ
  pub recipient_phone : Text
  pub content : MessageContent
  pub status : MessageStatus
  pub channel : MessageChannel
  pub priority : Text
  pub parent_message_id : Option ℕ
  pub created_at : ℕ
  pub updated_at : ℕ
  pub queued_at : Option ℕ
  pub sent_at : Option ℕ
  pub delivered_at : Option ℕ
  pub read_at : Option ℕ
  pub failed_at : Option ℕ
  pub aggregator : Option Text
  pub external_id : Option Text
  pub retry_count : ℕ
  pub max_retries : ℕ
  pub expires_at : ℕ
  pub failure_reason : Option FailureReason
  pub error_code : Option Text
  pub error_message : Option Text
  pub metadata : Metadata
  pub delivery_attempts : List DeliveryAttempt
  pub fallback_enabled : Bool
  pub fallback_triggered : Bool
