-- ===== src/Campaign/Types.antt =====
-- The enumerations and dataclasses of apps/core/domain/campaign.py.
use rcs_bulk_messaging_syste.Prelude.{ℕ, ◌*◌, Bool, true, false, Option, List, ◌==◌, if◌then◌else◌}
use rcs_bulk_messaging_syste.Prelude.Text.{Text, codes}
use rcs_bulk_messaging_syste.Prelude.Dict.{Dict}
use rcs_bulk_messaging_syste.Prelude.Time.{Datetime}

pub data CampaignStatus : Type 0 where
  draft scheduled active paused completed cancelled campaign_failed : CampaignStatus

pub data CampaignType : Type 0 where
  promotional transactional reminder notification : CampaignType

pub data Priority : Type 0 where
  low medium high urgent : Priority

unfoldable pub campaign_status_eq : CampaignStatus → CampaignStatus → Bool
campaign_status_eq draft draft = true
campaign_status_eq scheduled scheduled = true
campaign_status_eq active active = true
campaign_status_eq paused paused = true
campaign_status_eq completed completed = true
campaign_status_eq cancelled cancelled = true
campaign_status_eq campaign_failed campaign_failed = true
campaign_status_eq _ _ = false

-- The member of the enumeration, as Python's `str` names it.
unfoldable pub campaign_status_value : CampaignStatus → Text
campaign_status_value draft = codes "CampaignStatus.DRAFT"
campaign_status_value scheduled = codes "CampaignStatus.SCHEDULED"
campaign_status_value active = codes "CampaignStatus.ACTIVE"
campaign_status_value paused = codes "CampaignStatus.PAUSED"
campaign_status_value completed = codes "CampaignStatus.COMPLETED"
campaign_status_value cancelled = codes "CampaignStatus.CANCELLED"
campaign_status_value campaign_failed = codes "CampaignStatus.FAILED"

unfoldable pub type_value : CampaignType → Text
type_value promotional = codes "promotional"
type_value transactional = codes "transactional"
type_value reminder = codes "reminder"
type_value notification = codes "notification"

unfoldable pub priority_value : Priority → Text
priority_value low = codes "low"
priority_value medium = codes "medium"
priority_value high = codes "high"
priority_value urgent = codes "urgent"

pub record CampaignStats : Type 0 where
  pub total_recipients : ℕ
  pub messages_sent : ℕ
  pub messages_delivered : ℕ
  pub messages_failed : ℕ
  pub messages_read : ℕ
  pub fallback_triggered : ℕ
  pub opt_outs : ℕ

abbrev pub no_stats : CampaignStats
no_stats = record {
  total_recipients = 0;
  messages_sent = 0;
  messages_delivered = 0;
  messages_failed = 0;
  messages_read = 0;
  fallback_triggered = 0;
  opt_outs = 0;
}

-- A percentage before it is rounded to a float: numerator and denominator.
abbrev pub Rate : Type 0
Rate = ℕ × ℕ

unfoldable pub delivery_rate : CampaignStats → Rate
delivery_rate s =
    if s.total_recipients == 0 then (0, 1) else (s.messages_delivered * 100, s.total_recipients)

unfoldable pub read_rate : CampaignStats → Rate
read_rate s =
    if s.messages_delivered == 0 then (0, 1) else (s.messages_read * 100, s.messages_delivered)

-- What an event carries.
pub data EventData : Type 0 where
  created_data : ℕ → Text → CampaignType → EventData
  scheduled_data : Datetime → EventData
  activated_data : ℕ → EventData
  no_data : EventData
  completed_data : ℕ → ℕ → ℕ → Rate → EventData
  cancelled_data : Text → EventData

-- Without the `event_id`, which nothing reads.
pub record DomainEvent : Type 0 where
  pub event_type : Text
  pub occurred_at : ℕ
  pub aggregate_id : ℕ
  pub event_data : EventData

-- The values that the code keeps in a campaign's metadata.
pub data MetaValue : Type 0 where
  text_value : Text → MetaValue
  ids_value : List ℕ → MetaValue

pub record Campaign : Type 0 where
  pub id : ℕ
  pub tenant_id : ℕ
  pub name : Text
  pub campaign_type : CampaignType
  pub template_id : ℕ
  pub status : CampaignStatus
  pub priority : Priority
  pub scheduled_for : Option Datetime
  pub created_at : ℕ
  pub updated_at : ℕ
  pub audience_ids : List ℕ
  pub recipient_count : ℕ
  pub enable_fallback : Bool
  pub fallback_channel : Text
  pub rate_limit : Option ℕ
  pub stats : CampaignStats
  pub metadata : Dict MetaValue
  pub tags : List Text
  pub events : List DomainEvent
