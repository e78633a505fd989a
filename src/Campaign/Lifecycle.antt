-- ===== src/Campaign/Lifecycle.antt =====
-- The methods of `class Campaign`. A method takes the instant at which it reads the clock.
use rcs_bulk_messaging_syste.Prelude.{
  ℕ, ◌+◌, Bool, true, false, ◌&&◌, ◌||◌, not, none, some, List, [], ◌∷◌, ◌++◌, ltb, ◌==◌,
  if◌then◌else◌, any,
}
use rcs_bulk_messaging_syste.Prelude.Text.{is_empty, Text, codes, strip}
use rcs_bulk_messaging_syste.Prelude.Results.{
  Exn, value_error, invalid_state_transition, Result, ok, err, ◌>>=◌, ◌>>◌, raise_if,
}
use rcs_bulk_messaging_syste.Prelude.Dict.{set_item}
use rcs_bulk_messaging_syste.Prelude.Time.{Datetime, now_utc, datetime_le}
use rcs_bulk_messaging_syste.Campaign.Types.{
  CampaignStatus, draft, scheduled, active, paused, completed, cancelled, CampaignType, Priority,
  CampaignStats, no_stats, delivery_rate, EventData, created_data, scheduled_data, activated_data,
  no_data, completed_data, cancelled_data, DomainEvent, text_value, ids_value, Campaign,
  campaign_status_eq, campaign_status_value,
}

-- `_add_event`
unfoldable pub add_event : ℕ → Text → EventData → Campaign → Campaign
add_event now event_type event_data c = record c { events = c.events ++ event ∷ [] }
  where
    event : DomainEvent
    event = record {
      event_type = event_type;
      occurred_at = now;
      aggregate_id = c.id;
      event_data = event_data;
    }

-- `Campaign.__init__` with what `create` passes: the identifier that `uuid4` drew is an argument.
unfoldable pub create : ℕ → ℕ → Text → ℕ → ℕ → CampaignType → Priority → Result Campaign
unfolding add_event
create now id name tenant_id template_id campaign_type priority =
    if is_empty (strip name)
    then err (value_error (codes "Campaign name cannot be empty"))
    else ok (
        add_event now (codes "campaign.created") (created_data id (strip name) campaign_type)
          campaign)
  where
    campaign : Campaign
    campaign = record {
      id = id;
      tenant_id = tenant_id;
      name = strip name;
      campaign_type = campaign_type;
      template_id = template_id;
      status = draft;
      priority = priority;
      scheduled_for = none;
      created_at = now;
      updated_at = now;
      audience_ids = [];
      recipient_count = 0;
      enable_fallback = true;
      fallback_channel = codes "sms";
      rate_limit = none;
      stats = no_stats;
      metadata = [];
      tags = [];
      events = [];
    }

abbrev pub wrong_status : Text → CampaignStatus → Exn
wrong_status what s = invalid_state_transition (what ++ campaign_status_value s)

-- `_ensure_status`; the text goes on with the status that was expected.
unfoldable pub ensure_status : CampaignStatus → Campaign → Result (Unit {0})
unfolding campaign_status_eq
ensure_status expected c =
    raise_if (not (campaign_status_eq c.status expected))
      (wrong_status (codes "Expected status, got ") c.status)

unfoldable pub schedule : ℕ → Datetime → Campaign → Result Campaign
unfolding ensure_status datetime_le add_event
schedule now scheduled_for c = do
  ensure_status draft c
  late ← datetime_le scheduled_for (now_utc now)
  raise_if late (value_error (codes "Scheduled time must be in the future"))
  ok (
      add_event now (codes "campaign.scheduled") (scheduled_data scheduled_for)
        (record c { scheduled_for = some scheduled_for; status = scheduled; updated_at = now }))

unfoldable pub activate : ℕ → Campaign → Result Campaign
unfolding campaign_status_eq add_event
activate now c = do
  raise_if (not (campaign_status_eq c.status draft || campaign_status_eq c.status scheduled))
      (wrong_status (codes "Cannot activate campaign in status ") c.status)
  raise_if (c.recipient_count == 0)
      (value_error (codes "Campaign must have at least one recipient"))
  ok (
      add_event now (codes "campaign.activated") (activated_data c.recipient_count)
        (record c { status = active; updated_at = now }))

unfoldable pub pause : ℕ → Campaign → Result Campaign
unfolding ensure_status add_event
pause now c = do
  ensure_status active c
  ok (
      add_event now (codes "campaign.paused") no_data
        (record c { status = paused; updated_at = now }))

unfoldable pub resume : ℕ → Campaign → Result Campaign
unfolding ensure_status add_event
resume now c = do
  ensure_status paused c
  ok (
      add_event now (codes "campaign.resumed") no_data
        (record c { status = active; updated_at = now }))

-- The data of `campaign.completed`.
unfoldable pub completion : CampaignStats → EventData
unfolding delivery_rate
completion s =
    completed_data s.messages_sent s.messages_delivered s.messages_failed (delivery_rate s)

unfoldable pub complete : ℕ → Campaign → Result Campaign
unfolding campaign_status_eq add_event completion
complete now c = do
  raise_if (not (campaign_status_eq c.status active || campaign_status_eq c.status paused))
      (wrong_status (codes "Cannot complete campaign in status ") c.status)
  ok (
      add_event now (codes "campaign.completed") (completion c.stats)
        (record c { status = completed; updated_at = now }))

unfoldable pub cancel : ℕ → Text → Campaign → Result Campaign
unfolding campaign_status_eq add_event
cancel now reason c = do
  raise_if (campaign_status_eq c.status completed || campaign_status_eq c.status cancelled)
      (wrong_status (codes "Cannot cancel campaign in status ") c.status)
  ok (
      add_event now (codes "campaign.cancelled") (cancelled_data reason) (record c {
        status = cancelled;
        updated_at = now;
        metadata = set_item (codes "cancellation_reason") (text_value reason) c.metadata;
      }))

-- `audience_id in self.audience_ids`
abbrev pub mem_id : ℕ → List ℕ → Bool
mem_id i = any (λ j. i == j)

unfoldable pub add_audience : ℕ → ℕ → ℕ → Campaign → Result Campaign
unfolding campaign_status_eq
add_audience now audience_id recipient_count c = do
  raise_if (not (campaign_status_eq c.status draft))
      (invalid_state_transition (codes "Cannot modify audience of active campaign"))
  ok (if not (mem_id audience_id c.audience_ids) then added else c)
  where
    ids : List ℕ
    ids = c.audience_ids ++ audience_id ∷ []

    total : ℕ
    total = c.recipient_count + recipient_count

    stats : CampaignStats
    stats = record (c.stats) { total_recipients = total }

    added : Campaign
    added = record c {
      audience_ids = ids;
      recipient_count = total;
      stats = stats;
      updated_at = now;
      metadata = set_item (codes "audience_ids") (ids_value ids) c.metadata;
    }

-- The dictionary that the repository passes.
pub record StatsData : Type 0 where
  pub messages_sent : ℕ
  pub messages_delivered : ℕ
  pub messages_failed : ℕ
  pub messages_read : ℕ
  pub fallback_triggered : ℕ
  pub has_pending : Bool

unfoldable pub update_stats_from_db : ℕ → StatsData → Campaign → Campaign × Bool
unfolding campaign_status_eq add_event completion
update_stats_from_db now d c =
    if campaign_status_eq c.status active && (not d.has_pending && ltb 0 c.recipient_count)
    then (
      add_event now (codes "campaign.completed") (completion stats)
          (record updated { status = completed }),
      true,
    )
    else (updated, false)
  where
    stats : CampaignStats
    stats = record (c.stats) {
      messages_sent = d.messages_sent;
      messages_delivered = d.messages_delivered;
      messages_failed = d.messages_failed;
      messages_read = d.messages_read;
      fallback_triggered = d.fallback_triggered;
    }

    updated : Campaign
    updated = record c { stats = stats; updated_at = now }

unfoldable pub is_active : Campaign → Bool
unfolding campaign_status_eq
is_active c = campaign_status_eq c.status active

unfoldable pub is_completed : Campaign → Bool
unfolding campaign_status_eq
is_completed c = campaign_status_eq c.status completed

unfoldable pub can_be_modified : Campaign → Bool
unfolding campaign_status_eq
can_be_modified c = campaign_status_eq c.status draft || campaign_status_eq c.status scheduled

-- `collect_events`: the pending events, and the campaign without them.
unfoldable pub collect_events : Campaign → List DomainEvent × Campaign
collect_events c = (c.events, record c { events = [] })
