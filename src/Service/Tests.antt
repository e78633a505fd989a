-- ===== src/Service/Tests.antt =====
-- A campaign that was created and activated, with its two events.
use rcs_bulk_messaging_syste.Prelude.{ℕ, true, none, [], ◌∷◌, arith}
use rcs_bulk_messaging_syste.Prelude.Text.{codes}
use rcs_bulk_messaging_syste.Prelude.Time.{Datetime}
use rcs_bulk_messaging_syste.Campaign.Types.{medium, active}
use rcs_bulk_messaging_syste.Store.Campaigns.{CampaignRow}
use rcs_bulk_messaging_syste.Service.Events.{EventRow}
use rcs_bulk_messaging_syste.Service.Calls.{
  State, schedule_campaign, activate_campaign, pause_campaign, resume_campaign, cancel_campaign,
  complete_campaign,
}
use rcs_bulk_messaging_syste.Campaign.Types.{no_data, promotional}
use rcs_bulk_messaging_syste.Delivery.Samples.{taking}
use rcs_bulk_messaging_syste.Service.Laws.{Refuses, third_event-refused}
use rcs_bulk_messaging_syste.Prelude.{ℕ, true, none, [], ◌∷◌, arith}
use rcs_bulk_messaging_syste.Prelude.Text.{codes}

abbrev event : ℕ → EventRow
event v = record {
  event_type = codes "campaign";
  aggregate_id = 7;
  aggregate_type = codes "campaign";
  version = v;
  event_data = no_data;
  created_at = 100;
}

abbrev row : CampaignRow
row = record {
  id = 7;
  tenant_id = 3;
  template_id = 9;
  name = codes "Sale";
  status = active;
  campaign_type = promotional;
  priority = medium;
  scheduled_for = none;
  enable_fallback = true;
  fallback_channel = codes "sms";
  rate_limit = none;
  recipient_count = 2;
  messages_sent = 0;
  messages_delivered = 0;
  messages_failed = 0;
  messages_read = 0;
  fallback_triggered = 0;
  opt_outs = 0;
  metadata = [];
  tags = [];
  created_at = 90;
  updated_at = 90;
}

abbrev state : State
state = record {
  tables = record { campaigns = row ∷ []; events = event 1 ∷ event 2 ∷ [] };
  broker = [];
}

abbrev tomorrow : Datetime
tomorrow = record { is_aware = true; instant = 90000 }

third_event-refused_example :
    Refuses state (schedule_campaign taking 7 tomorrow state)
    × Refuses state (activate_campaign taking 7 state)
    × Refuses state (pause_campaign taking 7 state)
    × Refuses state (resume_campaign taking 7 state)
    × Refuses state (complete_campaign taking 7 state)
    × Refuses state (cancel_campaign taking 7 (codes "stop") state)
third_event-refused_example =
    third_event-refused taking 7 tomorrow (codes "stop") state (omega arith)
