-- ===== src/Store/Tests.antt =====
-- Two messages of a campaign in the tables.
use rcs_bulk_messaging_syste.Prelude.{
  ◌<◌, ◌≡◌, refl, ◌↔◌, ◌⊎◌, true, none, some, List, [], ◌∷◌, ◌==◌, if◌then◌else◌,
}
use rcs_bulk_messaging_syste.Prelude.Text.{codes, starts_with}
use rcs_bulk_messaging_syste.Prelude.Results.{Result, ok, err}
use rcs_bulk_messaging_syste.Message.Types.{rcs, MessageContent, Message}
use rcs_bulk_messaging_syste.Message.Lifecycle.{create, queue}
use rcs_bulk_messaging_syste.Message.Steps.{queues, here, next}
use rcs_bulk_messaging_syste.Campaign.Types.{active, completed, promotional, medium}
use rcs_bulk_messaging_syste.Phone.{normalize_phone}
use rcs_bulk_messaging_syste.Store.Rows.{MessageRow, to_model, to_domain, save, get_by_id}
use rcs_bulk_messaging_syste.Store.RowLaws.{stored, get_by_id-save}
use rcs_bulk_messaging_syste.Store.Campaigns.{CampaignRow, recalculate_row}
use rcs_bulk_messaging_syste.Store.Completion.{AllSettled, recalculate_row-completes}

abbrev text_content : MessageContent
text_content = record {
  text = codes "Hello";
  rich_card = none;
  suggestions = [];
  template_id = some (codes "T1");
  variables = [];
  rcs_type = codes "BASIC";
}

abbrev first_message : Message
unfolding create
first_message = create 100 1 7 3 (codes "+919876543210") text_content (codes "medium") rcs none

abbrev second_message : Message
unfolding create
second_message = create 100 2 7 3 (codes "+919876543211") text_content (codes "medium") rcs none

abbrev two_rows : List MessageRow
two_rows = to_model first_message ∷ to_model second_message ∷ []

abbrev or_same : Result Message → Message → Message
or_same (ok m) d = m
or_same (err e) d = d

abbrev queued_message : Message
unfolding queue
queued_message = or_same (queue 110 (stored first_message)) first_message

get_by_id-save_example : get_by_id 2 (save 120 queued_message two_rows) ≡ (
    if 1 == 2
    then some (record (stored queued_message) { updated_at = 120 })
    else get_by_id 2 two_rows)
unfolding create queue starts_with normalize_phone to_model to_domain get_by_id
get_by_id-save_example =
    get_by_id-save 120 1 2 two_rows {m = stored first_message} refl (next here (queues 110 refl))

abbrev sale_row : CampaignRow
sale_row = record {
  id = 7;
  tenant_id = 3;
  template_id = 9;
  name = codes "Sale";
  status = active;
  campaign_type = promotional;
  priority = medium;
  scheduled_for = none;
  enable_fallback = true;
  fallback_channel = codes "sms";
  rate_limit = none;
  recipient_count = 2;
  messages_sent = 0;
  messages_delivered = 0;
  messages_failed = 0;
  messages_read = 0;
  fallback_triggered = 0;
  opt_outs = 0;
  metadata = [];
  tags = [];
  created_at = 90;
  updated_at = 90;
}

recalculate_row-completes_example : ((recalculate_row 130 two_rows sale_row).status ≡ completed) ↔ (
    (sale_row.status ≡ completed)
    ⊎ ((sale_row.status ≡ active) × (0 < sale_row.recipient_count) × AllSettled 7 two_rows))
recalculate_row-completes_example = recalculate_row-completes 130 two_rows sale_row
