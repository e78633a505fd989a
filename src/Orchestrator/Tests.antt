-- ===== src/Orchestrator/Tests.antt =====
-- A campaign with one audience of two contacts.
use rcs_bulk_messaging_syste.Prelude.{
  ℕ, ◌+◌, ◌≡◌, refl, true, none, some, List, [], ◌∷◌, ◌++◌, map, arith,
}
use rcs_bulk_messaging_syste.Prelude.Text.{codes, text_eq, starts_with}
use rcs_bulk_messaging_syste.Prelude.Results.{ok, is_ok}
use rcs_bulk_messaging_syste.Prelude.Time.{Datetime}
use rcs_bulk_messaging_syste.Prelude.Dict.{get_item}
use rcs_bulk_messaging_syste.Phone.{normalize_phone}
use rcs_bulk_messaging_syste.Campaign.Types.{
  scheduled, active, draft, ids_value, promotional, medium,
}
use rcs_bulk_messaging_syste.Store.Campaigns.{CampaignRow, restored_ids, find_row, to_domain}
use rcs_bulk_messaging_syste.Template.Types.{Template, approved, is_status}
use rcs_bulk_messaging_syste.Template.Store.{TemplateRow}
use rcs_bulk_messaging_syste.Template.Store
use rcs_bulk_messaging_syste.Contacts.{ContactRow, sort}
use rcs_bulk_messaging_syste.Contacts.Streaming.{HasKey}
use rcs_bulk_messaging_syste.Orchestrator.Recipients.{Recipient, batch_of}
use rcs_bulk_messaging_syste.Orchestrator.Job.{Site, process_campaign_job}
use rcs_bulk_messaging_syste.Orchestrator.Batches.{recipients_of}
use rcs_bulk_messaging_syste.Orchestrator.Campaign.{
  finished, recipients_of_row, made, process_campaign_job-dispatches,
}
use rcs_bulk_messaging_syste.Service.Calls.{State, campaign_job, activate_campaign}
use rcs_bulk_messaging_syste.Contacts.{insert}
use rcs_bulk_messaging_syste.Delivery.Samples.{taking}
use rcs_bulk_messaging_syste.Orchestrator.Repeated.{left_row, again, process_campaign_job-repeated}
use rcs_bulk_messaging_syste.Template.Lifecycle.{
  new, validate_template, undeclared, extract_variables,
}
use rcs_bulk_messaging_syste.Template.Placeholders.{as_set, find_from, placeholder_at}
use rcs_bulk_messaging_syste.Orchestrator.Activated.{
  handed_over, activated_row, made_for, activate_campaign-dispatches,
}

abbrev contacts : List ContactRow
contacts =
    record {
      id = 5;
      audience_id = 1;
      phone_number = codes "98765 43210";
      variables = some (codes "Alice" ∷ []);
    }
    ∷ record { id = 2; audience_id = 1; phone_number = codes "+919876543211"; variables = none }
    ∷ []

abbrev template_row : TemplateRow
template_row = record {
  id = 9;
  tenant_id = 3;
  name = codes "Order";
  status = approved;
  content = codes "Thanks!";
  external_template_id = some (codes "T1");
  rcs_type = codes "BASIC";
  variables = [];
  rich_card_template = none;
  suggestions_template = [];
  description = none;
  category = none;
  language = codes "en";
  usage_count = 0;
  last_used_at = none;
  created_at = 10;
  updated_at = 10;
}

abbrev campaign_row : CampaignRow
campaign_row = record {
  id = 7;
  tenant_id = 3;
  template_id = 9;
  name = codes "Sale";
  status = active;
  campaign_type = promotional;
  priority = medium;
  scheduled_for = none;
  enable_fallback = true;
  fallback_channel = codes "sms";
  rate_limit = none;
  recipient_count = 2;
  messages_sent = 0;
  messages_delivered = 0;
  messages_failed = 0;
  messages_read = 0;
  fallback_triggered = 0;
  opt_outs = 0;
  metadata = (codes "audience_ids", ids_value (1 ∷ [])) ∷ [];
  tags = [];
  created_at = 90;
  updated_at = 90;
}

abbrev site : Site
site = record {
  messages = [];
  campaigns = campaign_row ∷ [];
  templates = template_row ∷ [];
  contacts = contacts;
  broker = [];
}

abbrev template : Template
template = record {
  id = 9;
  tenant_id = 3;
  name = codes "Order";
  content = codes "Thanks!";
  status = approved;
  variables = [];
  rich_card_template = none;
  suggestions_template = [];
  created_at = 10;
  updated_at = 10;
  external_template_id = some (codes "T1");
  rcs_type = codes "BASIC";
  description = none;
  category = none;
  language = codes "en";
  usage_count = 0;
  last_used_at = none;
}

abbrev draw : ℕ → ℕ
draw k = k + 100

abbrev draw' : ℕ → ℕ
draw' k = k + 200

contacts-HasKey : HasKey contacts
unfolding HasKey
contacts-HasKey = (refl, (refl, tt))

found : find_row 7 site.campaigns ≡ some campaign_row
unfolding find_row
found = refl

loaded : Store.get_by_id 9 site.templates ≡ ok (some template)
unfolding Store.get_by_id Store.find_row Store.to_domain new validate_template undeclared
    extract_variables as_set find_from placeholder_at starts_with
loaded = refl

is_approved : is_status approved template ≡ true
unfolding text_eq
is_approved = refl

abbrev first_recipient : Recipient
first_recipient = record { phone = codes "+919876543211"; variables = [] }

abbrev second_recipient : Recipient
second_recipient = record { phone = codes "98765 43210"; variables = codes "Alice" ∷ [] }

reached : recipients_of_row campaign_row site.contacts ≡ first_recipient ∷ second_recipient ∷ []
unfolding recipients_of_row recipients_of restored_ids get_item text_eq batch_of sort insert
reached = refl

process_campaign_job-dispatches_example :
    (process_campaign_job taking draw 7 site ≡ (
      ok tt,
      finished taking (to_domain campaign_row) (made taking draw 7 site campaign_row template) site,
    ))
    × (map (λ m. m.recipient_phone) (made taking draw 7 site campaign_row template)
        ≡ map (λ q. normalize_phone q.phone) (recipients_of_row campaign_row site.contacts))
process_campaign_job-dispatches_example =
    process_campaign_job-dispatches taking draw 7 site campaign_row template first_recipient
      (second_recipient ∷ []) (λ q. refl) contacts-HasKey found refl refl loaded is_approved refl
      reached

abbrev once : Site
once = (process_campaign_job taking draw 7 site).1

process_campaign_job-repeated_example :
    (process_campaign_job taking draw' 7 once ≡ (
      ok tt,
      finished taking
          (to_domain (left_row taking draw draw' 7 site campaign_row template))
          (again taking draw draw' 7 site campaign_row template)
          once,
    ))
    × (map (λ m. m.recipient_phone) (again taking draw draw' 7 site campaign_row template)
        ≡ map (λ q. normalize_phone q.phone) (recipients_of_row campaign_row site.contacts))
process_campaign_job-repeated_example =
    process_campaign_job-repeated taking draw draw' 7 site campaign_row template first_recipient
      (second_recipient ∷ []) (λ q. refl) contacts-HasKey found refl refl loaded is_approved refl
      reached

-- The same campaign, scheduled.
abbrev later : Datetime
later = record { is_aware = true; instant = 105 }

abbrev scheduled_row : CampaignRow
scheduled_row = record campaign_row { status = scheduled; scheduled_for = some later }

abbrev scheduled_site : Site
scheduled_site = record site { campaigns = scheduled_row ∷ [] }

scheduled_found : find_row 7 scheduled_site.campaigns ≡ some scheduled_row
unfolding find_row
scheduled_found = refl

-- The same campaign, before its activation.
abbrev draft_row : CampaignRow
draft_row = record campaign_row { status = draft }

abbrev drafted : State
drafted = record { tables = record { campaigns = draft_row ∷ []; events = [] }; broker = [] }

draft_found : find_row 7 drafted.tables.campaigns ≡ some draft_row
unfolding find_row
draft_found = refl

draft_reached : recipients_of_row draft_row site.contacts ≡ first_recipient ∷ second_recipient ∷ []
unfolding recipients_of_row recipients_of restored_ids get_item text_eq batch_of sort insert
draft_reached = refl

activate_campaign-dispatches_example :
    (is_ok (activate_campaign taking 7 drafted).0 ≡ true)
    × ((activate_campaign taking 7 drafted).1.broker
        ≡ [] ++ (campaign_job 7 (to_domain draft_row) ∷ []))
    × (process_campaign_job taking draw 7
          (handed_over taking draw 7 drafted site draft_row template)
        ≡ (
          ok tt,
          finished taking
              (to_domain (activated_row taking draw 7 drafted site draft_row template))
              (made_for taking draw 7 drafted site draft_row template)
              (handed_over taking draw 7 drafted site draft_row template),
        ))
    × (map (λ m. m.recipient_phone) (made_for taking draw 7 drafted site draft_row template)
        ≡ map (λ q. normalize_phone q.phone) (recipients_of_row draft_row site.contacts))
activate_campaign-dispatches_example =
    activate_campaign-dispatches taking draw 7 drafted site draft_row template first_recipient
      (second_recipient ∷ []) (λ q. refl) contacts-HasKey draft_found refl refl refl (omega arith)
      loaded is_approved refl draft_reached
