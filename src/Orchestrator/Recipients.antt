-- ===== src/Orchestrator/Recipients.antt =====
-- The recipients of a campaign, streamed in batches, and the messages to them.
use rcs_bulk_messaging_syste.Prelude.{
  ℕ, suc, Option, none, some, List, [], ◌∷◌, ◌++◌, if◌then◌else◌, or_else,
}
use rcs_bulk_messaging_syste.Prelude.Text.{Text, codes, is_empty}
use rcs_bulk_messaging_syste.Message.Types.{rcs, MessageContent, Message}
use rcs_bulk_messaging_syste.Message.Lifecycle.{create}
use rcs_bulk_messaging_syste.Campaign.Types.{priority_value, Campaign}
use rcs_bulk_messaging_syste.Prelude.Dict.{get_item}
use rcs_bulk_messaging_syste.Store.Campaigns.{CampaignRow, find_row, restored_ids}
use rcs_bulk_messaging_syste.Template.Types.{TemplateVariable, Template}
use rcs_bulk_messaging_syste.Template.Placeholders.{placeholder, replace}
use rcs_bulk_messaging_syste.Queue.{QueueMessage, priority_of}
use rcs_bulk_messaging_syste.Contacts.{ContactRow, stream_contacts}

pub record Recipient : Type 0 where
  pub phone : Text
  pub variables : List Text

-- The contacts of a page that have a number.
unfoldable pub batch_of : List ContactRow → List Recipient
batch_of [] = []
batch_of (r ∷ rows) =
    let rest = batch_of rows in
    if is_empty r.phone_number
    then rest
    else record { phone = r.phone_number; variables = or_else r.variables [] } ∷ rest

-- `if batch: yield batch`
unfoldable pub add_batch : List Recipient → List (List Recipient) → List (List Recipient)
add_batch [] batches = batches
add_batch (r ∷ batch) batches = (r ∷ batch) ∷ batches

unfoldable pub batches_of : List (List ContactRow) → List (List Recipient)
batches_of [] = []
batches_of (page ∷ pages) = add_batch (batch_of page) (batches_of pages)

unfoldable pub stream_audiences : List ℕ → List ContactRow → List (List Recipient)
stream_audiences [] contacts = []
stream_audiences (a ∷ ids) contacts =
    batches_of (stream_contacts 1000 a contacts) ++ stream_audiences ids contacts

-- `campaign_model.metadata_.get("audience_ids", [])`
unfoldable pub audience_ids_of : Option CampaignRow → List ℕ
audience_ids_of none = []
audience_ids_of (some r) = restored_ids (get_item (codes "audience_ids") r.metadata)

unfoldable pub stream_campaign_recipients :
    ℕ → List CampaignRow → List ContactRow → List (List Recipient)
stream_campaign_recipients i campaigns contacts =
    stream_audiences (audience_ids_of (find_row i campaigns)) contacts

-- The loop over the variables, as far as there are values.
unfoldable pub fill_in : List TemplateVariable → List Text → Text → Text
fill_in [] values s = s
fill_in (v ∷ vs) [] s = s
fill_in (v ∷ vs) (x ∷ xs) s = fill_in vs xs (replace (placeholder v.name) x s)

unfoldable pub get_template_content : Template → List Text → MessageContent
get_template_content t values = record {
  text = fill_in t.variables values t.content;
  rich_card = none;
  suggestions = [];
  template_id = t.external_template_id;
  variables = values;
  rcs_type = t.rcs_type;
}

-- The messages of `_create_messages`; `draw` gives the identifiers that `uuid4` draws, from the `k`-th on.
unfoldable pub create_messages :
    ℕ → (ℕ → ℕ) → Campaign → Template → ℕ → List Recipient → List Message
create_messages now draw c t k [] = []
create_messages now draw c t k (r ∷ rs) =
    create now (draw k) c.id c.tenant_id r.phone (get_template_content t r.variables)
      (priority_value c.priority) rcs none
    ∷ create_messages now draw c t (suc k) rs

-- The job of `_queue_messages_for_dispatch`.
unfoldable pub dispatch_job : Message → QueueMessage
dispatch_job m = record {
  id = m.id;
  queue_name = codes "message.dispatch";
  payload = m.id;
  priority = priority_of m.priority;
  delay = none;
  max_retries = 3;
}
