-- ===== src/Store/Rows.antt =====
-- The message table of apps/adapters/db/models.py and the repository over it
-- (apps/adapters/db/repositories/message_repo.py). A row holds the members of the enumerations, whose
-- stored values are distinct, and the content blob as a record of the keys that the code writes.
use rcs_bulk_messaging_syste.Prelude.{
  ℕ, Bool, false, not, Option, none, some, List, [], ◌∷◌, ◌++◌, map, ◌==◌, if◌then◌else◌, is_some,
  filter,
}
use rcs_bulk_messaging_syste.Prelude.Text.{Text, codes, text_eq}
use rcs_bulk_messaging_syste.Prelude.Results.{database_error, Result, ok, err}
use rcs_bulk_messaging_syste.Message.Types.{
  MessageStatus, MessageChannel, FailureReason, SuggestedAction, RichCard, MessageContent, Metadata,
  Message,
}
use rcs_bulk_messaging_syste.Phone.{normalize_phone}

pub record CardRow : Type 0 where
  pub title : Option Text
  pub description : Option Text
  pub media_url : Option Text
  pub media_type : Option Text
  pub media_height : Text

pub record ContentRow : Type 0 where
  pub text : Text
  pub template_id : Option Text
  pub variables : List Text
  pub rcs_type : Text
  pub rich_card : Option CardRow
  pub suggestions : List SuggestedAction

-- The constraints of the table are left out, that a number has 20 characters at most, and that the campaign is there:
-- every row is taken. An update writes neither column.
pub record MessageRow : Type 0 where
  pub id : ℕ
  pub campaign_id : ℕ
  pub tenant_id : ℕ
  pub parent_message_id : Option ℕ
  pub recipient_phone : Text
  pub status : MessageStatus
  pub channel : MessageChannel
  pub priority : Text
  pub content : ContentRow
  pub queued_at : Option ℕ
  pub sent_at : Option ℕ
  pub delivered_at : Option ℕ
  pub read_at : Option ℕ
  pub failed_at : Option ℕ
  pub expires_at : ℕ
  pub retry_count : ℕ
  pub max_retries : ℕ
  pub fallback_enabled : Bool
  pub fallback_triggered : Bool
  pub aggregator : Option Text
  pub external_id : Option Text
  pub failure_reason : Option FailureReason
  pub metadata : Metadata
  pub created_at : ℕ
  pub updated_at : ℕ

unfoldable pub to_card_row : RichCard → CardRow
to_card_row c = record {
  title = c.title;
  description = c.description;
  media_url = c.media_url;
  media_type = c.media_type;
  media_height = c.media_height;
}

unfoldable pub of_card_row : CardRow → RichCard
of_card_row c = record {
  title = c.title;
  description = c.description;
  media_url = c.media_url;
  media_type = c.media_type;
  media_height = c.media_height;
  suggestions = [];
}

abbrev pub map_option {ℓ κ} : {A : Type ℓ} {B : Type κ} → (A → B) → Option A → Option B
map_option f none = none
map_option f (some a) = some (f a)

unfoldable pub to_content_row : MessageContent → ContentRow
unfolding to_card_row
to_content_row c = record {
  text = c.text;
  template_id = c.template_id;
  variables = c.variables;
  rcs_type = c.rcs_type;
  rich_card = map_option to_card_row c.rich_card;
  suggestions = c.suggestions;
}

unfoldable pub of_content_row : ContentRow → MessageContent
unfolding of_card_row
of_content_row c = record {
  text = c.text;
  rich_card = map_option of_card_row c.rich_card;
  suggestions = c.suggestions;
  template_id = c.template_id;
  variables = c.variables;
  rcs_type = c.rcs_type;
}

-- `_to_model`
unfoldable pub to_model : Message → MessageRow
unfolding to_content_row
to_model m = record {
  id = m.id;
  campaign_id = m.campaign_id;
  tenant_id = m.tenant_id;
  parent_message_id = m.parent_message_id;
  recipient_phone = m.recipient_phone;
  status = m.status;
  channel = m.channel;
  priority = m.priority;
  content = to_content_row m.content;
  queued_at = m.queued_at;
  sent_at = m.sent_at;
  delivered_at = m.delivered_at;
  read_at = m.read_at;
  failed_at = m.failed_at;
  expires_at = m.expires_at;
  retry_count = m.retry_count;
  max_retries = m.max_retries;
  fallback_enabled = m.fallback_enabled;
  fallback_triggered = m.fallback_triggered;
  aggregator = m.aggregator;
  external_id = m.external_id;
  failure_reason = m.failure_reason;
  metadata = m.metadata;
  created_at = m.created_at;
  updated_at = m.updated_at;
}

-- `_to_domain`: what has no column comes back as the constructor leaves it.
unfoldable pub to_domain : MessageRow → Message
unfolding of_content_row
to_domain r = record {
  id = r.id;
  campaign_id = r.campaign_id;
  tenant_id = r.tenant_id;
  recipient_phone = normalize_phone r.recipient_phone;
  content = of_content_row r.content;
  status = r.status;
  channel = r.channel;
  priority = r.priority;
  parent_message_id = r.parent_message_id;
  created_at = r.created_at;
  updated_at = r.updated_at;
  queued_at = r.queued_at;
  sent_at = r.sent_at;
  delivered_at = r.delivered_at;
  read_at = r.read_at;
  failed_at = r.failed_at;
  aggregator = r.aggregator;
  external_id = r.external_id;
  retry_count = r.retry_count;
  max_retries = r.max_retries;
  expires_at = r.expires_at;
  failure_reason = r.failure_reason;
  error_code = none;
  error_message = none;
  metadata = r.metadata;
  delivery_attempts = [];
  fallback_enabled = r.fallback_enabled;
  fallback_triggered = r.fallback_triggered;
}

-- `_update_from_domain`: the columns that an update writes.
unfoldable pub update_row : ℕ → MessageRow → Message → MessageRow
update_row now r m = record r {
  status = m.status;
  channel = m.channel;
  parent_message_id = m.parent_message_id;
  queued_at = m.queued_at;
  sent_at = m.sent_at;
  delivered_at = m.delivered_at;
  read_at = m.read_at;
  failed_at = m.failed_at;
  retry_count = m.retry_count;
  fallback_triggered = m.fallback_triggered;
  aggregator = m.aggregator;
  external_id = m.external_id;
  failure_reason = m.failure_reason;
  metadata = m.metadata;
  updated_at = now;
  content = blob;
}
  where
    blob : ContentRow
    blob = record (r.content) {
      template_id = m.content.template_id;
      variables = m.content.variables;
      rcs_type = m.content.rcs_type;
    }

-- `scalar_one_or_none` of a `select` by primary key.
unfoldable pub find_row : ℕ → List MessageRow → Option MessageRow
find_row i [] = none
find_row i (r ∷ rows) = if r.id == i then some r else find_row i rows

unfoldable pub get_by_id : ℕ → List MessageRow → Option Message
unfolding find_row
get_by_id i rows = map_option to_domain (find_row i rows)

abbrev pub is_external : Text → Option Text → Bool
is_external x none = false
is_external x (some y) = text_eq y x

-- `scalar_one_or_none` refuses several rows.
unfoldable pub one_or_none : List MessageRow → Result (Option Message)
unfolding to_domain
one_or_none [] = ok none
one_or_none (r ∷ []) = ok (some (to_domain r))
one_or_none (r ∷ (s ∷ rows)) =
    err (database_error (codes "Multiple rows were found when one or none was required"))

unfoldable pub get_by_external_id : Text → List MessageRow → Result (Option Message)
unfolding one_or_none
get_by_external_id x rows = one_or_none (filter (λ r. is_external x r.external_id) rows)

unfoldable pub exists : ℕ → List MessageRow → Bool
unfolding find_row
exists i rows = is_some (find_row i rows)

-- An update of the row with the identifier of `m`, or the insertion of a new one.
unfoldable pub save : ℕ → Message → List MessageRow → List MessageRow
unfolding to_model update_row
save now m [] = to_model m ∷ []
save now m (r ∷ rows) = if r.id == m.id then update_row now r m ∷ rows else r ∷ save now m rows

unfoldable pub save_batch : List Message → List MessageRow → List MessageRow
unfolding to_model
save_batch ms rows = rows ++ map to_model ms

-- The rows without the deleted one, and whether there was one.
unfoldable pub delete : ℕ → List MessageRow → List MessageRow × Bool
unfolding exists
delete i rows = (filter (λ r. not (r.id == i)) rows, exists i rows)
