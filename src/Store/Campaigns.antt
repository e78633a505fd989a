-- ===== src/Store/Campaigns.antt =====
-- The campaign table of apps/adapters/db/models.py and the repository over it
-- (apps/adapters/db/repositories/campaign_repo.py).
use rcs_bulk_messaging_syste.Prelude.{
  ℕ, Bool, Option, none, some, List, [], ◌∷◌, ◌==◌, if◌then◌else◌,
}
use rcs_bulk_messaging_syste.Prelude.Text.{Text, codes}
use rcs_bulk_messaging_syste.Prelude.Dict.{Dict, get_item}
use rcs_bulk_messaging_syste.Prelude.Time.{Datetime}
use rcs_bulk_messaging_syste.Campaign.Types.{
  CampaignStatus, CampaignType, Priority, MetaValue, text_value, ids_value, Campaign,
}
use rcs_bulk_messaging_syste.Campaign.Lifecycle.{update_stats_from_db}
use rcs_bulk_messaging_syste.Store.Rows.{MessageRow, map_option}
use rcs_bulk_messaging_syste.Store.Stats.{aggregate}

pub record CampaignRow : Type 0 where
  pub id : ℕ
  pub tenant_id : ℕ
  pub template_id : ℕ
  pub name : Text
  pub status : CampaignStatus
  pub campaign_type : CampaignType
  pub priority : Priority
  pub scheduled_for : Option Datetime
  pub enable_fallback : Bool
  pub fallback_channel : Text
  pub rate_limit : Option ℕ
  pub recipient_count : ℕ
  pub messages_sent : ℕ
  pub messages_delivered : ℕ
  pub messages_failed : ℕ
  pub messages_read : ℕ
  pub fallback_triggered : ℕ
  pub opt_outs : ℕ
  pub metadata : Dict MetaValue
  pub tags : List Text
  pub created_at : ℕ
  pub updated_at : ℕ

-- `[UUID(aid) for aid in metadata["audience_ids"]]`, if the key is there.
unfoldable pub restored_ids : Option MetaValue → List ℕ
restored_ids none = []
restored_ids (some (ids_value l)) = l
restored_ids (some (text_value t)) = []

-- `_to_domain`
unfoldable pub to_domain : CampaignRow → Campaign
unfolding restored_ids
to_domain r = record {
  id = r.id;
  tenant_id = r.tenant_id;
  name = r.name;
  campaign_type = r.campaign_type;
  template_id = r.template_id;
  status = r.status;
  priority = r.priority;
  scheduled_for = r.scheduled_for;
  created_at = r.created_at;
  updated_at = r.updated_at;
  audience_ids = restored_ids (get_item (codes "audience_ids") r.metadata);
  recipient_count = r.recipient_count;
  enable_fallback = r.enable_fallback;
  fallback_channel = r.fallback_channel;
  rate_limit = r.rate_limit;
  stats = record {
    total_recipients = r.recipient_count;
    messages_sent = r.messages_sent;
    messages_delivered = r.messages_delivered;
    messages_failed = r.messages_failed;
    messages_read = r.messages_read;
    fallback_triggered = r.fallback_triggered;
    opt_outs = r.opt_outs;
  };
  metadata = r.metadata;
  tags = r.tags;
  events = [];
}

-- `_to_model`
unfoldable pub to_model : Campaign → CampaignRow
to_model c = record {
  id = c.id;
  tenant_id = c.tenant_id;
  template_id = c.template_id;
  name = c.name;
  status = c.status;
  campaign_type = c.campaign_type;
  priority = c.priority;
  scheduled_for = c.scheduled_for;
  enable_fallback = c.enable_fallback;
  fallback_channel = c.fallback_channel;
  rate_limit = c.rate_limit;
  recipient_count = c.recipient_count;
  messages_sent = c.stats.messages_sent;
  messages_delivered = c.stats.messages_delivered;
  messages_failed = c.stats.messages_failed;
  messages_read = c.stats.messages_read;
  fallback_triggered = c.stats.fallback_triggered;
  opt_outs = c.stats.opt_outs;
  metadata = c.metadata;
  tags = c.tags;
  created_at = c.created_at;
  updated_at = c.updated_at;
}

-- The metadata that an update writes. The campaign has been loaded from its row in the same session, with the very
-- dictionary of the row unless that is empty, and its methods change it in place, which the ORM does not see.
unfoldable pub written_metadata : Dict MetaValue → Dict MetaValue → Dict MetaValue
written_metadata [] new = new
written_metadata (e ∷ d) new = e ∷ d

-- `_update_from_domain`
unfoldable pub update_row : ℕ → CampaignRow → Campaign → CampaignRow
update_row now r c = record r {
  name = c.name;
  status = c.status;
  campaign_type = c.campaign_type;
  priority = c.priority;
  scheduled_for = c.scheduled_for;
  enable_fallback = c.enable_fallback;
  fallback_channel = c.fallback_channel;
  rate_limit = c.rate_limit;
  recipient_count = c.recipient_count;
  messages_sent = c.stats.messages_sent;
  messages_delivered = c.stats.messages_delivered;
  messages_failed = c.stats.messages_failed;
  messages_read = c.stats.messages_read;
  fallback_triggered = c.stats.fallback_triggered;
  opt_outs = c.stats.opt_outs;
  metadata = written_metadata r.metadata c.metadata;
  tags = c.tags;
  updated_at = now;
}

unfoldable pub find_row : ℕ → List CampaignRow → Option CampaignRow
find_row i [] = none
find_row i (r ∷ rows) = if r.id == i then some r else find_row i rows

unfoldable pub get_by_id : ℕ → List CampaignRow → Option Campaign
unfolding find_row
get_by_id i rows = map_option to_domain (find_row i rows)

unfoldable pub save : ℕ → Campaign → List CampaignRow → List CampaignRow
unfolding to_model update_row
save now c [] = to_model c ∷ []
save now c (r ∷ rows) = if r.id == c.id then update_row now r c ∷ rows else r ∷ save now c rows

-- `recalculate_stats` of one row: the campaign is read, updated and written back, and its events go
-- no further.
unfoldable pub recalculate_row : ℕ → List MessageRow → CampaignRow → CampaignRow
unfolding to_domain update_row
recalculate_row now messages r =
    update_row now r (update_stats_from_db now (aggregate r.id messages) (to_domain r)).0

-- A campaign that is not found is logged, and nothing is written.
unfoldable pub recalculate_stats : ℕ → ℕ → List MessageRow → List CampaignRow → List CampaignRow
unfolding recalculate_row
recalculate_stats now cid messages [] = []
recalculate_stats now cid messages (r ∷ rows) =
    if r.id == cid
    then recalculate_row now messages r ∷ rows
    else r ∷ recalculate_stats now cid messages rows
