-- ===== src/Service/Calls.antt =====
-- The methods of `class CampaignService`. A call is one transaction: where it raises, the tables are as they were,
-- but what the broker has taken stays. Not modelled: the list of campaigns, which is sorted and cut by the database, and
-- `update_campaign_stats`, which passes on to the repository.
use rcs_bulk_messaging_syste.Prelude.{ℕ, Option, none, some, List, [], ◌∷◌, ◌++◌, length}
use rcs_bulk_messaging_syste.Prelude.Text.{Text, codes}
use rcs_bulk_messaging_syste.Prelude.Results.{Exn, value_error, Result, ok, err, ◌>>=◌}
use rcs_bulk_messaging_syste.Prelude.Dict.{Dict, set_item}
use rcs_bulk_messaging_syste.Prelude.Time.{Datetime}
use rcs_bulk_messaging_syste.Campaign.Types.{
  CampaignType, Priority, low, medium, high, urgent, MetaValue, Campaign,
}
use rcs_bulk_messaging_syste.Campaign.Lifecycle.{
  create, schedule, activate, pause, resume, complete, cancel, add_audience, collect_events,
}
use rcs_bulk_messaging_syste.Store.Campaigns.{CampaignRow, get_by_id, save}
use rcs_bulk_messaging_syste.Queue.{
  QueuePriority, low_priority, medium_priority, high_priority, urgent_priority, QueueMessage,
  Broker, enqueue,
}
use rcs_bulk_messaging_syste.Queue
use rcs_bulk_messaging_syste.Delivery.World.{Env}
use rcs_bulk_messaging_syste.Service.Events.{EventRow, save_events}

pub record Tables : Type 0 where
  pub campaigns : List CampaignRow
  pub events : List EventRow

pub record State : Type 0 where
  pub tables : Tables
  pub broker : Broker

-- `async with self.uow`: commit, or roll back.
unfoldable pub committed : Result (Campaign × Tables) → State → Result Campaign × State
committed (ok (c, t)) s = (ok c, record s { tables = t })
committed (err e) s = (err e, s)

-- The campaign is saved, and its pending events, which it loses.
unfoldable pub save_and_publish : Env → Campaign → Tables → Result (Campaign × Tables)
save_and_publish env c t = do
  events ← save_events env.now (collect_events c).0 t.events
  ok ((collect_events c).1, record { campaigns = save env.now c t.campaigns; events = events })

abbrev pub not_found : Env → ℕ → Exn
not_found env i = value_error (codes "Campaign " ++ (env.show i ++ codes " not found"))

abbrev pub found : Env → ℕ → Option Campaign → Result Campaign
found env i none = err (not_found env i)
found env i (some c) = ok c

-- What the methods that change one campaign share.
unfoldable pub change : Env → ℕ → (Campaign → Result Campaign) → Tables → Result (Campaign × Tables)
change env i f t = do c ← found env i (get_by_id i t.campaigns); c' ← f c; save_and_publish env c' t

-- `campaign.metadata.update(metadata)`
unfoldable pub update_metadata : Dict MetaValue → Dict MetaValue → Dict MetaValue
update_metadata [] d = d
update_metadata ((k, v) ∷ kvs) d = update_metadata kvs (set_item k v d)

unfoldable pub create_campaign :
    Env → ℕ → Text → ℕ → CampaignType → Priority → Dict MetaValue → State → Result Campaign × State
create_campaign env tenant_id name template_id campaign_type priority metadata s =
    committed created s
  where
    created : Result (Campaign × Tables)
    created = do
      c ← create env.now env.fresh_id name tenant_id template_id campaign_type priority
      save_and_publish env (record c { metadata = update_metadata metadata c.metadata }) s.tables

-- `add_audience` saves the campaign and publishes nothing.
unfoldable pub add_audience_to : Env → ℕ → ℕ → List Text → State → Result Campaign × State
add_audience_to env i audience_id recipient_phones s = committed added s
  where
    added : Result (Campaign × Tables)
    added = do
      c ← found env i (get_by_id i s.tables.campaigns)
      c' ← add_audience env.now audience_id (length recipient_phones) c
      ok (c', record (s.tables) { campaigns = save env.now c' s.tables.campaigns })

-- `_map_priority`
unfoldable pub map_priority : Priority → QueuePriority
map_priority low = low_priority
map_priority medium = medium_priority
map_priority high = high_priority
map_priority urgent = urgent_priority

-- The job of the orchestrator.
unfoldable pub campaign_job : ℕ → Campaign → QueueMessage
campaign_job i c = record {
  id = i;
  queue_name = codes "campaign.orchestrator";
  payload = i;
  priority = map_priority c.priority;
  delay = none;
  max_retries = 3;
}

-- The job is published before the commit; if the broker fails, the tables are rolled back.
unfoldable pub with_job :
    (Campaign → Result Broker) → Result (Campaign × Tables) → State → Result Campaign × State
with_job send (ok (c, t)) s = elim (send c) [
  | ok b ↦ (ok c, record { tables = t; broker = b })
  | err e ↦ (err e, s)
]
with_job send (err e) s = (err e, s)

unfoldable pub schedule_campaign : Env → ℕ → Datetime → State → Result Campaign × State
schedule_campaign env i scheduled_for s =
    with_job (λ c. Queue.schedule env.accepts env.now (campaign_job i c) scheduled_for s.broker)
      (change env i (schedule env.now scheduled_for) s.tables) s

unfoldable pub activate_campaign : Env → ℕ → State → Result Campaign × State
activate_campaign env i s =
    with_job (λ c. enqueue env.accepts (campaign_job i c) s.broker)
      (change env i (activate env.now) s.tables) s

unfoldable pub pause_campaign : Env → ℕ → State → Result Campaign × State
pause_campaign env i s = committed (change env i (pause env.now) s.tables) s

unfoldable pub resume_campaign : Env → ℕ → State → Result Campaign × State
resume_campaign env i s = committed (change env i (resume env.now) s.tables) s

unfoldable pub cancel_campaign : Env → ℕ → Text → State → Result Campaign × State
cancel_campaign env i reason s = committed (change env i (cancel env.now reason) s.tables) s

unfoldable pub complete_campaign : Env → ℕ → State → Result Campaign × State
complete_campaign env i s = committed (change env i (complete env.now) s.tables) s

unfoldable pub get_campaign : ℕ → State → Option Campaign
get_campaign i s = get_by_id i s.tables.campaigns
