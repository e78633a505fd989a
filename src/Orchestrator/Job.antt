-- ===== src/Orchestrator/Job.antt =====
-- `process_campaign_job`. The tables are committed after every batch, and after the activation, so an exception
-- takes nothing back. The pause between the batches of a campaign with a rate limit is left out.
use rcs_bulk_messaging_syste.Prelude.{
  ℕ, ◌+◌, Bool, true, false, ◌&&◌, ◌||◌, not, Option, none, some, List, [], ◌∷◌, map, if◌then◌else◌,
  or_else, length,
}
use rcs_bulk_messaging_syste.Prelude.Text.{is_empty}
use rcs_bulk_messaging_syste.Prelude.Results.{Result, ok, err, ◌>>=◌}
use rcs_bulk_messaging_syste.Prelude.Time.{utcnow, datetime_lt}
use rcs_bulk_messaging_syste.Campaign.Types.{scheduled, active, Campaign, campaign_status_eq}
use rcs_bulk_messaging_syste.Campaign.Lifecycle.{activate}
use rcs_bulk_messaging_syste.Store.Rows.{MessageRow, save_batch}
use rcs_bulk_messaging_syste.Store.Campaigns.{CampaignRow}
use rcs_bulk_messaging_syste.Store.Campaigns
use rcs_bulk_messaging_syste.Template.Types.{Template, approved, is_status}
use rcs_bulk_messaging_syste.Template.Store.{TemplateRow}
use rcs_bulk_messaging_syste.Template.Store
use rcs_bulk_messaging_syste.Queue.{Broker, enqueue_batch}
use rcs_bulk_messaging_syste.Delivery.World.{Env}
use rcs_bulk_messaging_syste.Contacts.{ContactRow}
use rcs_bulk_messaging_syste.Orchestrator.Recipients.{
  Recipient, stream_campaign_recipients, create_messages, dispatch_job,
}

pub record Site : Type 0 where
  pub messages : List MessageRow
  pub campaigns : List CampaignRow
  pub templates : List TemplateRow
  pub contacts : List ContactRow
  pub broker : Broker

-- `_should_execute_campaign`: `datetime.utcnow()` is compared with the time of the campaign.
unfoldable pub should_execute_campaign : ℕ → Campaign → Result Bool
should_execute_campaign now c =
    if not (campaign_status_eq c.status scheduled || campaign_status_eq c.status active)
    then ok false
    else elim c.scheduled_for [
      | none ↦ ok true
      | some scheduled_for ↦ datetime_lt (utcnow now) scheduled_for >>= λ early. ok (not early)
    ]

-- The batch is saved and committed, and then queued.
unfoldable pub send_batch :
    Env → (ℕ → ℕ) → Campaign → Template → ℕ → List Recipient → Site → Result (Unit {0}) × Site
send_batch env draw c t k batch s =
    let ms = create_messages env.now draw c t k batch in
    let sent = enqueue_batch env.accepts (map dispatch_job ms) s.broker in
    (sent.0, record s { messages = save_batch ms s.messages; broker = sent.1 })

-- Goes on where a batch was queued, and ends where it was not.
abbrev pub after_batch : Result (Unit {0}) × Site → (Site → Result ℕ × Site) → Result ℕ × Site
after_batch (ok u, s) next = next s
after_batch (err e, s) next = (err e, s)

-- The loop over the batches, with the number of messages created.
unfoldable pub send_batches :
    Env → (ℕ → ℕ) → Campaign → Template → ℕ → List (List Recipient) → Site → Result ℕ × Site
send_batches env draw c t k [] s = (ok k, s)
send_batches env draw c t k (batch ∷ batches) s =
    after_batch (send_batch env draw c t k batch s)
      (send_batches env draw c t (k + length batch) batches)

-- The end: the number of messages is saved as that of the recipients.
unfoldable pub finalize : Env → Campaign → Result ℕ × Site → Result (Unit {0}) × Site
finalize env c (ok total, s) = (
  ok tt,
  record s {
    campaigns = Campaigns.save env.now (record c { recipient_count = total }) s.campaigns;
  },
)
finalize env c (err e, s) = (err e, s)

-- Without a batch there is nothing to finalize.
unfoldable pub run_batches :
    Env → (ℕ → ℕ) → Campaign → Template → List (List Recipient) → Site → Result (Unit {0}) × Site
run_batches env draw c t [] s = (ok tt, s)
run_batches env draw c t (batch ∷ batches) s =
    finalize env c (send_batches env draw c t 0 (batch ∷ batches) s)

-- `not getattr(template, 'external_template_id', None)`
abbrev pub has_external_id : Template → Bool
has_external_id t = not (is_empty (or_else t.external_template_id []))

-- The template is loaded and checked; what is wrong with it is logged.
unfoldable pub with_template :
    Env → (ℕ → ℕ) → Campaign → Result (Option Template) → Site → Result (Unit {0}) × Site
with_template env draw c (err e) s = (err e, s)
with_template env draw c (ok none) s = (ok tt, s)
with_template env draw c (ok (some t)) s =
    if is_status approved t && has_external_id t
    then run_batches env draw c t (stream_campaign_recipients c.id s.campaigns s.contacts) s
    else (ok tt, s)

unfoldable pub execute : Env → (ℕ → ℕ) → Campaign → Site → Result (Unit {0}) × Site
execute env draw c s = with_template env draw c (Store.get_by_id c.template_id s.templates) s

-- A scheduled campaign is activated first.
unfoldable pub activate_first : Env → (ℕ → ℕ) → Campaign → Site → Result (Unit {0}) × Site
activate_first env draw c s =
    if campaign_status_eq c.status scheduled
    then (elim (activate env.now c) [
      | ok c' ↦ execute env draw c' (record s { campaigns = Campaigns.save env.now c' s.campaigns })
      | err e ↦ (err e, s)
    ])
    else execute env draw c s

unfoldable pub if_ready : Env → (ℕ → ℕ) → Campaign → Result Bool → Site → Result (Unit {0}) × Site
if_ready env draw c (err e) s = (err e, s)
if_ready env draw c (ok false) s = (ok tt, s)
if_ready env draw c (ok true) s = activate_first env draw c s

-- The handler of a job for the campaign `i`. A campaign that is not found is logged.
unfoldable pub process_campaign_job : Env → (ℕ → ℕ) → ℕ → Site → Result (Unit {0}) × Site
process_campaign_job env draw i s = elim (Campaigns.get_by_id i s.campaigns) [
  | none ↦ (ok tt, s)
  | some c ↦ if_ready env draw c (should_execute_campaign env.now c) s
]
