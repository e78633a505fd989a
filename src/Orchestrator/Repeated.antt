-- ===== src/Orchestrator/Repeated.antt =====
-- A campaign job that does nothing, one that raises, and one that comes twice.
use rcs_bulk_messaging_syste.Prelude.{
  ℕ, ◌≡◌, refl, sym, ap, ◌∙◌, subst, true, ◌||◌, not, none, some, List, [], ◌∷◌, map, arith, length,
}
use rcs_bulk_messaging_syste.Prelude.Results.{ok, is_ok}
use rcs_bulk_messaging_syste.Prelude.Time.{Datetime, datetime_lt}
use rcs_bulk_messaging_syste.Prelude.Text.{codes}
use rcs_bulk_messaging_syste.Prelude.Dict.{Dict, get_item}
use rcs_bulk_messaging_syste.Contacts.{ContactRow}
use rcs_bulk_messaging_syste.Orchestrator.Batches.{recipients_of}
use rcs_bulk_messaging_syste.Phone.{normalize_phone}
use rcs_bulk_messaging_syste.Message.Types.{Message}
use rcs_bulk_messaging_syste.Campaign.Types.{
  MetaValue, scheduled, active, Campaign, campaign_status_eq,
}
use rcs_bulk_messaging_syste.Store.Campaigns.{
  CampaignRow, restored_ids, find_row, to_domain, update_row,
}
use rcs_bulk_messaging_syste.Store.Campaigns
use rcs_bulk_messaging_syste.Template.Types.{Template, approved, is_status}
use rcs_bulk_messaging_syste.Template.Store.{TemplateRow}
use rcs_bulk_messaging_syste.Template.Store
use rcs_bulk_messaging_syste.Queue.{QueueMessage}
use rcs_bulk_messaging_syste.Delivery.World.{Env}
use rcs_bulk_messaging_syste.Contacts.Streaming.{HasKey}
use rcs_bulk_messaging_syste.Orchestrator.Recipients.{Recipient, create_messages}
use rcs_bulk_messaging_syste.Orchestrator.Job.{
  Site, should_execute_campaign, has_external_id, if_ready, process_campaign_job,
}
use rcs_bulk_messaging_syste.Orchestrator.Campaign.{
  finished, recipients_of_row, made, process_campaign_job-dispatches, find_row-id,
}

-- A job for a campaign with a time that has a zone, as every campaign has that was scheduled, changes nothing; it
-- raises if the campaign is scheduled or active, and returns else.
pub process_campaign_job-unchanged :
    (env : Env) (draw : ℕ → ℕ) (i : ℕ) (s : Site) (r : CampaignRow) (at : Datetime)
    → find_row i s.campaigns ≡ some r
    → r.scheduled_for ≡ some at
    → at.is_aware ≡ true
    → ((process_campaign_job env draw i s).1 ≡ s)
      × (is_ok (process_campaign_job env draw i s).0
          ≡ not (campaign_status_eq r.status scheduled || campaign_status_eq r.status active))
unfolding process_campaign_job Campaigns.get_by_id should_execute_campaign to_domain if_ready
    datetime_lt campaign_status_eq
process_campaign_job-unchanged env draw i s r at e a b = ground (arith, e, a, b)

pub find_row-save :
    (now i : ℕ) (c : Campaign) (r : CampaignRow) (rows : List CampaignRow)
    → find_row i rows ≡ some r
    → c.id ≡ i
    → find_row i (Campaigns.save now c rows) ≡ some (update_row now r c)
unfolding find_row Campaigns.save update_row
find_row-save now i c r [] e h = ground (arith, e)
find_row-save now i c r (p ∷ rows) e h = ground (arith, e, h, find_row-save now i c r rows)

written_metadata-same : (d : Dict MetaValue) → Campaigns.written_metadata d d ≡ d
unfolding Campaigns.written_metadata
written_metadata-same [] = refl
written_metadata-same (e ∷ d) = refl

-- An update with the metadata of the row keeps the audiences.
pub recipients-update_row :
    (now : ℕ) (r : CampaignRow) (c : Campaign) (contacts : List ContactRow)
    → c.metadata ≡ r.metadata
    → recipients_of_row (update_row now r c) contacts ≡ recipients_of_row r contacts
unfolding recipients_of_row update_row
recipients-update_row now r c contacts h =
    ap (λ d. recipients_of (restored_ids (get_item (codes "audience_ids") d)) contacts)
      (ap (Campaigns.written_metadata r.metadata) h ∙ written_metadata-same r.metadata)

module _ (env : Env) (draw draw' : ℕ → ℕ) (i : ℕ) (s : Site) (r : CampaignRow) (t : Template) where
  -- The row after the first job.
  abbrev pub left_row : CampaignRow
  left_row =
      update_row env.now r
        (record (to_domain r) { recipient_count = length (made env draw i s r t) })

  -- The messages of the second job.
  abbrev pub again : List Message
  again = create_messages env.now draw' (to_domain left_row) t 0 (recipients_of_row r s.contacts)

  abbrev first : Site
  first = finished env (to_domain r) (made env draw i s r t) s

  recipients-left_row : recipients_of_row left_row s.contacts ≡ recipients_of_row r s.contacts
  recipients-left_row = recipients-update_row env.now r _ s.contacts (unfold to_domain in refl)

  -- A job for an active campaign that comes a second time makes every message again: it returns, and saves and
  -- queues one message more for each recipient, to the same numbers. The conditions are those on the first job,
  -- which leaves nothing that tells the second one.
  pub process_campaign_job-repeated :
      (x : Recipient) (xs : List Recipient)
      → ((q : QueueMessage) → env.accepts q ≡ true)
      → HasKey s.contacts
      → find_row i s.campaigns ≡ some r
      → r.status ≡ active
      → r.scheduled_for ≡ none
      → Store.get_by_id r.template_id s.templates ≡ ok (some t)
      → is_status approved t ≡ true
      → has_external_id t ≡ true
      → recipients_of_row r s.contacts ≡ x ∷ xs
      → let s' = (process_campaign_job env draw i s).1 in
        (process_campaign_job env draw' i s' ≡ (ok tt, finished env (to_domain left_row) again s'))
        × (map (λ m. m.recipient_phone) again
            ≡ map (λ q. normalize_phone q.phone) (recipients_of_row r s.contacts))
  process_campaign_job-repeated x xs h k e a b g p q n =
      let d = process_campaign_job-dispatches env draw i s r t x xs h k e a b g p q n in
      let c = record (to_domain r) { recipient_count = length (made env draw i s r t) } in
      let j : c.id ≡ i = unfold to_domain in find_row-id i s.campaigns r e in
      let f = find_row-save env.now i c r s.campaigns e j in
      let d' =
        process_campaign_job-dispatches env draw' i first left_row t x xs h k f
          (unfold update_row to_domain in a) (unfold update_row to_domain in b)
          (unfold update_row in g) p q (recipients-left_row ∙ n) in
      let m =
        ap (λ z. create_messages env.now draw' (to_domain left_row) t 0 z) recipients-left_row in
      let w = d'.0 ∙ ap (λ z. (ok tt, finished env (to_domain left_row) z first)) m in
      (
        subst
            (λ z.
              process_campaign_job env draw' i z
              ≡ (ok tt, finished env (to_domain left_row) again z))
            (sym (ap (λ z. z.1) d.0)) w,
        ap (map (λ z. z.recipient_phone)) (sym m)
            ∙ d'.1
            ∙ ap (map (λ z. normalize_phone z.phone)) recipients-left_row,
      )
