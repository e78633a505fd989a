-- ===== src/Orchestrator/Campaign.antt =====
-- A job for a campaign: whom it reaches, and when it does nothing.
use rcs_bulk_messaging_syste.Prelude.{
  ℕ, suc, ◌+◌, ◌≡◌, refl, sym, ap, ◌∙◌, subst, true, none, some, List, [], ◌∷◌, ◌++◌, map, arith,
  length,
}
use rcs_bulk_messaging_syste.Prelude.Text.{codes}
use rcs_bulk_messaging_syste.Prelude.Results.{ok}
use rcs_bulk_messaging_syste.Prelude.Dict.{get_item}
use rcs_bulk_messaging_syste.Phone.{normalize_phone}
use rcs_bulk_messaging_syste.Message.Types.{Message}
use rcs_bulk_messaging_syste.Message.Lifecycle.{create}
use rcs_bulk_messaging_syste.Campaign.Types.{active, Campaign, campaign_status_eq}
use rcs_bulk_messaging_syste.Store.Campaigns.{CampaignRow, restored_ids, find_row, to_domain}
use rcs_bulk_messaging_syste.Store.Campaigns
use rcs_bulk_messaging_syste.Template.Types.{Template, approved, is_status}
use rcs_bulk_messaging_syste.Template.Store.{TemplateRow}
use rcs_bulk_messaging_syste.Template.Store
use rcs_bulk_messaging_syste.Queue.{QueueMessage}
use rcs_bulk_messaging_syste.Delivery.World.{Env}
use rcs_bulk_messaging_syste.Contacts.{ContactRow, concat}
use rcs_bulk_messaging_syste.Contacts.Streaming.{HasKey}
use rcs_bulk_messaging_syste.Orchestrator.Recipients.{
  Recipient, audience_ids_of, stream_campaign_recipients, create_messages,
}
use rcs_bulk_messaging_syste.Orchestrator.Job.{
  Site, should_execute_campaign, finalize, run_batches, has_external_id, with_template, execute,
  activate_first, if_ready, process_campaign_job,
}
use rcs_bulk_messaging_syste.Orchestrator.Batches.{
  recipients_of, concat-stream_audiences, length-create_messages,
}
use rcs_bulk_messaging_syste.Orchestrator.Dispatch.{sent, send_batches-sent}

-- The site after all recipients were served.
abbrev pub finished : Env → Campaign → List Message → Site → Site
finished env c ms s = record (sent ms s) {
  campaigns = Campaigns.save env.now (record c { recipient_count = length ms }) s.campaigns;
}

run_batches-finished :
    (env : Env) (draw : ℕ → ℕ) (c : Campaign) (t : Template) (batches : List (List Recipient))
    (s : Site) (x : Recipient) (xs : List Recipient)
    → ((q : QueueMessage) → env.accepts q ≡ true)
    → concat batches ≡ x ∷ xs
    → run_batches env draw c t batches s
      ≡ (ok tt, finished env c (create_messages env.now draw c t 0 (concat batches)) s)
unfolding run_batches concat
run_batches-finished env draw c t [] s x xs h e = ground (arith, e)
run_batches-finished env draw c t (batch ∷ batches) s x xs h e =
    let ms = create_messages env.now draw c t 0 (batch ++ concat batches) in
    let f : 0 + length (batch ++ concat batches) ≡ length ms =
      omega (arith, length-create_messages env.now draw c t 0 (batch ++ concat batches)) in
    ap (finalize env c) (send_batches-sent env draw c t 0 (batch ∷ batches) s h)
    ∙ unfold finalize in
      ap
        (λ n. (
          ok tt,
          record (sent ms s) {
            campaigns = Campaigns.save env.now (record c { recipient_count = n }) s.campaigns;
          },
        ))
        f

pub find_row-id :
    (i : ℕ) (rows : List CampaignRow) (r : CampaignRow) → find_row i rows ≡ some r → r.id ≡ i
unfolding find_row
find_row-id i [] r h = ground (arith, h)
find_row-id i (q ∷ rows) r h = ground (arith, h, find_row-id i rows r)

-- The recipients of a campaign: the contacts with a number of all its audiences.
unfoldable pub recipients_of_row : CampaignRow → List ContactRow → List Recipient
recipients_of_row r contacts =
    recipients_of (restored_ids (get_item (codes "audience_ids") r.metadata)) contacts

stream-recipients :
    (i : ℕ) (campaigns : List CampaignRow) (contacts : List ContactRow) (r : CampaignRow)
    → HasKey contacts
    → find_row i campaigns ≡ some r
    → concat (stream_campaign_recipients i campaigns contacts) ≡ recipients_of_row r contacts
unfolding stream_campaign_recipients audience_ids_of recipients_of_row
stream-recipients i campaigns contacts r h e =
    rw e (
      concat-stream_audiences (restored_ids (get_item (codes "audience_ids") r.metadata)) contacts
        h)

-- A campaign that is active, and not scheduled, is executed at once.
executes :
    (env : Env) (draw : ℕ → ℕ) (i : ℕ) (s : Site) (r : CampaignRow) (t : Template)
    → find_row i s.campaigns ≡ some r
    → r.status ≡ active
    → r.scheduled_for ≡ none
    → Store.get_by_id r.template_id s.templates ≡ ok (some t)
    → is_status approved t ≡ true
    → has_external_id t ≡ true
    → process_campaign_job env draw i s
      ≡ run_batches env draw
          (to_domain r)
          t
          (stream_campaign_recipients r.id s.campaigns s.contacts)
          s
unfolding process_campaign_job Campaigns.get_by_id should_execute_campaign to_domain if_ready
    activate_first execute with_template campaign_status_eq
executes env draw i s r t e a b g p q = ground (arith, e, a, b, g, p, q)

create_messages-phones :
    (now : ℕ) (draw : ℕ → ℕ) (c : Campaign) (t : Template) (k : ℕ) (rs : List Recipient)
    → map (λ m. m.recipient_phone) (create_messages now draw c t k rs)
      ≡ map (λ r. normalize_phone r.phone) rs
unfolding create_messages create
create_messages-phones now draw c t k [] = refl
create_messages-phones now draw c t k (r ∷ rs) =
    ap (λ z. normalize_phone r.phone ∷ z) (create_messages-phones now draw c t (suc k) rs)

module _ (env : Env) (draw : ℕ → ℕ) (i : ℕ) (s : Site) (r : CampaignRow) (t : Template) where
  -- The messages of the campaign.
  abbrev pub made : List Message
  made = create_messages env.now draw (to_domain r) t 0 (recipients_of_row r s.contacts)

  -- A job for an active campaign that is not scheduled, with an approved template that has an external
  -- identifier, recipients, and a broker that takes every message, makes one message for each contact with a number of each of its
  -- audiences, in order, to the normalised number; all are saved and a job is queued for each, after what was there, and
  -- their number is saved as that of the recipients. Opt-outs are not looked at. The contacts have a primary key.
  pub process_campaign_job-dispatches :
      (x : Recipient) (xs : List Recipient)
      → ((q : QueueMessage) → env.accepts q ≡ true)
      → HasKey s.contacts
      → find_row i s.campaigns ≡ some r
      → r.status ≡ active
      → r.scheduled_for ≡ none
      → Store.get_by_id r.template_id s.templates ≡ ok (some t)
      → is_status approved t ≡ true
      → has_external_id t ≡ true
      → recipients_of_row r s.contacts ≡ x ∷ xs
      → (process_campaign_job env draw i s ≡ (ok tt, finished env (to_domain r) made s))
        × (map (λ m. m.recipient_phone) made
            ≡ map (λ q. normalize_phone q.phone) (recipients_of_row r s.contacts))
  process_campaign_job-dispatches x xs h k e a b g p q n =
      let f = find_row-id i s.campaigns r e in
      let m = stream-recipients i s.campaigns s.contacts r k e in
      let o =
        subst
          (λ j.
            concat (stream_campaign_recipients j s.campaigns s.contacts)
            ≡ recipients_of_row r s.contacts)
          (sym f) m in
      (
        executes env draw i s r t e a b g p q
            ∙ run_batches-finished env draw (to_domain r) t
                (stream_campaign_recipients r.id s.campaigns s.contacts) s x xs h (o ∙ n)
            ∙ ap
                (λ z. (
                  ok tt,
                  finished env (to_domain r) (create_messages env.now draw (to_domain r) t 0 z) s,
                ))
                o,
        create_messages-phones env.now draw (to_domain r) t 0 (recipients_of_row r s.contacts),
      )
