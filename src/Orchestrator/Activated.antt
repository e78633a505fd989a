-- ===== src/Orchestrator/Activated.antt =====
-- From the service to the orchestrator: a campaign that is activated is sent.
use rcs_bulk_messaging_syste.Prelude.{
  ℕ, ◌≤◌, ◌≡◌, refl, sym, ◌∙◌, subst, true, false, none, some, List, [], ◌∷◌, ◌++◌, map, ◌==◌,
  length, filter,
}
use rcs_bulk_messaging_syste.Prelude.Results.{ok, is_ok}
use rcs_bulk_messaging_syste.Phone.{normalize_phone}
use rcs_bulk_messaging_syste.Message.Types.{Message}
use rcs_bulk_messaging_syste.Campaign.Types.{draft}
use rcs_bulk_messaging_syste.Store.Campaigns.{
  CampaignRow, restored_ids, find_row, to_domain, update_row,
}
use rcs_bulk_messaging_syste.Store.Campaigns
use rcs_bulk_messaging_syste.Template.Types.{Template, approved, is_status}
use rcs_bulk_messaging_syste.Template.Store.{TemplateRow}
use rcs_bulk_messaging_syste.Template.Store
use rcs_bulk_messaging_syste.Queue.{QueueMessage}
use rcs_bulk_messaging_syste.Delivery.World.{Env}
use rcs_bulk_messaging_syste.Contacts.Streaming.{HasKey}
use rcs_bulk_messaging_syste.Orchestrator.Recipients.{Recipient, create_messages}
use rcs_bulk_messaging_syste.Orchestrator.Job.{Site, has_external_id, process_campaign_job}
use rcs_bulk_messaging_syste.Orchestrator.Campaign.{
  finished, recipients_of_row, process_campaign_job-dispatches, find_row-id,
}
use rcs_bulk_messaging_syste.Orchestrator.Repeated.{find_row-save, recipients-update_row}
use rcs_bulk_messaging_syste.Service.Events.{of_aggregate}
use rcs_bulk_messaging_syste.Service.Calls.{State, campaign_job, activate_campaign}
use rcs_bulk_messaging_syste.Service.Activation.{activated_of, activate_campaign-queues}

module _ (env : Env) (draw : ℕ → ℕ) (i : ℕ) (st : State) (site : Site) (r : CampaignRow)
    (t : Template) where
  -- The site as the orchestrator finds it after the activation.
  abbrev pub handed_over : Site
  handed_over = record site { campaigns = (activate_campaign env i st).1.tables.campaigns }

  abbrev pub activated_row : CampaignRow
  activated_row = update_row env.now r (activated_of env.now r)

  abbrev pub made_for : List Message
  made_for =
      create_messages env.now draw (to_domain activated_row) t 0 (recipients_of_row r site.contacts)

  activated-found :
      find_row i st.tables.campaigns ≡ some r
      → find_row i (Campaigns.save env.now (activated_of env.now r) st.tables.campaigns)
        ≡ some activated_row
  activated-found e =
      let j : (activated_of env.now r).id ≡ i =
        unfold activated_of to_domain in find_row-id i st.tables.campaigns r e in
      find_row-save env.now i (activated_of env.now r) r st.tables.campaigns e j

  -- A draft that is activated is sent: where the campaign has recipients, contacts with a number, an approved template with
  -- an external identifier, no time, and at most one stored event, and the broker takes every message, the
  -- activation returns and queues a job; and the orchestrator, given that job, returns, and saves and queues one
  -- message for each contact with a number of each audience, to the normalised number.
  pub activate_campaign-dispatches :
      (x : Recipient) (xs : List Recipient)
      → ((q : QueueMessage) → env.accepts q ≡ true)
      → HasKey site.contacts
      → find_row i st.tables.campaigns ≡ some r
      → r.status ≡ draft
      → r.scheduled_for ≡ none
      → (r.recipient_count == 0) ≡ false
      → length (filter (of_aggregate i) st.tables.events) ≤ 1
      → Store.get_by_id r.template_id site.templates ≡ ok (some t)
      → is_status approved t ≡ true
      → has_external_id t ≡ true
      → recipients_of_row r site.contacts ≡ x ∷ xs
      → (is_ok (activate_campaign env i st).0 ≡ true)
        × ((activate_campaign env i st).1.broker ≡ st.broker ++ (campaign_job i (to_domain r) ∷ []))
        × (process_campaign_job env draw i handed_over
            ≡ (ok tt, finished env (to_domain activated_row) made_for handed_over))
        × (map (λ m. m.recipient_phone) made_for
            ≡ map (λ q. normalize_phone q.phone) (recipients_of_row r site.contacts))
  activate_campaign-dispatches x xs h k e a b z l g p q n =
      let j = find_row-id i st.tables.campaigns r e in
      let c = activate_campaign-queues env i st r e j a z l h in
      let f = subst (λ y. find_row i y ≡ some activated_row) (sym c.1) (activated-found e) in
      let d =
        process_campaign_job-dispatches env draw i handed_over activated_row t x xs h k f
          (unfold update_row activated_of in refl) (unfold update_row activated_of to_domain in b)
          (unfold update_row in g) p q (same ∙ n) in
      let d' = subst Dispatches same d in (c.0, c.2, d'.0, d'.1)
    where
      same : recipients_of_row activated_row site.contacts ≡ recipients_of_row r site.contacts
      same =
          recipients-update_row env.now r (activated_of env.now r) site.contacts
            (unfold activated_of to_domain in refl)

      messages : List Recipient → List Message
      messages l = create_messages env.now draw (to_domain activated_row) t 0 l

      Dispatches : List Recipient → Type 0
      Dispatches l =
          (process_campaign_job env draw i handed_over
            ≡ (ok tt, finished env (to_domain activated_row) (messages l) handed_over))
          × (map (λ m. m.recipient_phone) (messages l) ≡ map (λ q. normalize_phone q.phone) l)
