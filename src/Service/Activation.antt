-- ===== src/Service/Activation.antt =====
-- What the activation of a campaign leaves.
use rcs_bulk_messaging_syste.Prelude.{
  ℕ, ◌≤◌, ◌≡◌, refl, sym, ap, ◌∙◌, subst, inl, inr, Bool, true, false, some, List, [], ◌∷◌, ◌++◌,
  arith, ◌==◌, ==_iff, length, filter,
}
use rcs_bulk_messaging_syste.Prelude.Text.{codes}
use rcs_bulk_messaging_syste.Prelude.Results.{Result, ok, is_ok, Result-cases}
use rcs_bulk_messaging_syste.Campaign.Types.{
  DomainEvent, Campaign, draft, active, campaign_status_eq,
}
use rcs_bulk_messaging_syste.Campaign.Lifecycle.{add_event, activate, collect_events}
use rcs_bulk_messaging_syste.Store.Campaigns.{CampaignRow, get_by_id, save, find_row, to_domain}
use rcs_bulk_messaging_syste.Queue.{QueueMessage, Broker, enqueue}
use rcs_bulk_messaging_syste.Delivery.World.{Env}
use rcs_bulk_messaging_syste.Service.Events.{
  EventRow, of_aggregate, next_version, save_event, save_events,
}
use rcs_bulk_messaging_syste.Service.Calls.{
  Tables, State, save_and_publish, change, campaign_job, with_job, activate_campaign,
}
use rcs_bulk_messaging_syste.Campaign.Types.{activated_data}
use rcs_bulk_messaging_syste.Service.Laws.{is_own}

-- The campaign of a row, activated.
unfoldable pub activated_of : ℕ → CampaignRow → Campaign
unfolding add_event
activated_of now r =
    add_event now (codes "campaign.activated") (activated_data r.recipient_count)
      (record (to_domain r) { status = active; updated_at = now })

activate-activated :
    (now : ℕ) (r : CampaignRow)
    → r.status ≡ draft
    → (r.recipient_count == 0) ≡ false
    → activate now (to_domain r) ≡ ok (activated_of now r)
unfolding activate activated_of campaign_status_eq to_domain
activate-activated now r h k = ground (arith, h, k)

next_version-ok : (rows : List EventRow) → length rows ≤ 1 → is_ok (next_version rows) ≡ true
unfolding next_version
next_version-ok [] h = refl
next_version-ok (e ∷ []) h = refl
next_version-ok (e ∷ (f ∷ rows)) h = ground (arith, h)

-- One event of a campaign that has one event at most is stored.
save_events-ok :
    (now i : ℕ) (es : List DomainEvent) (rows : List EventRow)
    → is_own i es ≡ true
    → length (filter (of_aggregate i) rows) ≤ 1
    → is_ok (save_events now es rows) ≡ true
unfolding is_own save_events save_event
save_events-ok now i [] rows h l = ground (arith, h)
save_events-ok now i (e ∷ (f ∷ es)) rows h l = ground (arith, h)
save_events-ok now i (e ∷ []) rows h l =
    let k = (==_iff e.aggregate_id i).0 h in
    let l' = subst (λ j. length (filter (of_aggregate j) rows) ≤ 1) (sym k) l in
    ground (arith, next_version-ok (filter (of_aggregate e.aggregate_id) rows) l')

activated-own : (now : ℕ) (r : CampaignRow) → is_own r.id (activated_of now r).events ≡ true
unfolding is_own activated_of to_domain
activated-own now r = ground arith

change-activated :
    (env : Env) (i : ℕ) (t : Tables) (r : CampaignRow)
    → find_row i t.campaigns ≡ some r
    → r.id ≡ i
    → r.status ≡ draft
    → (r.recipient_count == 0) ≡ false
    → length (filter (of_aggregate i) t.events) ≤ 1
    → (rows : List EventRow) × (change env i (activate env.now) t
        ≡ ok (
          record (activated_of env.now r) { events = [] },
          record { campaigns = save env.now (activated_of env.now r) t.campaigns; events = rows },
        ))
unfolding change get_by_id save_and_publish collect_events
change-activated env i t r e j h k l =
    let a = activate-activated env.now r h k in
    let own =
      subst (λ x. is_own x (activated_of env.now r).events ≡ true) j (activated-own env.now r) in
    let n = save_events-ok env.now i (activated_of env.now r).events t.events own l in
    elim (Result-cases (save_events env.now (activated_of env.now r).events t.events)) [
      | inl (rows, m) ↦ (rows, rw (e, a, m) refl)
      | inr (x, m) ↦ ground (arith, n, m)
    ]

with_job-sent :
    (send : Campaign → Result Broker) (c : Campaign) (t : Tables) (b : Broker) (s : State)
    → send c ≡ ok b
    → with_job send (ok (c, t)) s ≡ (ok c, record { tables = t; broker = b })
unfolding with_job
with_job-sent send c t b s h = rw (with_job, h) refl

enqueue-accepted :
    (accepts : QueueMessage → Bool) (m : QueueMessage) (b : Broker)
    → accepts m ≡ true
    → enqueue accepts m b ≡ ok (b ++ (m ∷ []))
unfolding enqueue
enqueue-accepted accepts m b h = rw h

-- A draft with recipients and at most one stored event is activated, if the broker takes its job: the call returns,
-- the campaign is saved as active, and the job is queued.
pub activate_campaign-queues :
    (env : Env) (i : ℕ) (s : State) (r : CampaignRow)
    → find_row i s.tables.campaigns ≡ some r
    → r.id ≡ i
    → r.status ≡ draft
    → (r.recipient_count == 0) ≡ false
    → length (filter (of_aggregate i) s.tables.events) ≤ 1
    → ((q : QueueMessage) → env.accepts q ≡ true)
    → let (o, s') = activate_campaign env i s in
      (is_ok o ≡ true)
      × (s'.tables.campaigns ≡ save env.now (activated_of env.now r) s.tables.campaigns)
      × (s'.broker ≡ s.broker ++ (campaign_job i (to_domain r) ∷ []))
unfolding activate_campaign
activate_campaign-queues env i s r e j h k l a =
    let (rows, c) = change-activated env i s.tables r e j h k l in
    let f =
      ap (λ x. with_job (λ c. enqueue env.accepts (campaign_job i c) s.broker) x s) c
      ∙ with_job-sent _ _ _ _ s (
          enqueue-accepted env.accepts
            (campaign_job i (record (activated_of env.now r) { events = [] })) s.broker (a _)) in
    (
      ap (λ x. is_ok x.0) f,
      ap (λ x. x.1.tables.campaigns) f,
      ap (λ x. x.1.broker) f ∙ unfold campaign_job activated_of to_domain in refl,
    )
