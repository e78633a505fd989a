-- ===== src/Service/Laws.antt =====
-- When the calls of the service raise, and that they then change nothing.
use rcs_bulk_messaging_syste.Prelude.{
  ℕ, ◌≤◌, ◌≡◌, refl, sym, subst, inl, inr, Bool, true, false, some, List, [], ◌∷◌, arith, ◌==◌,
  ==_iff, Bool-cases, Option-cases, length, filter,
}
use rcs_bulk_messaging_syste.Prelude.Text.{Text}
use rcs_bulk_messaging_syste.Prelude.Results.{Result, ok, err, is_ok, Result-cases}
use rcs_bulk_messaging_syste.Prelude.Time.{Datetime, datetime_le}
use rcs_bulk_messaging_syste.Campaign.Types.{DomainEvent, Campaign}
use rcs_bulk_messaging_syste.Campaign.Lifecycle.{
  add_event, schedule, activate, pause, resume, complete, cancel, collect_events, ensure_status,
}
use rcs_bulk_messaging_syste.Store.Campaigns.{CampaignRow, get_by_id, find_row, to_domain}
use rcs_bulk_messaging_syste.Queue.{QueuePriority, QueueMessage, Broker, enqueue}
use rcs_bulk_messaging_syste.Queue
use rcs_bulk_messaging_syste.Delivery.World.{Env}
use rcs_bulk_messaging_syste.Service.Events.{
  EventRow, of_aggregate, next_version, save_event, save_events,
}
use rcs_bulk_messaging_syste.Service.Calls.{
  Tables, State, committed, save_and_publish, change, campaign_job, with_job, schedule_campaign,
  activate_campaign, pause_campaign, resume_campaign, cancel_campaign, complete_campaign,
}
use rcs_bulk_messaging_syste.Queue
use rcs_bulk_messaging_syste.Queue
use rcs_bulk_messaging_syste.Queue

abbrev pub Call : Type 0
Call = State → Result Campaign × State

-- The call raises, and leaves the tables and the broker as they were.
pub Refuses : State → Result Campaign × State → Type 0
Refuses s r = (is_ok r.0 ≡ false) × (r.1 ≡ s)

committed-Refuses :
    (r : Result (Campaign × Tables)) (s : State) → is_ok r ≡ false → Refuses s (committed r s)
unfolding committed Refuses
committed-Refuses (ok (c, t)) s h = ground (arith, h)
committed-Refuses (err e) s h = (refl, refl)

with_job-Refuses :
    (send : Campaign → Result Broker) (r : Result (Campaign × Tables)) (s : State)
    → ((c : Campaign) (t : Tables) → r ≡ ok (c, t) → is_ok (send c) ≡ false)
    → Refuses s (with_job send r s)
unfolding with_job Refuses
with_job-Refuses send (ok (c, t)) s h = ground (arith, h c t refl)
with_job-Refuses send (err e) s h = (refl, refl)

next_version-refuses : (rows : List EventRow) → 2 ≤ length rows → is_ok (next_version rows) ≡ false
unfolding next_version
next_version-refuses [] h = ground (arith, h)
next_version-refuses (e ∷ []) h = ground (arith, h)
next_version-refuses (e ∷ (f ∷ es)) h = refl

-- An event of a campaign that has two events is not stored.
save_events-refuses :
    (now i : ℕ) (e : DomainEvent) (es : List DomainEvent) (rows : List EventRow)
    → e.aggregate_id ≡ i
    → 2 ≤ length (filter (of_aggregate i) rows)
    → is_ok (save_events now (e ∷ es) rows) ≡ false
unfolding save_events save_event
save_events-refuses now i e es rows h k = ground (
  arith,
  next_version-refuses (filter (of_aggregate e.aggregate_id) rows)
      (subst (λ x. 2 ≤ length (filter (of_aggregate x) rows)) (sym h) k),
)

-- One event, of the campaign `i`.
unfoldable pub is_own : ℕ → List DomainEvent → Bool
is_own i (e ∷ []) = e.aggregate_id == i
is_own i _ = false

-- What a call adds to a campaign without pending events: one event of its own.
unfoldable pub Emits : (Campaign → Result Campaign) → Type 0
Emits f = (c c' : Campaign) → c.events ≡ [] → f c ≡ ok c' → is_own c.id c'.events ≡ true

pause-Emits : (now : ℕ) → Emits (pause now)
unfolding pause ensure_status add_event is_own Emits
pause-Emits now c c' h k = ground (arith, h, k)

resume-Emits : (now : ℕ) → Emits (resume now)
unfolding resume ensure_status add_event is_own Emits
resume-Emits now c c' h k = ground (arith, h, k)

complete-Emits : (now : ℕ) → Emits (complete now)
unfolding complete add_event is_own Emits
complete-Emits now c c' h k = ground (arith, h, k)

cancel-Emits : (now : ℕ) (reason : Text) → Emits (cancel now reason)
unfolding cancel add_event is_own Emits
cancel-Emits now reason c c' h k = ground (arith, h, k)

activate-Emits : (now : ℕ) → Emits (activate now)
unfolding activate add_event is_own Emits
activate-Emits now c c' h k = ground (arith, h, k)

schedule-Emits : (now : ℕ) (at : Datetime) → Emits (schedule now at)
unfolding schedule ensure_status add_event is_own Emits
schedule-Emits now at c c' h k = ground (arith, h, k)

get_by_id-loaded :
    (i : ℕ) (rows : List CampaignRow) (c : Campaign)
    → get_by_id i rows ≡ some c
    → (c.id ≡ i) × (c.events ≡ [])
unfolding get_by_id find_row to_domain
get_by_id-loaded i [] c h = ground (arith, h)
get_by_id-loaded i (r ∷ rows) c h = ground (arith, h, get_by_id-loaded i rows c)

own-refuses :
    (now i : ℕ) (es : List DomainEvent) (rows : List EventRow)
    → is_own i es ≡ true
    → 2 ≤ length (filter (of_aggregate i) rows)
    → is_ok (save_events now es rows) ≡ false
unfolding is_own
own-refuses now i [] rows h k = ground (arith, h)
own-refuses now i (e ∷ []) rows h k =
    save_events-refuses now i e [] rows ((==_iff e.aggregate_id i).0 h) k
own-refuses now i (e ∷ (f ∷ es)) rows h k = ground (arith, h)

publish-refuses :
    (env : Env) (i : ℕ) (c : Campaign) (t : Tables)
    → is_own i c.events ≡ true
    → 2 ≤ length (filter (of_aggregate i) t.events)
    → is_ok (save_and_publish env c t) ≡ false
unfolding save_and_publish collect_events
publish-refuses env i c t h k = ground (arith, own-refuses env.now i c.events t.events h k)

change-refuses :
    (env : Env) (i : ℕ) (f : Campaign → Result Campaign) (t : Tables)
    → Emits f
    → 2 ≤ length (filter (of_aggregate i) t.events)
    → is_ok (change env i f t) ≡ false
unfolding change Emits
change-refuses env i f t h k = elim (Option-cases (get_by_id i t.campaigns)) [
  | inl e ↦ rw e refl
  | inr (c, e) ↦
      let l = get_by_id-loaded i t.campaigns c e in
      elim (Result-cases (f c)) [
        | inr (x, m) ↦ rw (e, m) refl
        | inl (c', m) ↦
            rw (e, m)
              (publish-refuses env i c' t
                (subst (λ j. is_own j c'.events ≡ true) l.0 (h c c' l.1 m)) k)
      ]
]

unsent-Refuses :
    (send : Campaign → Result Broker) (r : Result (Campaign × Tables)) (s : State)
    → is_ok r ≡ false
    → Refuses s (with_job send r s)
unfolding with_job Refuses
unsent-Refuses send (ok (c, t)) s h = ground (arith, h)
unsent-Refuses send (err e) s h = (refl, refl)

-- The event store refuses the third event of a campaign, since it looks for the last one with a query that
-- may find one row at most. So once two events of a campaign are stored, each of the six calls of the service that
-- change its status raises, and leaves the tables and the broker as they were: schedule, activate, pause, resume,
-- complete and cancel. The recalculation of the statistics, which stores no event, is not among them.
pub third_event-refused :
    (env : Env) (i : ℕ) (at : Datetime) (reason : Text) (s : State)
    → 2 ≤ length (filter (of_aggregate i) s.tables.events)
    → Refuses s (schedule_campaign env i at s)
      × Refuses s (activate_campaign env i s)
      × Refuses s (pause_campaign env i s)
      × Refuses s (resume_campaign env i s)
      × Refuses s (complete_campaign env i s)
      × Refuses s (cancel_campaign env i reason s)
unfolding schedule_campaign activate_campaign pause_campaign resume_campaign complete_campaign
    cancel_campaign
third_event-refused env i at reason s h = (
  unsent-Refuses _ _ s (change-refuses env i _ s.tables (schedule-Emits env.now at) h),
  unsent-Refuses _ _ s (change-refuses env i _ s.tables (activate-Emits env.now) h),
  committed-Refuses _ s (change-refuses env i _ s.tables (pause-Emits env.now) h),
  committed-Refuses _ s (change-refuses env i _ s.tables (resume-Emits env.now) h),
  committed-Refuses _ s (change-refuses env i _ s.tables (complete-Emits env.now) h),
  committed-Refuses _ s (change-refuses env i _ s.tables (cancel-Emits env.now reason) h),
)

change-fails :
    (env : Env) (i : ℕ) (f : Campaign → Result Campaign) (t : Tables)
    → ((c : Campaign) → is_ok (f c) ≡ false)
    → is_ok (change env i f t) ≡ false
unfolding change
change-fails env i f t h = elim (Option-cases (get_by_id i t.campaigns)) [
  | inl e ↦ rw e refl
  | inr (c, e) ↦ elim (Result-cases (f c)) [
    | inr (x, m) ↦ rw (e, m) refl
    | inl (c', m) ↦ ground (arith, m, h c)
  ]
]

schedule-naive :
    (now : ℕ) (at : Datetime) (c : Campaign)
    → at.is_aware ≡ false
    → is_ok (schedule now at c) ≡ false
unfolding schedule datetime_le
schedule-naive now at c h = ground (arith, h)

queue_schedule-aware :
    (accepts : QueueMessage → Bool) (now : ℕ) (m : QueueMessage) (at : Datetime) (b : Broker)
    → at.is_aware ≡ true
    → is_ok (Queue.schedule accepts now m at b) ≡ false
unfolding Queue.schedule datetime_le
queue_schedule-aware accepts now m at b h = ground (arith, h)

-- A campaign is never scheduled: the call raises, whatever the time, and leaves the tables and the broker as they
-- were. The campaign wants a time with a zone, and the queue one without.
pub schedule_campaign-refused :
    (env : Env) (i : ℕ) (at : Datetime) (s : State) → Refuses s (schedule_campaign env i at s)
unfolding schedule_campaign
schedule_campaign-refused env i at s = elim (Bool-cases at.is_aware) [
  | inl e ↦
      with_job-Refuses _ _ s
        (λ c t k. queue_schedule-aware env.accepts env.now (campaign_job i c) at s.broker e)
  | inr e ↦
      unsent-Refuses _ _ s
        (change-fails env i (schedule env.now at) s.tables (λ c. schedule-naive env.now at c e))
]
