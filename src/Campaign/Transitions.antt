-- ===== src/Campaign/Transitions.antt =====
-- The state machine of a campaign, stated apart from the code, and what ends it.
use rcs_bulk_messaging_syste.Prelude.{
  ℕ, ◌<◌, ◌≡◌, refl, ◌∙◌, ◌≢◌, ◌↔◌, ◌⊎◌, Bool, true, false, arith,
}
use rcs_bulk_messaging_syste.Prelude.Text.{Text}
use rcs_bulk_messaging_syste.Prelude.Results.{is_ok}
use rcs_bulk_messaging_syste.Prelude.Time.{Datetime}
use rcs_bulk_messaging_syste.Campaign.Types.{
  CampaignStatus, draft, scheduled, active, paused, completed, cancelled, Campaign,
}
use rcs_bulk_messaging_syste.Campaign.Lifecycle.{
  schedule, activate, pause, resume, complete, cancel, add_audience, update_stats_from_db,
  collect_events,
}
use rcs_bulk_messaging_syste.Campaign.Steps.{
  Step, schedules, activates, pauses, resumes, completes, cancels, adds, updates, collects, Reach,
  here, next,
}

-- The transitions of the lifecycle.
abbrev pub allowed : CampaignStatus → CampaignStatus → Bool
allowed draft scheduled = true
allowed draft active = true
allowed scheduled active = true
allowed active paused = true
allowed paused active = true
allowed active completed = true
allowed paused completed = true
allowed completed _ = false
allowed cancelled _ = false
allowed _ cancelled = true
allowed _ _ = false

-- A call leaves the status of a campaign as it was, or takes it along the lifecycle.
pub Step-allowed :
    {c c' : Campaign} → Step c c' → (c'.status ≡ c.status) ⊎ (allowed c.status c'.status ≡ true)
unfolding schedule activate pause resume complete cancel add_audience update_stats_from_db
    collect_events
Step-allowed (schedules now at h) = ground arith
Step-allowed (activates now h) = ground arith
Step-allowed (pauses now h) = ground arith
Step-allowed (resumes now h) = ground arith
Step-allowed (completes now h) = ground arith
Step-allowed (cancels now reason h) = ground arith
Step-allowed (adds now a n h) = ground arith
Step-allowed (updates now d h) = ground arith
Step-allowed (collects h) = ground arith

-- What a final campaign keeps.
abbrev pub Kept : Campaign → Campaign → Type 0
Kept c c' =
    (c'.status ≡ c.status)
    × (c'.audience_ids ≡ c.audience_ids)
    × (c'.recipient_count ≡ c.recipient_count)
    × (c'.scheduled_for ≡ c.scheduled_for)

Step-final :
    {c c' : Campaign} → Step c c' → (c.status ≡ completed) ⊎ (c.status ≡ cancelled) → Kept c c'
unfolding schedule activate pause resume complete cancel add_audience update_stats_from_db
    collect_events
Step-final (schedules now at h) f = ground arith
Step-final (activates now h) f = ground arith
Step-final (pauses now h) f = ground arith
Step-final (resumes now h) f = ground arith
Step-final (completes now h) f = ground arith
Step-final (cancels now reason h) f = ground arith
Step-final (adds now a n h) f = ground arith
Step-final (updates now d h) f = ground arith
Step-final (collects h) f = ground arith

-- A campaign that is completed or cancelled keeps its status, its audiences, its recipients and its
-- schedule, whatever is called afterwards.
pub Reach-final :
    {c c' : Campaign} → Reach c c' → (c.status ≡ completed) ⊎ (c.status ≡ cancelled) → Kept c c'
Reach-final here f = (refl, refl, refl, refl)
Reach-final {c} (next {c' = m} r s) f =
    let k = Reach-final r f in
    let final : (m.status ≡ completed) ⊎ (m.status ≡ cancelled) = ground arith in
    let l = Step-final s final in (l.0 ∙ k.0, l.1 ∙ k.1, l.2 ∙ k.2, l.3 ∙ k.3)

-- When the calls return on a campaign.
abbrev pub ReturnsWhen : ℕ → Datetime → Text → ℕ → ℕ → Campaign → Type 0
ReturnsWhen now at reason audience_id n c =
    ((is_ok (schedule now at c) ≡ true)
      ↔ ((c.status ≡ draft) × (at.is_aware ≡ true) × (now < at.instant)))
    × ((is_ok (activate now c) ≡ true)
        ↔ (((c.status ≡ draft) ⊎ (c.status ≡ scheduled)) × (0 < c.recipient_count)))
    × ((is_ok (pause now c) ≡ true) ↔ (c.status ≡ active))
    × ((is_ok (resume now c) ≡ true) ↔ (c.status ≡ paused))
    × ((is_ok (complete now c) ≡ true) ↔ ((c.status ≡ active) ⊎ (c.status ≡ paused)))
    × ((is_ok (cancel now reason c) ≡ true) ↔ ((c.status ≢ completed) × (c.status ≢ cancelled)))
    × ((is_ok (add_audience now audience_id n c) ≡ true) ↔ (c.status ≡ draft))

-- Each call returns exactly here, else it raises: a draft is scheduled for a time with a zone that is
-- still to come; a draft or scheduled campaign with recipients is activated; an active one is paused;
-- a paused one is resumed; an active or paused one is completed; one that is neither completed nor
-- cancelled is cancelled; and a draft takes an audience.
pub calls_return :
    (now : ℕ) (at : Datetime) (reason : Text) (audience_id n : ℕ) (c : Campaign)
    → ReturnsWhen now at reason audience_id n c
unfolding schedule activate pause resume complete cancel add_audience
calls_return now at reason audience_id n c = (
  (ground arith, ground arith),
  (ground arith, ground arith),
  (ground arith, ground arith),
  (ground arith, ground arith),
  (ground arith, ground arith),
  (ground arith, ground arith),
  (ground arith, ground arith),
)
