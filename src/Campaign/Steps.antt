-- ===== src/Campaign/Steps.antt =====
-- The calls that change one campaign, as a relation: each method of `class Campaign` when it returns.
use rcs_bulk_messaging_syste.Prelude.{ℕ, ◌≡◌}
use rcs_bulk_messaging_syste.Prelude.Text.{Text}
use rcs_bulk_messaging_syste.Prelude.Results.{ok}
use rcs_bulk_messaging_syste.Prelude.Time.{Datetime}
use rcs_bulk_messaging_syste.Campaign.Types.{Campaign}
use rcs_bulk_messaging_syste.Campaign.Lifecycle.{
  schedule, activate, pause, resume, complete, cancel, add_audience, StatsData,
  update_stats_from_db, collect_events,
}

pub data Step (c c' : Campaign) : Type 0 where
  schedules : (now : ℕ) (at : Datetime) → schedule now at c ≡ ok c' → Step c c'
  activates : (now : ℕ) → activate now c ≡ ok c' → Step c c'
  pauses : (now : ℕ) → pause now c ≡ ok c' → Step c c'
  resumes : (now : ℕ) → resume now c ≡ ok c' → Step c c'
  completes : (now : ℕ) → complete now c ≡ ok c' → Step c c'
  cancels : (now : ℕ) (reason : Text) → cancel now reason c ≡ ok c' → Step c c'
  adds :
      (now audience_id recipient_count : ℕ)
      → add_audience now audience_id recipient_count c ≡ ok c'
      → Step c c'
  updates : (now : ℕ) (d : StatsData) → (update_stats_from_db now d c).0 ≡ c' → Step c c'
  collects : (collect_events c).1 ≡ c' → Step c c'

pub data Reach (c : Campaign) : Campaign → Type 0 where
  here : Reach c c
  next : {c' c'' : Campaign} → Reach c c' → Step c' c'' → Reach c c''
