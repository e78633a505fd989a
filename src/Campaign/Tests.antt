-- ===== src/Campaign/Tests.antt =====
-- A campaign that is created, given an audience, activated and cancelled.
use rcs_bulk_messaging_syste.Prelude.{refl, true, none, [], ◌∷◌}
use rcs_bulk_messaging_syste.Prelude.Text.{codes, strip}
use rcs_bulk_messaging_syste.Prelude.Results.{Result, ok, err}
use rcs_bulk_messaging_syste.Prelude.Time.{now_utc}
use rcs_bulk_messaging_syste.Campaign.Types.{draft, promotional, medium, no_stats, Campaign}
use rcs_bulk_messaging_syste.Campaign.Lifecycle.{create, activate, cancel, add_audience}
use rcs_bulk_messaging_syste.Campaign.Steps.{activates, adds, here, next}
use rcs_bulk_messaging_syste.Campaign.Invariant.{
  IsConsistent, joined, first_added, Counts, created-IsConsistent,
}
use rcs_bulk_messaging_syste.Campaign.Transitions.{ReturnsWhen, calls_return}

abbrev or_same : Result Campaign → Campaign → Campaign
or_same (ok c) d = c
or_same (err e) d = d

abbrev sale_row : Campaign
sale_row = record {
  id = 1;
  tenant_id = 3;
  name = codes "Sale";
  campaign_type = promotional;
  template_id = 9;
  status = draft;
  priority = medium;
  scheduled_for = none;
  created_at = 100;
  updated_at = 100;
  audience_ids = [];
  recipient_count = 0;
  enable_fallback = true;
  fallback_channel = codes "sms";
  rate_limit = none;
  stats = no_stats;
  metadata = [];
  tags = [];
  events = [];
}

abbrev sale : Campaign
unfolding create
sale = or_same (create 100 1 (codes "Sale") 3 9 promotional medium) sale_row

abbrev with_audience : Campaign
unfolding add_audience
with_audience = or_same (add_audience 110 5 10 sale) sale

abbrev active_sale : Campaign
unfolding activate
active_sale = or_same (activate 120 with_audience) sale

abbrev cancelled_sale : Campaign
unfolding cancel
cancelled_sale = or_same (cancel 130 (codes "stop") active_sale) sale

created-IsConsistent_example : IsConsistent active_sale × Counts ((5, 10) ∷ []) active_sale
unfolding create add_audience activate strip joined first_added
created-IsConsistent_example =
    created-IsConsistent 100 1 (codes "Sale") 3 9 promotional medium {c = sale} refl
      (next (next here (adds 110 5 10 refl)) (activates 120 refl))

calls_return_example : ReturnsWhen 100 (now_utc 200) (codes "stop") 5 10 sale
calls_return_example = calls_return 100 (now_utc 200) (codes "stop") 5 10 sale
