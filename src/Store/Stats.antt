-- ===== src/Store/Stats.antt =====
-- The statistics that the repositories compute over the message table: `get_delivery_stats` of
-- apps/adapters/db/repositories/message_repo.py, and the queries of `recalculate_stats` of
-- apps/adapters/db/repositories/campaign_repo.py.
use rcs_bulk_messaging_syste.Prelude.{
  ℕ, Bool, true, false, ◌&&◌, ◌||◌, not, Option, none, some, List, [], ◌∷◌, map, ◌==◌,
  if◌then◌else◌, is_some, filter, any, count,
}
use rcs_bulk_messaging_syste.Prelude.Text.{Text, text_eq}
use rcs_bulk_messaging_syste.Message.Types.{
  MessageStatus, pending, queued, sent, delivered, read, failed, status_eq,
}
use rcs_bulk_messaging_syste.Campaign.Lifecycle.{StatsData}
use rcs_bulk_messaging_syste.Store.Rows.{MessageRow}

-- `status IN ('delivered', 'read')`
abbrev pub succeeded : MessageStatus → Bool
succeeded delivered = true
succeeded read = true
succeeded _ = false

-- `status IN ('sent', 'delivered', 'read')`
abbrev pub progressed : MessageStatus → Bool
progressed sent = true
progressed delivered = true
progressed read = true
progressed _ = false

-- `status IN ('pending', 'queued')`
abbrev pub unfinished : MessageStatus → Bool
unfinished pending = true
unfinished queued = true
unfinished _ = false

-- `parent_message_id == id`
abbrev pub is_child_of : ℕ → Option ℕ → Bool
is_child_of i none = false
is_child_of i (some p) = p == i

-- `exists(select(1) where child.parent_message_id == id and test(child.status))`
unfoldable pub has_child : (MessageStatus → Bool) → List MessageRow → MessageRow → Bool
has_child test rows r = any (λ c. is_child_of r.id c.parent_message_id && test c.status) rows

-- `campaign_id == cid and parent_message_id is null`
abbrev pub is_parent : ℕ → MessageRow → Bool
is_parent cid r = r.campaign_id == cid && not (is_some r.parent_message_id)

unfoldable pub is_delivered_row : List MessageRow → MessageRow → Bool
unfolding has_child
is_delivered_row rows r =
    succeeded r.status || (status_eq r.status failed && has_child succeeded rows r)

unfoldable pub is_sent_row : MessageRow → Bool
is_sent_row r = status_eq r.status sent

unfoldable pub is_failed_row : List MessageRow → MessageRow → Bool
unfolding has_child
is_failed_row rows r = status_eq r.status failed && not (has_child succeeded rows r)

unfoldable pub is_read_row : List MessageRow → MessageRow → Bool
unfolding has_child
is_read_row rows r =
    status_eq r.status read
    || (status_eq r.status failed && has_child (λ s. status_eq s read) rows r)

pub record DeliveryStats : Type 0 where
  pub total : ℕ
  pub sent_count : ℕ
  pub delivered_count : ℕ
  pub failed_count : ℕ
  pub read_count : ℕ

unfoldable pub get_delivery_stats : ℕ → List MessageRow → DeliveryStats
unfolding is_delivered_row is_sent_row is_failed_row is_read_row
get_delivery_stats cid rows = record {
  total = count (is_parent cid) rows;
  sent_count = count (λ r. is_parent cid r && is_sent_row r) rows;
  delivered_count = count (λ r. is_parent cid r && is_delivered_row rows r) rows;
  failed_count = count (λ r. is_parent cid r && is_failed_row rows r) rows;
  read_count = count (λ r. is_parent cid r && is_read_row rows r) rows;
}

-- `recalculate_stats`: the tests on one parent row.
unfoldable pub sent_case : List MessageRow → MessageRow → Bool
unfolding has_child
sent_case rows r = progressed r.status || has_child progressed rows r

unfoldable pub delivered_case : List MessageRow → MessageRow → Bool
unfolding has_child
delivered_case rows r = succeeded r.status || has_child succeeded rows r

unfoldable pub read_case : List MessageRow → MessageRow → Bool
unfolding has_child
read_case rows r = status_eq r.status read || has_child (λ s. status_eq s read) rows r

unfoldable pub failed_case : List MessageRow → MessageRow → Bool
unfolding has_child
failed_case rows r =
    status_eq r.status failed && not (has_child (λ s. not (status_eq s failed)) rows r)

unfoldable pub pending_case : List MessageRow → MessageRow → Bool
unfolding has_child
pending_case rows r = unfinished r.status || has_child unfinished rows r

-- `group by recipient_phone`: the phones, each once, and the rows of one.
unfoldable pub distinct : List Text → List Text
distinct [] = []
distinct (p ∷ ps) = let rest = distinct ps in if any (text_eq p) rest then rest else p ∷ rest

unfoldable pub phones : List MessageRow → List Text
unfolding distinct
phones rows = distinct (map (λ r. r.recipient_phone) rows)

unfoldable pub group : List MessageRow → Text → List MessageRow
group rows p = filter (λ r. text_eq p r.recipient_phone) rows

-- `sum(max(case ... then 1 else 0))` over the groups: the number of phones with a row that passes.
unfoldable pub recipient_count_where : (MessageRow → Bool) → List MessageRow → ℕ
unfolding phones group
recipient_count_where test rows = count (λ p. any test (group rows p)) (phones rows)

-- `max(max(case ...))`; over no group it is null, which is false.
unfoldable pub recipient_any : (MessageRow → Bool) → List MessageRow → Bool
unfolding phones group
recipient_any test rows = any (λ p. any test (group rows p)) (phones rows)

-- The dictionary `stats_data`.
unfoldable pub aggregate : ℕ → List MessageRow → StatsData
unfolding recipient_count_where recipient_any sent_case delivered_case failed_case read_case
    pending_case
aggregate cid rows = record {
  messages_sent = recipient_count_where (sent_case rows) parents;
  messages_delivered = recipient_count_where (delivered_case rows) parents;
  messages_failed = recipient_count_where (failed_case rows) parents;
  messages_read = recipient_count_where (read_case rows) parents;
  fallback_triggered = count (λ r. r.campaign_id == cid && is_some r.parent_message_id) rows;
  has_pending = recipient_any (pending_case rows) parents;
}
  where
    parents : List MessageRow
    parents = filter (is_parent cid) rows
