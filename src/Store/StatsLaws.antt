-- ===== src/Store/StatsLaws.antt =====
-- The two statistics against plain readings of the table.
use rcs_bulk_messaging_syste.Prelude.{
  ℕ, ◌+◌, ◌≤◌, ◌≡◌, inl, inr, Bool, true, ◌&&◌, ◌||◌, List, [], ◌∷◌, arith, Bool-cases, count,
}
use rcs_bulk_messaging_syste.Prelude.Membership.{any_mono, count_mono}
use rcs_bulk_messaging_syste.Message.Types.{MessageStatus, read, expired, status_eq}
use rcs_bulk_messaging_syste.Store.Rows.{MessageRow}
use rcs_bulk_messaging_syste.Store.Stats.{
  succeeded, unfinished, is_child_of, has_child, is_parent, is_delivered_row, is_sent_row,
  is_failed_row, is_read_row, get_delivery_stats,
}

-- The parents that none of sent, delivered and failed counts: those still pending or queued, and the
-- expired ones.
abbrev pub is_open_row : MessageRow → Bool
is_open_row r = unfinished r.status || status_eq r.status expired

split :
    (cid : ℕ) (all rows : List MessageRow)
    → count (is_parent cid) rows
      ≡ count (λ r. is_parent cid r && is_sent_row r) rows
        + count (λ r. is_parent cid r && is_delivered_row all r) rows
        + count (λ r. is_parent cid r && is_failed_row all r) rows
        + count (λ r. is_parent cid r && is_open_row r) rows
unfolding is_sent_row is_delivered_row is_failed_row status_eq
split cid all [] = omega arith
split cid all (r ∷ rows) = ground (arith, split cid all rows)

has_child_mono :
    (p q : MessageStatus → Bool) (rows : List MessageRow) (r : MessageRow)
    → ((s : MessageStatus) → p s ≡ true → q s ≡ true)
    → has_child p rows r ≡ true
    → has_child q rows r ≡ true
unfolding has_child
has_child_mono p q rows r f = any_mono _ _ rows (λ c h.
    elim (Bool-cases (is_child_of r.id c.parent_message_id)) [
      | inl t ↦ rw t (f c.status (rw t at h))
      | inr t ↦ cc (rw t at h)
    ])

read→succeeded : (s : MessageStatus) → status_eq s read ≡ true → succeeded s ≡ true
unfolding status_eq
read→succeeded s h = ground arith

is_read-is_delivered :
    (cid : ℕ) (all : List MessageRow) (r : MessageRow)
    → (is_parent cid r && is_read_row all r) ≡ true
    → (is_parent cid r && is_delivered_row all r) ≡ true
unfolding is_read_row is_delivered_row
is_read-is_delivered cid all r h = ground (
  arith,
  has_child_mono (λ s. status_eq s read) succeeded all r read→succeeded,
  read→succeeded r.status,
)

-- Every parent message of a campaign is counted once, as sent, delivered, failed or open, whatever
-- its children are; and no more are read than delivered.
pub get_delivery_stats_partition :
    (cid : ℕ) (rows : List MessageRow)
    → let s = get_delivery_stats cid rows in
      (s.total
        ≡ s.sent_count
          + s.delivered_count
          + s.failed_count
          + count (λ r. is_parent cid r && is_open_row r) rows)
      × (s.read_count ≤ s.delivered_count)
unfolding get_delivery_stats
get_delivery_stats_partition cid rows =
    (split cid rows rows, count_mono _ _ rows (is_read-is_delivered cid rows))
