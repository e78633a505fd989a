-- ===== src/Store/Status.antt =====
-- The status column of a row, as the tables are written.
use rcs_bulk_messaging_syste.Prelude.{◌≢◌, ℕ, ◌≡◌, Option, none, some, List, [], ◌∷◌, arith}
use rcs_bulk_messaging_syste.Message.Types.{MessageStatus, MessageChannel, Message}
use rcs_bulk_messaging_syste.Store.Rows.{MessageRow, save, get_by_id}
use rcs_bulk_messaging_syste.Store.Rows.{find_row, to_model, update_row, to_domain}

abbrev status_of : Option MessageRow → Option MessageStatus
status_of none = none
status_of (some r) = some r.status

unfoldable pub row_status : ℕ → List MessageRow → Option MessageStatus
row_status i rows = status_of (find_row i rows)

pub row_status-save :
    (now : ℕ) (m : Message) (rows : List MessageRow)
    → row_status m.id (save now m rows) ≡ some m.status
unfolding row_status find_row save to_model update_row
row_status-save now m [] = ground arith
row_status-save now m (r ∷ rows) = ground (arith, row_status-save now m rows)

pub row_status-save_other :
    (now i : ℕ) (m : Message) (rows : List MessageRow)
    → (m.id ≢ i)
    → row_status i (save now m rows) ≡ row_status i rows
unfolding row_status find_row save to_model update_row
row_status-save_other now i m [] h = ground arith
row_status-save_other now i m (r ∷ rows) h = ground (arith, row_status-save_other now i m rows h)

-- What is loaded has the status of its row.
pub get_by_id-status :
    (i : ℕ) (rows : List MessageRow) {m : Message}
    → get_by_id i rows ≡ some m
    → row_status i rows ≡ some m.status
unfolding get_by_id row_status to_domain
get_by_id-status i rows h = ground arith

pub get_by_id-none :
    (i : ℕ) (rows : List MessageRow) → row_status i rows ≡ none → get_by_id i rows ≡ none
unfolding get_by_id row_status
get_by_id-none i rows h = ground arith

-- What a delivery decides of a message, as its row has it.
pub record Mark : Type 0 where
  pub status : MessageStatus
  pub retry_count : ℕ
  pub channel : MessageChannel
  pub parent_message_id : Option ℕ

abbrev pub mark_of : Message → Mark
mark_of m = record {
  status = m.status;
  retry_count = m.retry_count;
  channel = m.channel;
  parent_message_id = m.parent_message_id;
}

abbrev mark_of_row : Option MessageRow → Option Mark
mark_of_row none = none
mark_of_row (some r) = some (record {
  status = r.status;
  retry_count = r.retry_count;
  channel = r.channel;
  parent_message_id = r.parent_message_id;
})

unfoldable pub row_mark : ℕ → List MessageRow → Option Mark
row_mark i rows = mark_of_row (find_row i rows)

pub row_mark-save :
    (now : ℕ) (m : Message) (rows : List MessageRow)
    → row_mark m.id (save now m rows) ≡ some (mark_of m)
unfolding row_mark find_row save to_model update_row
row_mark-save now m [] = ground arith
row_mark-save now m (r ∷ rows) = ground (arith, row_mark-save now m rows)

pub row_mark-save_other :
    (now i : ℕ) (m : Message) (rows : List MessageRow)
    → (m.id ≢ i)
    → row_mark i (save now m rows) ≡ row_mark i rows
unfolding row_mark find_row save to_model update_row
row_mark-save_other now i m [] h = ground arith
row_mark-save_other now i m (r ∷ rows) h = ground (arith, row_mark-save_other now i m rows h)

pub row_mark-status :
    (i : ℕ) (rows : List MessageRow) {k : Mark}
    → row_mark i rows ≡ some k
    → row_status i rows ≡ some k.status
unfolding row_mark row_status
row_mark-status i rows h = ground (arith, h)
