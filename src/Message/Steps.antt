-- ===== src/Message/Steps.antt =====
-- The calls that change one message, as a relation: each method of `class Message` when it returns,
-- and `increment_retry` where its caller makes it, behind `should_retry`
-- (apps/core/services/delivery_service.py, `_handle_delivery_failure`).
use rcs_bulk_messaging_syste.Prelude.{ℕ, ◌≡◌, true, Option}
use rcs_bulk_messaging_syste.Prelude.Text.{Text}
use rcs_bulk_messaging_syste.Prelude.Results.{ok}
use rcs_bulk_messaging_syste.Message.Types.{FailureReason, Message}
use rcs_bulk_messaging_syste.Message.Lifecycle.{
  queue, mark_sent, mark_delivered, mark_read, mark_failed, mark_expired, should_retry,
  increment_retry,
}

pub data Step (m m' : Message) : Type 0 where
  queues : (now : ℕ) → queue now m ≡ ok m' → Step m m'
  sends :
      (now : ℕ) (aggregator : Text) (external_id : Option Text)
      → mark_sent now aggregator external_id m ≡ ok m'
      → Step m m'
  delivers : (now : ℕ) → mark_delivered now m ≡ ok m' → Step m m'
  reads : (now : ℕ) → mark_read now m ≡ ok m' → Step m m'
  fails :
      (now : ℕ) (reason : FailureReason) (code message : Option Text)
      → mark_failed now reason code message m ≡ ok m'
      → Step m m'
  expires : (now : ℕ) → mark_expired now m ≡ m' → Step m m'
  retries : (now : ℕ) → should_retry now m ≡ true → increment_retry now m ≡ m' → Step m m'

pub data Reach (m : Message) : Message → Type 0 where
  here : Reach m m
  next : {m' m'' : Message} → Reach m m' → Step m' m'' → Reach m m''
