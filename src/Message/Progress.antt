-- ===== src/Message/Progress.antt =====
-- Every call that changes a message moves it forward, so a message takes few of them.
use rcs_bulk_messaging_syste.Prelude.{
  ℕ, suc, ◌+◌, ◌*◌, ◌≤◌, ◌<◌, ◌≡◌, ◌≢◌, ◌⊎◌, inl, inr, true, false, arith,
}
use rcs_bulk_messaging_syste.Message.Types.{
  MessageStatus, pending, queued, sent, delivered, read, failed, expired, status_eq, Message,
}
use rcs_bulk_messaging_syste.Message.Lifecycle.{
  valid_transitions, can_transition_to, queue, mark_sent, mark_delivered, mark_read, mark_failed,
  is_terminal, mark_expired, is_permanent, should_retry, increment_retry,
}
use rcs_bulk_messaging_syste.Message.Steps.{
  Step, queues, sends, delivers, reads, fails, expires, retries,
}
use rcs_bulk_messaging_syste.Message.Invariant.{IsConsistent, Step-IsConsistent}

abbrev pub rank : MessageStatus → ℕ
rank pending = 0
rank queued = 1
rank sent = 2
rank delivered = 3
rank read = 4
rank failed = 5
rank expired = 5

-- The place of a message on its way: six for each retry, and the rank of its status.
abbrev pub progress : Message → ℕ
progress m = m.retry_count * 6 + rank m.status

-- A call leaves the message as it was, or moves it forward.
pub Step-progress : {m m' : Message} → Step m m' → (m' ≡ m) ⊎ (progress m < progress m')
unfolding queue mark_sent mark_delivered mark_read mark_failed mark_expired should_retry
    increment_retry valid_transitions status_eq
Step-progress (queues now h) = ground arith
Step-progress (sends now g x h) = ground arith
Step-progress (delivers now h) = ground arith
Step-progress (reads now h) = ground arith
Step-progress (fails now reason code message h) = ground arith
Step-progress (expires now h) = ground arith
Step-progress (retries now s h) = ground arith

-- What a status may become: the table of the code, a retry after a failure, or the expiry of a
-- message that is not in a final status, which the table does not hold.
pub Step-status :
    {m m' : Message}
    → Step m m'
    → (m' ≡ m)
      ⊎ (can_transition_to m'.status m ≡ true)
      ⊎ ((m.status ≡ failed) × (m'.status ≡ pending) × (m'.retry_count ≡ m.retry_count + 1))
      ⊎ ((is_terminal m ≡ false) × (m'.status ≡ expired))
unfolding queue mark_sent mark_delivered mark_read mark_failed mark_expired should_retry
    increment_retry valid_transitions status_eq
Step-status (queues now h) = ground arith
Step-status (sends now g x h) = ground arith
Step-status (delivers now h) = ground arith
Step-status (reads now h) = ground arith
Step-status (fails now reason code message h) = ground arith
Step-status (expires now h) = ground arith
Step-status (retries now s h) = ground arith

-- A read or an expired message is never changed again.
pub Step-final : {m m' : Message} → Step m m' → (m.status ≡ read) ⊎ (m.status ≡ expired) → m' ≡ m
unfolding queue mark_sent mark_delivered mark_read mark_failed mark_expired should_retry
    increment_retry valid_transitions status_eq
Step-final (queues now h) f = ground arith
Step-final (sends now g x h) f = ground arith
Step-final (delivers now h) f = ground arith
Step-final (reads now h) f = ground arith
Step-final (fails now reason code message h) f = ground arith
Step-final (expires now h) f = ground arith
Step-final (retries now s h) f = ground arith

-- A failed message is left as it is by every call but a retry, and that wants a retry to be left, a
-- window that is open, and a reason that is not permanent.
pub Step-failed :
    {m m' : Message}
    → Step m m'
    → m.status ≡ failed
    → (m' ≡ m)
      ⊎ ((m'.status ≡ pending)
          × (m'.retry_count ≡ m.retry_count + 1)
          × (m.retry_count < m.max_retries)
          × (is_permanent m.failure_reason ≡ false)
          × (m'.updated_at ≤ m.expires_at))
unfolding queue mark_sent mark_delivered mark_read mark_failed mark_expired should_retry
    increment_retry valid_transitions status_eq
Step-failed (queues now h) f = ground arith
Step-failed (sends now g x h) f = ground arith
Step-failed (delivers now h) f = ground arith
Step-failed (reads now h) f = ground arith
Step-failed (fails now reason code message h) f = ground arith
Step-failed (expires now h) f = ground arith
Step-failed (retries now s h) f = ground arith

-- `mark_expired` leaves the table: a queued, sent or delivered message expires, though the table has
-- no such transition.
pub mark_expired-outside_table :
    (now : ℕ) (m : Message)
    → (m.status ≡ queued) ⊎ (m.status ≡ sent) ⊎ (m.status ≡ delivered)
    → ((mark_expired now m).status ≡ expired) × (can_transition_to expired m ≡ false)
unfolding mark_expired can_transition_to
mark_expired-outside_table now m h = ground arith

-- A run of calls, with the number of those that changed the message.
pub data Run (m : Message) : ℕ → Message → Type 0 where
  start : Run m 0 m
  change : {n : ℕ} {m' m'' : Message} → Run m n m' → Step m' m'' → m'' ≢ m' → Run m (suc n) m''
  idle : {n : ℕ} {m' : Message} → Run m n m' → Step m' m' → Run m n m'

Run-progress : {m m' : Message} {n : ℕ} → Run m n m' → n + progress m ≤ progress m'
Run-progress start = omega arith
Run-progress (change r s d) = elim (Step-progress s) [
  | inl e ↦ absurd (d e)
  | inr lt ↦ omega (arith, Run-progress r)
]
Run-progress (idle r s) = Run-progress r

Run-IsConsistent : {m m' : Message} {n : ℕ} → IsConsistent m → Run m n m' → IsConsistent m'
Run-IsConsistent v start = v
Run-IsConsistent v (change r s d) = Step-IsConsistent s (Run-IsConsistent v r)
Run-IsConsistent v (idle r s) = Run-IsConsistent v r

progress-bounded : (m : Message) → IsConsistent m → progress m ≤ 23
progress-bounded m v = ground arith

-- However the calls come, a consistent message changes at most 23 times: no message is passed
-- around for ever.
pub Run-bounded : {m m' : Message} {n : ℕ} → IsConsistent m → Run m n m' → n ≤ 23
Run-bounded {m' = m'} v r =
    omega (arith, Run-progress r, progress-bounded m' (Run-IsConsistent v r))
