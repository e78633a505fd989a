-- ===== src/Queue.antt =====
-- The queue: apps/core/ports/queue.py and the publishing side of apps/adapters/queue/rabbitmq.py. The
-- broker is not part of the program: whether it takes a message is an argument, `accepts`, and what
-- it has taken is a list.
pub mod Consumer
use rcs_bulk_messaging_syste.Prelude.{
  ℕ, ◌-◌, Bool, Option, some, List, [], ◌∷◌, ◌++◌, if◌then◌else◌,
}
use rcs_bulk_messaging_syste.Prelude.Text.{Text, codes, text_eq, lower}
use rcs_bulk_messaging_syste.Prelude.Results.{Exn, queue_exception, Result, ok, err, ◌>>=◌}
use rcs_bulk_messaging_syste.Prelude.Time.{Datetime, utcnow, datetime_le}

pub data QueuePriority : Type 0 where
  low_priority medium_priority high_priority urgent_priority : QueuePriority

-- The payload of each job in the program is the identifier of one message or campaign.
pub record QueueMessage : Type 0 where
  pub id : ℕ
  pub queue_name : Text
  pub payload : ℕ
  pub priority : QueuePriority
  pub delay : Option ℕ
  pub max_retries : ℕ

abbrev pub Broker : Type 0
Broker = List QueueMessage

abbrev pub publish_failed : Exn
publish_failed = queue_exception (codes "Enqueue failed")

-- `enqueue`: the message is published, or the failure of the broker is raised.
unfoldable pub enqueue : (QueueMessage → Bool) → QueueMessage → Broker → Result Broker
enqueue accepts m b = if accepts m then ok (b ++ m ∷ []) else err publish_failed

abbrev pub batch_failed : Exn
batch_failed = queue_exception (codes "Batch enqueue failed")

-- `enqueue_batch`: it stops at the first failure; what was published before stays published.
unfoldable pub enqueue_batch :
    (QueueMessage → Bool) → List QueueMessage → Broker → Result (Unit {0}) × Broker
enqueue_batch accepts [] b = (ok tt, b)
enqueue_batch accepts (m ∷ ms) b =
    let rest = enqueue_batch accepts ms (b ++ m ∷ []) in
    if accepts m then rest else (err batch_failed, b)

-- `schedule`: the time is compared with `datetime.utcnow()`.
unfoldable pub schedule :
    (QueueMessage → Bool) → ℕ → QueueMessage → Datetime → Broker → Result Broker
unfolding enqueue datetime_le
schedule accepts now m scheduled_for b = do
  due ← datetime_le scheduled_for (utcnow now)
  (if due
      then enqueue accepts m b
      else enqueue accepts (record m { delay = some (scheduled_for.instant - now) }) b)

-- `_map_priority` of the delivery service, and of the orchestrator without the `lower()`.
unfoldable pub priority_of : Text → QueuePriority
priority_of p =
    if text_eq p (codes "low")
    then low_priority
    else if text_eq p (codes "medium")
    then medium_priority
    else if text_eq p (codes "high")
    then high_priority
    else if text_eq p (codes "urgent")
    then urgent_priority
    else medium_priority

unfoldable pub map_priority : Text → QueuePriority
unfolding priority_of
map_priority p = priority_of (lower p)
