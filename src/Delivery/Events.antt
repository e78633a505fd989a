-- ===== src/Delivery/Events.antt =====
-- Jobs and webhooks in any order, each delivered any number of times.
use rcs_bulk_messaging_syste.Prelude.{
  ℕ, ◌+◌, ◌≡◌, sym, ◌∙◌, subst, ◌≢◌, Bool, ◌&&◌, Option, none, List, [], ◌∷◌, ◌++◌, arith, ◌==◌,
  if◌then◌else◌, count,
}
use rcs_bulk_messaging_syste.Message.Types.{MessageStatus}
use rcs_bulk_messaging_syste.Prelude.Time.{Datetime}
use rcs_bulk_messaging_syste.Queue.{QueueMessage, enqueue, schedule}
use rcs_bulk_messaging_syste.Delivery.World.{
  Exchange, Env, World, Session, save_message, save_other, publish, publish_later, recalculate,
  ask_send,
}
use rcs_bulk_messaging_syste.Store.Status.{row_status, row_status-save_other}
use rcs_bulk_messaging_syste.Store.Unique.{AreUnique, save-AreUnique}
use rcs_bulk_messaging_syste.Prelude.{◌≢◌}
use rcs_bulk_messaging_syste.Delivery.Jobs.{process_message_job, process_webhook_job, Webhook}
use rcs_bulk_messaging_syste.Delivery.Frame.{IsFrame}
use rcs_bulk_messaging_syste.Delivery.Requests.{is_accepted}

-- One delivery by the broker, with what the world outside answers meanwhile.
pub data Event : Type 0 where
  job : Env → ℕ → Event
  webhook : Env → Webhook → Event

-- An exception goes back to the broker, which is free to deliver again.
abbrev pub run_event : Event → World → World
run_event (job env id) w = (process_message_job env id w).1
run_event (webhook env h) w = (process_webhook_job env h w).1

abbrev pub run_events : List Event → World → World
run_events [] w = w
run_events (e ∷ es) w = run_events es (run_event e w)

abbrev pub fresh_of : Event → ℕ
fresh_of (job env id) = env.fresh_id
fresh_of (webhook env h) = env.fresh_id

-- `uuid4` draws no identifier that is in the table.
abbrev pub AllFresh : List Event → World → Type 0
AllFresh [] w = Unit
AllFresh (e ∷ es) w = (row_status (fresh_of e) w.messages ≡ none) × AllFresh es (run_event e w)

-- How many requests for a message the aggregator has accepted.
abbrev pub is_accepted_for : ℕ → Exchange → Bool
is_accepted_for id x = (x.request.message_id == id) && is_accepted x

abbrev pub accepted_count : ℕ → World → ℕ
accepted_count id w = count (is_accepted_for id) w.exchanges

pub count-append :
    (p : Exchange → Bool) (l : List Exchange) (x : Exchange)
    → count p (l ++ x ∷ []) ≡ count p l + (if p x then 1 else 0)
count-append p [] x = ground arith
count-append p (y ∷ l) x = ground (arith, count-append p l x)

-- What the primitive actions do to the rows of other messages, and to the key.
abbrev pub Others : ℕ → Option MessageStatus → Session → Type 0
Others i st s = (s.message.id ≢ i) × (row_status i s.world.messages ≡ st)

pub Others-IsFrame :
    (env : Env) (i : ℕ) (st : Option MessageStatus) → env.fresh_id ≢ i → IsFrame env (Others i st)
unfolding save_message save_other publish publish_later recalculate ask_send enqueue schedule
Others-IsFrame env i st n = record {
  on_message = λ s m e p. ((λ k. p.0 (sym e ∙ k)), p.1);
  on_save = λ s p. (p.0, row_status-save_other env.now i s.message s.world.messages p.0 ∙ p.1);
  on_save_other = λ s m e p.
      (p.0, row_status-save_other env.now i m s.world.messages (λ k. n (sym e ∙ k)) ∙ p.1);
  on_publish = λ s q p. published s q p;
  on_publish_later = λ s q at p. later s q at p;
  on_recalculate = λ s cid p. p;
  on_ask = λ s q p. p;
}
  where
    published : (s : Session) (q : QueueMessage) → Others i st s → Others i st (publish env q s).1
    published s q p = ground arith

    later :
        (s : Session) (q : QueueMessage) (at : Datetime)
        → Others i st s
        → Others i st (publish_later env q at s).1
    later s q at p = ground arith

pub unique-IsFrame : (env : Env) → IsFrame env (λ s. AreUnique s.world.messages)
unfolding save_message save_other publish publish_later recalculate ask_send enqueue schedule
unique-IsFrame env = record {
  on_message = λ s m e p. p;
  on_save = λ s p. save-AreUnique env.now s.message s.world.messages p;
  on_save_other = λ s m e p. save-AreUnique env.now m s.world.messages p;
  on_publish = λ s q p. published s q p;
  on_publish_later = λ s q at p. later s q at p;
  on_recalculate = λ s cid p. p;
  on_ask = λ s q p. p;
}
  where
    published :
        (s : Session) (q : QueueMessage)
        → AreUnique s.world.messages
        → AreUnique (publish env q s).1.world.messages
    published s q p = subst AreUnique (sym (same s q)) p
      where
        same :
            (s : Session) (q : QueueMessage) → (publish env q s).1.world.messages ≡ s.world.messages
        same s q = ground arith

    later :
        (s : Session) (q : QueueMessage) (at : Datetime)
        → AreUnique s.world.messages
        → AreUnique (publish_later env q at s).1.world.messages
    later s q at p = subst AreUnique (sym (same s q at)) p
      where
        same :
            (s : Session) (q : QueueMessage) (at : Datetime)
            → (publish_later env q at s).1.world.messages ≡ s.world.messages
        same s q at = ground arith
