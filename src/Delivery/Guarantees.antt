-- ===== src/Delivery/Guarantees.antt =====
-- What a delivery job does, seen from outside: the tables, the broker and the aggregator.
use rcs_bulk_messaging_syste.Prelude.{
  ℕ, ◌+◌, ◌≡◌, refl, sym, ap, ◌∙◌, subst, ◌≢◌, ◌⊎◌, inl, inr, false, none, some, [], ◌∷◌, ◌++◌,
  arith, if◌then◌else◌, Bool-cases, Option-cases,
}
use rcs_bulk_messaging_syste.Prelude.Results.{Result, ok, err}
use rcs_bulk_messaging_syste.Message.Types.{
  MessageStatus, pending, queued, sent, failed, sms, status_eq, Message,
}
use rcs_bulk_messaging_syste.Message.Lifecycle.{create}
use rcs_bulk_messaging_syste.Message.Fallback.{fallback_child}
use rcs_bulk_messaging_syste.Store.Rows.{get_by_id}
use rcs_bulk_messaging_syste.Queue.{QueueMessage}
use rcs_bulk_messaging_syste.Delivery.World.{Env, World, Session, transaction}
use rcs_bulk_messaging_syste.Delivery.Send.{job_for, deliver, process_message_delivery}
use rcs_bulk_messaging_syste.Store.Status.{row_status, mark_of, row_mark, row_mark-status}
use rcs_bulk_messaging_syste.Delivery.Attempt.{IsOpen, deliver_outcome}
use rcs_bulk_messaging_syste.Delivery.Outcome.{Settled, SettledOr}
use rcs_bulk_messaging_syste.Prelude.{◌≢◌}
use rcs_bulk_messaging_syste.Delivery.Jobs.{is_processed, process_message_job}
use rcs_bulk_messaging_syste.Delivery.Saved.{SavedOr, deliver-saved}

-- A job whose message was loaded.
pub loaded-job :
    (env : Env) (id : ℕ) (w : World) {m : Message}
    → get_by_id id w.messages ≡ some m
    → process_message_job env id w ≡ (
        if is_processed m
        then (ok tt, w)
        else transaction w (deliver env (record { message = m; world = w })))
unfolding process_message_job process_message_delivery
loaded-job env id w h = rw (h, h) refl

pub missing-job :
    (env : Env) (id : ℕ) (w : World)
    → get_by_id id w.messages ≡ none
    → process_message_job env id w ≡ (ok tt, w)
unfolding process_message_job
missing-job env id w h = rw h refl

pub is_processed-IsOpen : (m : Message) → is_processed m ≡ false → IsOpen m
unfolding is_processed status_eq
is_processed-IsOpen m h = ground arith

pub open-not_processed : (m : Message) → IsOpen m → is_processed m ≡ false
unfolding is_processed status_eq
open-not_processed m h = ground arith

-- A job does nothing, or delivers a message that is pending or queued.
pub job-cases :
    (P : Result (Unit {0}) × World → Type 0) (env : Env) (id : ℕ) (w : World)
    → P (ok tt, w)
    → ((m : Message)
        → get_by_id id w.messages ≡ some m
        → IsOpen m
        → P (transaction w (deliver env (record { message = m; world = w }))))
    → P (process_message_job env id w)
job-cases P env id w idle work = elim (Option-cases (get_by_id id w.messages)) [
  | inl e ↦ subst P (sym (missing-job env id w e)) idle
  | inr (m, e) ↦ subst P (sym (loaded-job env id w e)) (elim (Bool-cases (is_processed m)) [
    | inl p ↦ rw p idle
    | inr p ↦ rw p (work m e (is_processed-IsOpen m p))
  ])
]

-- What a job has published before its commit raises stays published.
abbrev pub BrokerKept : Result (Unit {0}) → World → World → Type 0
BrokerKept (ok _) w w' = w'.broker ≡ w.broker
BrokerKept (err _) w w' =
    (w'.broker ≡ w.broker) ⊎ ((q : QueueMessage) × (w'.broker ≡ w.broker ++ q ∷ []))

abbrev UnchangedIfRaises : Result (Unit {0}) → World → Result (Unit {0}) × World → Type 0
UnchangedIfRaises c w (ok _, w') = Unit
UnchangedIfRaises c w (err _, w') =
    (w'.messages ≡ w.messages) × (w'.campaigns ≡ w.campaigns) × BrokerKept c w w'

-- How a job that worked on `m` leaves its row and the broker.
abbrev pub JobSettled : Env → Message → World → World → Type 0
JobSettled env m w w' =
    ((row_status m.id w'.messages ≡ some sent) × (w'.broker ≡ w.broker))
    ⊎ ((m' : Message) × ((m'.id ≡ m.id)
          × (row_mark m.id w'.messages ≡ some (mark_of m'))
          × (m'.status ≡ pending)
          × (m'.retry_count ≡ m.retry_count + 1)
          × (w'.broker ≡ w.broker ++ job_for m' ∷ [])))
    ⊎ ((row_status m.id w'.messages ≡ some failed)
        × ((c : Message) × ((row_mark c.id w'.messages ≡ some (mark_of c))
              × (c.status ≡ pending)
              × (c.parent_message_id ≡ some m.id)
              × (c.channel ≡ sms)
              × (w'.broker ≡ w.broker ++ job_for c ∷ []))))
    ⊎ ((row_status m.id w'.messages ≡ some failed) × (w'.broker ≡ w.broker))

abbrev pub JobSettledIfReturns : Env → Message → World → Result (Unit {0}) × World → Type 0
JobSettledIfReturns env m w (ok _, w') = JobSettled env m w w'
JobSettledIfReturns env m w (err _, w') = Unit

row_outcome :
    (env : Env) (s s' : Session)
    → s'.message.id ≡ s.message.id
    → row_mark s'.message.id s'.world.messages ≡ some (mark_of s'.message)
    → Settled env s s'
    → JobSettled env s.message s.world s'.world
unfolding fallback_child create
row_outcome env s s' i h k = elim k [
  | inl (t, b) ↦ inl (row t, b)
  | inr (inl (t, n, b)) ↦ inr (inl (s'.message, (i, marked, t, n, b)))
  | inr (inr (inl (t, b, k))) ↦
      let c = fallback_child env.show env.now env.fresh_id s'.message in
      inr (inr (inl (row t, (c, (k, refl, ap some i, refl, b)))))
  | inr (inr (inr (t, b))) ↦ inr (inr (inr (row t, b)))
]
  where
    row :
        {t : MessageStatus}
        → s'.message.status ≡ t
        → row_status s.message.id s'.world.messages ≡ some t
    row {t} e =
        subst (λ k. row_status k s'.world.messages ≡ some t) i
          (row_mark-status s'.message.id s'.world.messages h ∙ ap some e)

    marked : row_mark s.message.id s'.world.messages ≡ some (mark_of s'.message)
    marked = subst (λ k. row_mark k s'.world.messages ≡ some (mark_of s'.message)) i h

settled_job :
    (env : Env) (s : Session) (o : Result (Unit {0}) × Session)
    → SavedOr s o
    → SettledOr env s o
    → JobSettledIfReturns env s.message s.world (transaction s.world o)
unfolding transaction
settled_job env s (ok u, s') h k = row_outcome env s s' h.0 h.1 k
settled_job env s (err e, s') h k = tt

-- A job that returns on a pending or queued message leaves its row in one of four ways: sent, with
-- nothing queued; pending again with one retry more, and a job queued for it; failed, and a pending SMS message
-- that has it as its parent saved, and a job queued for that; or failed, with nothing queued. It is never left as
-- queued. The identifier drawn for the child is not that of the message.
pub process_message_job-settles :
    (env : Env) (id : ℕ) (w w' : World) (m : Message)
    → get_by_id id w.messages ≡ some m
    → (m.status ≡ pending) ⊎ (m.status ≡ queued)
    → env.fresh_id ≢ m.id
    → process_message_job env id w ≡ (ok tt, w')
    → JobSettled env m w w'
unfolding is_processed
process_message_job-settles env id w w' m q o n h =
    let s : Session = record { message = m; world = w } in
    subst (JobSettledIfReturns env m w)
      (sym (
          loaded-job env id w q
          ∙ ap (λ b. if b then (ok tt, w) else transaction w (deliver env s))
              (open-not_processed m o))
        ∙ h)
      (settled_job env s (deliver env s) (deliver-saved env s n) (deliver_outcome env s o))
