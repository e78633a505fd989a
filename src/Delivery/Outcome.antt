-- ===== src/Delivery/Outcome.antt =====
-- What a delivery job does to the message and to the queue.
use rcs_bulk_messaging_syste.Prelude.{
  ℕ, ◌+◌, ◌≡◌, refl, sym, ◌∙◌, subst, ◌⊎◌, inl, inr, true, false, Option, none, some, List, [], ◌∷◌,
  ◌++◌, arith, Bool-cases,
}
use rcs_bulk_messaging_syste.Prelude.Text.{Text}
use rcs_bulk_messaging_syste.Prelude.Results.{Exn, Result, ok, err, Result-cases, is_ok}
use rcs_bulk_messaging_syste.Message.Types.{pending, queued, sent, failed, FailureReason, Message}
use rcs_bulk_messaging_syste.Message.Lifecycle.{
  record_attempt, mark_failed, should_retry, increment_retry,
}
use rcs_bulk_messaging_syste.Message.Fallback.{
  should_trigger_fallback, fallback_child, create_fallback_message,
}
use rcs_bulk_messaging_syste.Queue.{enqueue}
use rcs_bulk_messaging_syste.Store.Rows.{MessageRow}
use rcs_bulk_messaging_syste.Store.Status.{mark_of, row_mark, row_mark-save}
use rcs_bulk_messaging_syste.Delivery.World.{
  Env, Session, ◌>>=◌, ◌>>◌, this_message, call, save_message, save_other, publish, recalculate,
  bind-ok, call-ok,
}
use rcs_bulk_messaging_syste.Delivery.Send.{
  handle_fallback_inline, queue_message_for_delivery, job_for, failure_reason_of, error_code_of,
  exception_text, retry_or_fall_back, handle_delivery_failure,
}

-- The SMS child of a message has a row.
abbrev pub ChildSaved : Env → Message → List MessageRow → Type 0
ChildSaved env m rows =
    let c = fallback_child env.show env.now env.fresh_id m in row_mark c.id rows ≡ some (mark_of c)

-- How a job that returns leaves the message: sent, with nothing queued; pending again with one retry
-- more, and queued again; failed, with an SMS child queued; or failed, with nothing queued. It is never
-- left in between, as queued.
abbrev pub Settled : Env → Session → Session → Type 0
Settled env s s' =
    ((s'.message.status ≡ sent) × (s'.world.broker ≡ s.world.broker))
    ⊎ ((s'.message.status ≡ pending)
        × (s'.message.retry_count ≡ s.message.retry_count + 1)
        × (s'.world.broker ≡ s.world.broker ++ job_for s'.message ∷ []))
    ⊎ ((s'.message.status ≡ failed)
        × (s'.world.broker
            ≡ s.world.broker
              ++ job_for (fallback_child env.show env.now env.fresh_id s'.message) ∷ [])
        × ChildSaved env s'.message s'.world.messages)
    ⊎ ((s'.message.status ≡ failed) × (s'.world.broker ≡ s.world.broker))

abbrev pub SettledOr : Env → Session → Result (Unit {0}) × Session → Type 0
SettledOr env s (ok _, s') = Settled env s s'
SettledOr env s (err _, s') = s'.world.broker ≡ s.world.broker

pub fallback_outcome :
    (env : Env) (s : Session)
    → should_trigger_fallback s.message ≡ true
    → let (r, s') = handle_fallback_inline env s in
      (s'.message ≡ s.message)
      × (((r ≡ ok tt)
            × (s'.world.broker
                ≡ s.world.broker
                  ++ job_for (fallback_child env.show env.now env.fresh_id s.message) ∷ [])
            × ChildSaved env s.message s'.world.messages)
          ⊎ ((is_ok r ≡ false) × (s'.world.broker ≡ s.world.broker)))
unfolding handle_fallback_inline create_fallback_message save_other queue_message_for_delivery
    publish enqueue
fallback_outcome env s h = ground (
  arith,
  h,
  row_mark-save env.now (fallback_child env.show env.now env.fresh_id s.message) s.world.messages,
)

-- What is in play after a retry.
retried :
    (env : Env) (s : Session)
    → SettledOr env s (
        (call (λ m. ok (increment_retry env.now m))
            >> (save_message env >> (this_message >>= λ m. queue_message_for_delivery env m)))
          s)
unfolding call save_message queue_message_for_delivery publish enqueue increment_retry
retried env s = ground arith

saved_fallback :
    (env : Env) (s : Session) (cid : ℕ)
    → s.message.status ≡ failed
    → should_trigger_fallback s.message ≡ true
    → SettledOr env s ((save_message env >> (handle_fallback_inline env >> recalculate env cid)) s)
unfolding save_message recalculate
saved_fallback env s cid h t = ground (arith, fallback_outcome env (save_message env s).1)

given_up :
    (env : Env) (s : Session) (cid : ℕ)
    → s.message.status ≡ failed
    → SettledOr env s ((save_message env >> recalculate env cid) s)
unfolding save_message recalculate
given_up env s cid h = ground arith

retry_outcome :
    (env : Env) (s : Session)
    → s.message.status ≡ failed
    → SettledOr env s (retry_or_fall_back env s)
unfolding retry_or_fall_back
retry_outcome env s h = elim (Bool-cases (should_retry env.now s.message)) [
  | inl t ↦ rw t (retried env s)
  | inr t ↦ rw t (elim (Bool-cases (should_trigger_fallback s.message)) [
    | inl f ↦ rw f (saved_fallback env s s.message.campaign_id h f)
    | inr f ↦ rw f (given_up env s s.message.campaign_id h)
  ])
]

-- What is settled from a later point of the job is settled from its start.
pub from_failed :
    (env : Env) (s s' : Session)
    → s'.world.broker ≡ s.world.broker
    → s'.message.retry_count ≡ s.message.retry_count
    → (o : Result (Unit {0}) × Session) → SettledOr env s' o
    → SettledOr env s o
from_failed env s s' b n (ok u, s'') h = ground arith
from_failed env s s' b n (err e, s'') h = h ∙ b

-- The message object after `mark_failed`.
pub marked_failed :
    (now : ℕ) (r : FailureReason) (c x : Option Text) (m : Message)
    → (m.status ≡ pending) ⊎ (m.status ≡ queued)
    → (m' : Message) × (mark_failed now r c x m ≡ ok m')
      × (m'.status ≡ failed)
      × (m'.retry_count ≡ m.retry_count)
unfolding mark_failed
marked_failed now r c x m h = (
  record_attempt now failed m.aggregator none c x (record m {
    status = failed;
    updated_at = now;
    failed_at = some now;
    failure_reason = some r;
    error_code = c;
    error_message = x;
  }),
  ground arith,
  unfold record_attempt in refl,
  unfold record_attempt in refl,
)

pub failure_outcome :
    (env : Env) (e : Exn) (s : Session)
    → (s.message.status ≡ pending) ⊎ (s.message.status ≡ queued)
    → SettledOr env s (handle_delivery_failure env e s)
unfolding handle_delivery_failure
failure_outcome env e s h = elim (Result-cases (failure_reason_of e)) [
  | inr (x, t) ↦ rw t refl
  | inl (r, t) ↦
      let mark = mark_failed env.now r (error_code_of e) (some (exception_text e)) in
      let (m', q, f, n) =
        marked_failed env.now r (error_code_of e) (some (exception_text e)) s.message h in
      let s' : Session = record s { message = m' } in
      rw t (
        subst (SettledOr env s)
          (sym (bind-ok (call mark) (λ _. retry_or_fall_back env) s (call-ok mark s q)))
          (from_failed env s s' refl n (retry_or_fall_back env s') (retry_outcome env s' f)))
]
