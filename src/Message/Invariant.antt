-- ===== src/Message/Invariant.antt =====
-- What holds of a message at every point of its life.
use rcs_bulk_messaging_syste.Prelude.{
  ℕ, ◌+◌, ◌≤◌, ◌≡◌, refl, subst, inl, inr, true, Option, none, some, List, [], ◌∷◌, ◌++◌, arith,
  Bool-cases, is_some, length,
}
use rcs_bulk_messaging_syste.Prelude.Text.{Text, starts_with}
use rcs_bulk_messaging_syste.Prelude.Results.{ok, ok_injective}
use rcs_bulk_messaging_syste.Phone.{plus}
use rcs_bulk_messaging_syste.Message.Types.{
  MessageStatus, pending, queued, sent, delivered, read, failed, expired, MessageChannel,
  FailureReason, status_eq, is_rcs, MessageContent, DeliveryAttempt, Message,
}
use rcs_bulk_messaging_syste.Message.Lifecycle.{
  create, valid_transitions, can_transition_to, record_attempt, queue, mark_sent, mark_delivered,
  mark_read, mark_failed, mark_expired, should_retry, increment_retry,
}
use rcs_bulk_messaging_syste.Message.Steps.{
  Step, queues, sends, delivers, reads, fails, expires, retries, Reach, here, next,
}
use rcs_bulk_messaging_syste.Phone.Laws.{starts_with-normalize_phone}

-- The attempts are numbered from `k + 1` on.
abbrev pub NumberedFrom : ℕ → List DeliveryAttempt → Type 0
NumberedFrom k [] = Unit
NumberedFrom k (a ∷ l) = (a.attempt_number ≡ k + 1) × NumberedFrom (k + 1) l

-- The marks that a status leaves: times, the aggregator, and the reason of a failure.
abbrev pub Marked : MessageStatus → Message → Type 0
Marked pending m = Unit
Marked queued m = is_some m.queued_at ≡ true
Marked sent m = (is_some m.sent_at ≡ true) × (is_some m.aggregator ≡ true)
Marked delivered m = (is_some m.sent_at ≡ true) × (is_some m.delivered_at ≡ true)
Marked read m =
    (is_rcs m.channel ≡ true)
    × (is_some m.sent_at ≡ true)
    × (is_some m.delivered_at ≡ true)
    × (is_some m.read_at ≡ true)
Marked failed m = (is_some m.failed_at ≡ true) × (is_some m.failure_reason ≡ true)
Marked expired m = Unit

pub record IsConsistent (m : Message) : Type 0 where
  pub phone : starts_with plus m.recipient_phone ≡ true
  pub window : m.expires_at ≡ m.created_at + 86400
  pub retries : m.retry_count ≤ m.max_retries
  pub limit : m.max_retries ≡ 3
  pub attempts : NumberedFrom 0 m.delivery_attempts
  pub marks : Marked m.status m

create-IsConsistent :
    (now id campaign tenant : ℕ) (phone : Text) (content : MessageContent) (priority : Text)
    (channel : MessageChannel) (parent : Option ℕ)
    → IsConsistent (create now id campaign tenant phone content priority channel parent)
unfolding create
create-IsConsistent now id campaign tenant phone content priority channel parent = record {
  phone = starts_with-normalize_phone phone;
  window = refl;
  retries = omega arith;
  limit = refl;
  attempts = tt;
  marks = tt;
}

NumberedFrom-append :
    (k : ℕ) (l : List DeliveryAttempt) (a : DeliveryAttempt)
    → NumberedFrom k l
    → a.attempt_number ≡ k + length l + 1
    → NumberedFrom k (l ++ a ∷ [])
NumberedFrom-append k [] a h e = (omega arith, tt)
NumberedFrom-append k (b ∷ l) a h e = (h.0, NumberedFrom-append (k + 1) l a h.1 (omega arith))

record_attempt-attempts :
    (now : ℕ) (s : MessageStatus) (g x c e : Option Text) (m : Message)
    → NumberedFrom 0 m.delivery_attempts
    → NumberedFrom 0 (record_attempt now s g x c e m).delivery_attempts
unfolding record_attempt
record_attempt-attempts now s g x c e m h =
    NumberedFrom-append 0 m.delivery_attempts _ h (omega arith)

mark_sent-attempts :
    (now : ℕ) (g : Text) (x : Option Text) (m : Message) {m' : Message}
    → mark_sent now g x m ≡ ok m'
    → NumberedFrom 0 m.delivery_attempts
    → NumberedFrom 0 m'.delivery_attempts
unfolding mark_sent
mark_sent-attempts now g x m h v = elim (Bool-cases (can_transition_to sent m)) [
  | inl e ↦
      subst (λ z. NumberedFrom 0 z.delivery_attempts) (ok_injective (rw e at h))
        (record_attempt-attempts now sent (some g) x none none
          (record m {
            status = sent;
            updated_at = now;
            sent_at = some now;
            aggregator = some g;
            external_id = x;
          })
          v)
  | inr e ↦ cc (rw e at h)
]

mark_failed-attempts :
    (now : ℕ) (r : FailureReason) (c e : Option Text) (m : Message) {m' : Message}
    → mark_failed now r c e m ≡ ok m'
    → NumberedFrom 0 m.delivery_attempts
    → NumberedFrom 0 m'.delivery_attempts
unfolding mark_failed
mark_failed-attempts now r c x m h v = elim (Bool-cases (can_transition_to failed m)) [
  | inl e ↦
      subst (λ z. NumberedFrom 0 z.delivery_attempts) (ok_injective (rw e at h))
        (record_attempt-attempts now failed m.aggregator none c x
          (record m {
            status = failed;
            updated_at = now;
            failed_at = some now;
            failure_reason = some r;
            error_code = c;
            error_message = x;
          })
          v)
  | inr e ↦ cc (rw e at h)
]

-- Every call keeps a message consistent.
pub Step-IsConsistent : {m m' : Message} → Step m m' → IsConsistent m → IsConsistent m'
unfolding queue mark_sent mark_delivered mark_read mark_failed mark_expired should_retry
    increment_retry valid_transitions status_eq
Step-IsConsistent (queues now h) v = ground arith
Step-IsConsistent {m} {m'} (sends now g x h) v =
    ground (arith, mark_sent-attempts now g x m h v.attempts)
Step-IsConsistent (delivers now h) v = ground arith
Step-IsConsistent (reads now h) v = ground arith
Step-IsConsistent {m} (fails now reason code message h) v =
    ground (arith, mark_failed-attempts now reason code message m h v.attempts)
Step-IsConsistent (expires now h) v = ground arith
Step-IsConsistent (retries now s h) v = ground arith

pub Reach-IsConsistent : {m m' : Message} → IsConsistent m → Reach m m' → IsConsistent m'
Reach-IsConsistent v here = v
Reach-IsConsistent v (next r s) = Step-IsConsistent s (Reach-IsConsistent v r)

-- From its creation on, over any calls, a message has a number that begins with a plus, a window of
-- 24 hours, at most three retries, attempts numbered from one, and the marks of its status: a sent
-- message has a time and an aggregator, a delivered one was sent, a read one was delivered over RCS,
-- and a failed one has a time and a reason.
pub create-Reach-IsConsistent :
    (now id campaign tenant : ℕ) (phone : Text) (content : MessageContent) (priority : Text)
    (channel : MessageChannel) (parent : Option ℕ) {m : Message}
    → Reach (create now id campaign tenant phone content priority channel parent) m
    → IsConsistent m
create-Reach-IsConsistent now id campaign tenant phone content priority channel parent =
    Reach-IsConsistent
      (create-IsConsistent now id campaign tenant phone content priority channel parent)
