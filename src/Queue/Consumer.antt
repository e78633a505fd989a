-- ===== src/Queue/Consumer.antt =====
-- `subscribe` of apps/adapters/queue/rabbitmq.py, for a number of deliveries. The client library is not part of the
-- program: its `process` acknowledges a message when the body returns, and puts it back in its place when the body
-- raises; what it makes of a second rejection of the same message, `reject(requeue)`, is an argument, `rejects`. The
-- handler works on a state of any type.
use rcs_bulk_messaging_syste.Prelude.{
  ℕ, zero, suc, ◌+◌, ◌≡◌, refl, ap, ◌∙◌, inl, inr, Bool, true, false, List, [], ◌∷◌, ltb,
  if◌then◌else◌, Bool-cases, length,
}
use rcs_bulk_messaging_syste.Prelude.Text.{Text, codes}
use rcs_bulk_messaging_syste.Prelude.Results.{Exn, queue_exception, Result, ok, err}
use rcs_bulk_messaging_syste.Queue.{QueueMessage}

-- A message in the queue, with its two headers.
pub record Stored : Type 0 where
  pub message : QueueMessage
  pub x_retry_count : ℕ
  pub x_max_retries : ℕ

-- As `enqueue` and `enqueue_batch` publish it.
unfoldable pub with_headers : QueueMessage → Stored
with_headers m = record { message = m; x_retry_count = 0; x_max_retries = m.max_retries }

pub record QueueJob : Type 0 where
  pub id : ℕ
  pub queue_name : Text
  pub payload : ℕ
  pub attempt : ℕ
  pub max_retries : ℕ

unfoldable pub job_of : Stored → QueueJob
job_of m = record {
  id = m.message.id;
  queue_name = m.message.queue_name;
  payload = m.message.payload;
  attempt = m.x_retry_count + 1;
  max_retries = m.message.max_retries;
}

abbrev pub subscribe_failed : Exn
subscribe_failed = queue_exception (codes "Subscribe failed")

abbrev pub Handler : Type 0 → Type 0
Handler S = QueueJob → S → Result (Unit {0}) × S

module _ {S : Type 0} where
  -- One message: what the handler does with it, and the queue after it.
  unfoldable pub settle :
      (Bool → Result (Unit {0}))
      → Stored
      → List Stored
      → Result (Unit {0}) × S
      → Result (Unit {0}) × List Stored × S
  settle rejects m rest (ok u, s) = (ok tt, rest, s)
  settle rejects m rest (err e, s) =
      ((if ltb m.x_retry_count m.x_max_retries then rejects true else rejects false), m ∷ rest, s)

  unfoldable pub go_on :
      (List Stored → S → Result (Unit {0}) × List Stored × S)
      → Result (Unit {0}) × List Stored × S
      → Result (Unit {0}) × List Stored × S
  go_on next (ok u, q, s) = next q s
  go_on next (err e, q, s) = (err subscribe_failed, q, s)

  unfoldable pub subscribe :
      (Bool → Result (Unit {0}))
      → Handler S
      → ℕ
      → List Stored
      → S
      → Result (Unit {0}) × List Stored × S
  subscribe rejects h zero q s = (ok tt, q, s)
  subscribe rejects h (suc n) [] s = (ok tt, [], s)
  subscribe rejects h (suc n) (m ∷ ms) s =
      go_on (subscribe rejects h n) (settle rejects m ms (h (job_of m) s))

  -- The handler returns on each message, one after the other, and what it leaves.
  unfoldable pub AllReturn : Handler S → List Stored → S → Type 0
  AllReturn h [] s = Unit {0}
  AllReturn h (m ∷ ms) s = ((h (job_of m) s).0 ≡ ok tt) × AllReturn h ms (h (job_of m) s).1

  unfoldable pub handled : Handler S → List Stored → S → S
  handled h [] s = s
  handled h (m ∷ ms) s = handled h ms (h (job_of m) s).1

  settle-returned :
      (rejects : Bool → Result (Unit {0})) (m : Stored) (rest : List Stored)
      (o : Result (Unit {0}) × S)
      → o.0 ≡ ok tt
      → settle rejects m rest o ≡ (ok tt, rest, o.1)
  unfolding settle
  settle-returned rejects m rest (ok u, s) h = refl
  settle-returned rejects m rest (err e, s) h = cc h

  -- Jobs on which the handler returns are handled once each, in the order of the queue, and the queue is empty
  -- after as many deliveries.
  pub subscribe-handled :
      (rejects : Bool → Result (Unit {0})) (h : Handler S) (ms : List Stored) (s : S)
      → AllReturn h ms s
      → subscribe rejects h (length ms) ms s ≡ (ok tt, [], handled h ms s)
  unfolding subscribe AllReturn handled go_on
  subscribe-handled rejects h [] s a = refl
  subscribe-handled rejects h (m ∷ ms) s a =
      ap (go_on (subscribe rejects h (length ms)))
        (settle-returned rejects m ms (h (job_of m) s) a.0)
      ∙ subscribe-handled rejects h ms (h (job_of m) s).1 a.1

  -- A handler that raises ends the subscription, where a second rejection raises: the message is back in its place.
  pub subscribe-raised :
      (rejects : Bool → Result (Unit {0})) (h : Handler S) (n : ℕ) (m : Stored) (ms : List Stored)
      (s s' : S) (e : Exn)
      → ((requeue : Bool) → (x : Exn) × (rejects requeue ≡ err x))
      → h (job_of m) s ≡ (err e, s')
      → subscribe rejects h (suc n) (m ∷ ms) s ≡ (err subscribe_failed, m ∷ ms, s')
  unfolding subscribe settle go_on
  subscribe-raised rejects h n m ms s s' e r k =
      let (x, a) = r true in
      let (y, b) = r false in
      elim (Bool-cases (ltb m.x_retry_count m.x_max_retries)) [
        | inl c ↦ rw (k, c, a) refl
        | inr c ↦ rw (k, c, b) refl
      ]

  -- A worker that is started `k` times, for at most `n` deliveries each time, as docker-compose.prod.yml has it with
  -- `restart: always`.
  unfoldable pub restarted :
      (Bool → Result (Unit {0})) → Handler S → ℕ → ℕ → List Stored → S → List Stored × S
  restarted rejects h n zero q s = (q, s)
  restarted rejects h n (suc k) q s =
      let o = subscribe rejects h n q s in restarted rejects h n k o.1 o.2
