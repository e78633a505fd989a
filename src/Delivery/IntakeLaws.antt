-- ===== src/Delivery/IntakeLaws.antt =====
-- What comes in: whom the messages go to, and what is saved and queued for them.
use rcs_bulk_messaging_syste.Prelude.{
  ℕ, suc, ◌≡◌, refl, sym, ap, ◌∙◌, ◌⊎◌, inl, inr, Bool, true, false, ◌&&◌, not, none, some, List,
  [], ◌∷◌, ◌++◌, map, if◌then◌else◌, Bool-cases, filter,
}
use rcs_bulk_messaging_syste.Prelude.Results.{Result, ok, err, is_ok}
use rcs_bulk_messaging_syste.Prelude.Text.{Text}
use rcs_bulk_messaging_syste.Phone.{normalize_phone}
use rcs_bulk_messaging_syste.Message.Types.{pending, rcs, MessageContent, Message}
use rcs_bulk_messaging_syste.Message.Lifecycle.{create}
use rcs_bulk_messaging_syste.Store.Rows.{save, save_batch}
use rcs_bulk_messaging_syste.Queue.{QueueMessage, Broker, enqueue, enqueue_batch}
use rcs_bulk_messaging_syste.Delivery.World.{Env, World}
use rcs_bulk_messaging_syste.Store.Rows.{to_model}
use rcs_bulk_messaging_syste.Store.Status.{row_status, row_status-save}
use rcs_bulk_messaging_syste.OptOut.{OptInRow, is_opted_out}
use rcs_bulk_messaging_syste.Delivery.Send.{job_for}
use rcs_bulk_messaging_syste.Delivery.Intake.{
  queue_new, send_message, create_all, valid_recipients, returned, send_message_batch,
}

-- What the broker takes of a batch: the messages before the first that it refuses.
abbrev pub taken_of : (QueueMessage → Bool) → List QueueMessage → List QueueMessage
taken_of accepts [] = []
taken_of accepts (q ∷ qs) = if accepts q then q ∷ taken_of accepts qs else []

abbrev pub all_taken : (QueueMessage → Bool) → List QueueMessage → Bool
all_taken accepts [] = true
all_taken accepts (q ∷ qs) = accepts q && all_taken accepts qs

++-nil : (b : Broker) → b ++ [] ≡ b
++-nil [] = refl
++-nil (q ∷ b) = ap (λ z. q ∷ z) (++-nil b)

++-cons : (b : Broker) (q : QueueMessage) (qs : Broker) → (b ++ q ∷ []) ++ qs ≡ b ++ q ∷ qs
++-cons [] q qs = refl
++-cons (p ∷ b) q qs = ap (λ z. p ∷ z) (++-cons b q qs)

-- A batch is published up to the first message that the broker refuses, in order; it returns exactly
-- when there is none, and what was published before a failure stays published.
pub enqueue_batch-taken :
    (accepts : QueueMessage → Bool) (qs : List QueueMessage) (b : Broker)
    → let (r, b') = enqueue_batch accepts qs b in
      (b' ≡ b ++ taken_of accepts qs) × (is_ok r ≡ all_taken accepts qs)
unfolding enqueue_batch
enqueue_batch-taken accepts [] b = (sym (++-nil b), refl)
enqueue_batch-taken accepts (q ∷ qs) b = elim (Bool-cases (accepts q)) [
  | inr e ↦ rw e (sym (++-nil b), refl)
  | inl e ↦
      let h = enqueue_batch-taken accepts qs (b ++ q ∷ []) in
      rw e (h.0 ∙ ++-cons b q (taken_of accepts qs), h.1)
]

create_all-phones :
    (env : Env) (draw : ℕ → ℕ) (campaign tenant : ℕ) (content : MessageContent) (priority : Text)
    (k : ℕ) (phones : List Text)
    → map (λ m. m.recipient_phone) (create_all env draw campaign tenant content priority k phones)
      ≡ map normalize_phone phones
unfolding create_all create
create_all-phones env draw campaign tenant content priority k [] = refl
create_all-phones env draw campaign tenant content priority k (p ∷ phones) =
    ap (λ z. normalize_phone p ∷ z)
      (create_all-phones env draw campaign tenant content priority (suc k) phones)

-- What a batch leaves, whether it returns or raises.
abbrev pub BatchSent :
    Env → List OptInRow → ℕ → List Text → World → Result (List Message) × World → Type 0
BatchSent env opt_ins tenant recipients w (r, w') =
    (ms : List Message) × (map (λ m. m.recipient_phone) ms
      ≡ map normalize_phone (filter (λ p. not (is_opted_out tenant p opt_ins)) recipients))
    × (w'.messages ≡ w.messages ++ map to_model ms)
    × (w'.broker ≡ w.broker ++ taken_of env.accepts (map job_for ms))
    × (is_ok r ≡ all_taken env.accepts (map job_for ms))

batch-returned :
    (env : Env) (opt_ins : List OptInRow) (tenant : ℕ) (recipients : List Text) (w : World)
    (ms : List Message) (o : Result (Unit {0}) × Broker)
    → map (λ m. m.recipient_phone) ms
      ≡ map normalize_phone (filter (λ p. not (is_opted_out tenant p opt_ins)) recipients)
    → (o.1 ≡ w.broker ++ taken_of env.accepts (map job_for ms))
      × (is_ok o.0 ≡ all_taken env.accepts (map job_for ms))
    → BatchSent env opt_ins tenant recipients w
        (returned ms o (record w { messages = w.messages ++ map to_model ms }))
unfolding returned
batch-returned env opt_ins tenant recipients w ms (ok u, b) p h = (ms, p, refl, h.0, h.1)
batch-returned env opt_ins tenant recipients w ms (err e, b) p h = (ms, p, refl, h.0, h.1)

-- A batch makes one message, in order, for each recipient that has not opted out, to the normalised
-- number; all are saved, whether the batch returns or raises; the jobs are queued up to the first that
-- the broker refuses, and the batch returns exactly when it refuses none.
pub send_message_batch_lem :
    (env : Env) (draw : ℕ → ℕ) (opt_ins : List OptInRow) (campaign tenant : ℕ)
    (recipients : List Text) (content : MessageContent) (priority : Text) (w : World)
    → BatchSent env opt_ins tenant recipients w
        (send_message_batch env draw opt_ins campaign tenant recipients content priority w)
unfolding send_message_batch save_batch valid_recipients
send_message_batch_lem env draw opt_ins campaign tenant recipients content priority w =
    let phones = filter (λ p. not (is_opted_out tenant p opt_ins)) recipients in
    let ms = create_all env draw campaign tenant content priority 0 phones in
    batch-returned env opt_ins tenant recipients w ms
      (enqueue_batch env.accepts (map job_for ms) w.broker)
      (create_all-phones env draw campaign tenant content priority 0 phones)
      (enqueue_batch-taken env.accepts (map job_for ms) w.broker)

-- What one message leaves: nothing for a number that has opted out, and else a pending row, and a job
-- if the broker takes it.
abbrev pub MessageSent : Env → List OptInRow → ℕ → Text → World → Result Message × World → Type 0
MessageSent env opt_ins tenant phone w (r, w') =
    ((is_opted_out tenant phone opt_ins ≡ true) × (is_ok r ≡ false) × (w' ≡ w))
    ⊎ ((is_opted_out tenant phone opt_ins ≡ false)
        × (row_status env.fresh_id w'.messages ≡ some pending)
        × ((m : Message) × (((r ≡ ok m) × (w'.broker ≡ w.broker ++ job_for m ∷ []))
              ⊎ ((is_ok r ≡ false) × (env.accepts (job_for m) ≡ false) × (w'.broker ≡ w.broker)))))

-- A message to a number that has opted out is refused, and nothing is changed. Another message is saved
-- as pending and its job queued; if the broker refuses the job, the call raises and the row stays, with
-- no job for it.
pub send_message_lem :
    (env : Env) (opt_ins : List OptInRow) (campaign tenant : ℕ) (phone : Text)
    (content : MessageContent) (priority : Text) (w : World)
    → MessageSent env opt_ins tenant phone w
        (send_message env opt_ins campaign tenant phone content priority w)
unfolding send_message queue_new enqueue
send_message_lem env opt_ins campaign tenant phone content priority w =
    elim (Bool-cases (is_opted_out tenant phone opt_ins)) [
      | inl o ↦ rw o (inl (refl, refl, refl))
      | inr o ↦ rw o (elim (Bool-cases (env.accepts (job_for m))) [
        | inl a ↦ rw a (inr (refl, new_row_status, (m, inl (refl, refl))))
        | inr a ↦ rw a (inr (refl, new_row_status, (m, inr (refl, a, refl))))
      ])
    ]
  where
    m : Message
    m = create env.now env.fresh_id campaign tenant phone content priority rcs none

    new_row_status : row_status env.fresh_id (save env.now m w.messages) ≡ some pending
    new_row_status = unfold create in row_status-save env.now m w.messages
