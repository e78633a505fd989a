-- ===== src/Delivery/Redelivery.antt =====
-- What a job asks of the aggregator, and what a second delivery of the job does.
use rcs_bulk_messaging_syste.Prelude.{
  ℕ, ◌≡◌, refl, sym, ap, ◌∙◌, subst, ◌≢◌, ◌⊎◌, inl, inr, Bool, true, false, Option, none, some, [],
  ◌∷◌, ◌++◌, arith, if◌then◌else◌, Bool-cases, Option-cases,
}
use rcs_bulk_messaging_syste.Prelude.Results.{Result, ok, err}
use rcs_bulk_messaging_syste.Message.Types.{
  MessageStatus, pending, queued, sent, failed, status_eq, Message,
}
use rcs_bulk_messaging_syste.Store.Rows.{get_by_id}
use rcs_bulk_messaging_syste.Delivery.World.{Exchange, answer, Env, World, Session, transaction}
use rcs_bulk_messaging_syste.Delivery.Send.{job_for, deliver}
use rcs_bulk_messaging_syste.Store.Status.{row_status, get_by_id-status, row_mark-status}
use rcs_bulk_messaging_syste.Store.RowLaws.{get_by_id-row}
use rcs_bulk_messaging_syste.Prelude.{◌≢◌}
use rcs_bulk_messaging_syste.Delivery.Jobs.{is_processed, process_message_job}
use rcs_bulk_messaging_syste.Delivery.Saved.{SavedOr, saved_status, deliver-saved}
use rcs_bulk_messaging_syste.Delivery.Requests.{
  AsksOnce, deliver-asks, exchange, is_accepted, IsAllowed, Carries, exchange-Carries,
  exchange-answer,
}
use rcs_bulk_messaging_syste.Delivery.Guarantees.{
  process_message_job-settles, loaded-job, missing-job,
}

-- No request, or one with the fields of the message, which is accepted only if its row is left as sent.
abbrev pub JobAsks : Env → Message → World → World → Type 0
JobAsks env m w w' =
    (w'.exchanges ≡ w.exchanges)
    ⊎ ((w'.exchanges ≡ w.exchanges ++ exchange env m ∷ [])
        × IsAllowed env m
        × ((row_status m.id w'.messages ≡ some sent) ⊎ (is_accepted (exchange env m) ≡ false)))

asked_row :
    (env : Env) (s : Session) (o : Result (Unit {0}) × Session)
    → AsksOnce env s o
    → SavedOr s o
    → JobAsks env s.message s.world (transaction s.world o).1
unfolding transaction
asked_row env s (err e, s') (inl h) v = inl h
asked_row env s (err e, s') (inr (h, a, f)) v = inr (h, a, inr f)
asked_row env s (ok u, s') (inl h) v = inl h
asked_row env s (ok u, s') (inr (h, a, inr f)) v = inr (h, a, inr f)
asked_row env s (ok u, s') (inr (h, a, inl t)) (i, v) =
    let row = saved_status s' v in
    inr (h, a, inl (subst (λ k. row_status k s'.world.messages ≡ some sent) i (row ∙ ap some t)))

pub job_asks :
    (env : Env) (id : ℕ) (w : World) (m : Message)
    → get_by_id id w.messages ≡ some m
    → env.fresh_id ≢ m.id
    → JobAsks env m w (process_message_job env id w).1
job_asks env id w m q n =
    let s : Session = record { message = m; world = w } in
    subst (λ o. JobAsks env m w o.1) (sym (loaded-job env id w q))
      (elim (Bool-cases (is_processed m)) [
        | inl p ↦ rw p (inl refl)
        | inr p ↦
            rw p (asked_row env s (deliver env s) (deliver-asks env s) (deliver-saved env s n))
      ])

-- No request, or one for the message, with the answer to it, which is accepted only if its row is left as sent.
abbrev pub JobRequests : Env → Message → World → World → Type 0
JobRequests env m w w' =
    (w'.exchanges ≡ w.exchanges)
    ⊎ ((x : Exchange) × ((w'.exchanges ≡ w.exchanges ++ x ∷ [])
          × Carries m x.request
          × (x.answer ≡ answer env x.request)
          × IsAllowed env m
          × ((row_status m.id w'.messages ≡ some sent) ⊎ (is_accepted x ≡ false))))

-- A job, whether it returns or raises, makes no request, or one with the identifier, the number, the channel and the
-- content of its message: an RCS message with a template to a number that the aggregator says it reaches, or
-- a message of another channel. If the request is accepted, the row is left as sent. The identifier drawn for
-- a child is not that of the message.
pub process_message_job-asks_once :
    (env : Env) (id : ℕ) (w : World) (m : Message)
    → get_by_id id w.messages ≡ some m
    → env.fresh_id ≢ m.id
    → JobRequests env m w (process_message_job env id w).1
process_message_job-asks_once env id w m q n = elim (job_asks env id w m q n) [
  | inl h ↦ inl h
  | inr (h, a, f) ↦ inr (exchange env m, (h, exchange-Carries env m, exchange-answer env m, a, f))
]

-- The statuses on which a job does nothing.
abbrev pub is_done : Option MessageStatus → Bool
is_done none = false
is_done (some pending) = false
is_done (some queued) = false
is_done (some _) = true

pub done-is_processed : (m : Message) → is_done (some m.status) ≡ true → is_processed m ≡ true
unfolding is_processed status_eq
done-is_processed m h = ground arith

pub done-idle :
    (env : Env) (id : ℕ) (w : World)
    → is_done (row_status id w.messages) ≡ true
    → process_message_job env id w ≡ (ok tt, w)
done-idle env id w h = elim (Option-cases (get_by_id id w.messages)) [
  | inl e ↦ missing-job env id w e
  | inr (m, e) ↦
      loaded-job env id w e
      ∙ ap
          (λ b.
            if b
            then (ok tt, w)
            else transaction w (deliver env (record { message = m; world = w })))
          (done-is_processed m (subst (λ z. is_done z ≡ true) (get_by_id-status id w.messages e) h))
]

-- A job that is delivered again does nothing: after a job that returned on a pending or queued message,
-- either the message is pending again, and a new job with its identifier is queued, or every further job
-- for it returns and leaves everything as it is, with no request made.
pub process_message_job-redelivered :
    (env env' : Env) (id : ℕ) (w w' : World) (m : Message)
    → get_by_id id w.messages ≡ some m
    → (m.status ≡ pending) ⊎ (m.status ≡ queued)
    → env.fresh_id ≢ m.id
    → process_message_job env id w ≡ (ok tt, w')
    → ((row_status id w'.messages ≡ some pending)
        × ((m' : Message) × ((m'.id ≡ id) × (w'.broker ≡ w.broker ++ job_for m' ∷ []))))
      ⊎ (process_message_job env' id w' ≡ (ok tt, w'))
process_message_job-redelivered env env' id w w' m q o n h =
    let (r, f, e, own) = get_by_id-row id w.messages q in
    let to : (st : MessageStatus)
        → row_status m.id w'.messages ≡ some st
        → row_status id w'.messages ≡ some st =
      λ st t. subst (λ k. row_status k w'.messages ≡ some st) own t in
    elim (process_message_job-settles env id w w' m q o n h) [
      | inl (t, b) ↦ inr (done-idle env' id w' (rw (to sent t) refl))
      | inr (inl (m', (i, r', t, k, b))) ↦
          inl (to pending (row_mark-status m.id w'.messages r' ∙ ap some t), (m', (i ∙ own, b)))
      | inr (inr (inl (t, b))) ↦ inr (done-idle env' id w' (rw (to failed t) refl))
      | inr (inr (inr (t, b))) ↦ inr (done-idle env' id w' (rw (to failed t) refl))
    ]
