-- ===== src/Delivery/Branches.antt =====
-- What single branches of a delivery job do.
use rcs_bulk_messaging_syste.Prelude.{
  ℕ, ◌≡◌, refl, sym, ap, ◌∙◌, subst, ◌≢◌, ◌⊎◌, inl, inr, Bool, true, false, Option, some, List, [],
  ◌∷◌, ◌++◌, arith, if◌then◌else◌, Bool-cases,
}
use rcs_bulk_messaging_syste.Prelude.Results.{rate_limit_exception, Result, ok, err}
use rcs_bulk_messaging_syste.Prelude.Text.{Text}
use rcs_bulk_messaging_syste.Message.Types.{pending, sent, status_eq, is_rcs, Message}
use rcs_bulk_messaging_syste.Message.Lifecycle.{
  can_transition_to, transition_to, record_attempt, queue, mark_sent,
}
use rcs_bulk_messaging_syste.Prelude.Time.{cannot_compare, datetime_le}
use rcs_bulk_messaging_syste.Store.Rows.{get_by_id}
use rcs_bulk_messaging_syste.Queue.{schedule}
use rcs_bulk_messaging_syste.Delivery.World.{
  answer, Exchange, SendMessageResponse, Env, World, Session, attempt_or, call, save_message,
  publish_later, ask_send, transaction,
}
use rcs_bulk_messaging_syste.Delivery.Send.{
  check_rcs_capability, first_result, send_request, send_via_aggregator, requeue_with_delay,
  is_rcs_without_template, queue_and_send, attempt, on_exception, deliver,
}
use rcs_bulk_messaging_syste.Message.Content.{truthy}
use rcs_bulk_messaging_syste.Store.Status.{row_status}
use rcs_bulk_messaging_syste.Prelude.{◌≢◌}
use rcs_bulk_messaging_syste.Delivery.Jobs.{is_processed, process_message_job}
use rcs_bulk_messaging_syste.Delivery.Requests.{exchange, Carries, exchange-Carries}
use rcs_bulk_messaging_syste.Delivery.Guarantees.{loaded-job}
use rcs_bulk_messaging_syste.Delivery.Saved.{SavedOr, saved_status, deliver-saved}

pub worked :
    (env : Env) (id : ℕ) (w : World) (m : Message)
    → get_by_id id w.messages ≡ some m
    → is_processed m ≡ false
    → process_message_job env id w ≡ transaction w (deliver env (record { message = m; world = w }))
worked env id w m q p =
    loaded-job env id w q
    ∙ ap
        (λ b.
          if b then (ok tt, w) else transaction w (deliver env (record { message = m; world = w })))
        p

pub pending-is_processed : (m : Message) → m.status ≡ pending → is_processed m ≡ false
unfolding is_processed status_eq
pending-is_processed m h = ground arith

-- Where the send is reached, on a pending message: an SMS message, or an RCS message with a template to
-- a number that RCS reaches.
abbrev pub IsReached : Env → Message → Type 0
IsReached env m =
    (m.status ≡ pending)
    × ((is_rcs m.channel ≡ false)
        ⊎ ((truthy m.content.template_id ≡ true)
            × ((l : List Bool) × (env.capability m.recipient_phone ≡ ok (true ∷ l)))))

reached-attempt :
    (env : Env) (s : Session) → IsReached env s.message → attempt env s ≡ queue_and_send env s
unfolding attempt check_rcs_capability first_result
reached-attempt env s (p, inl c) = rw c refl
reached-attempt env s (p, inr (t, (l, q))) = elim (Bool-cases (is_rcs s.message.channel)) [
  | inl c ↦ rw (c, q) refl
  | inr c ↦ rw c refl
]

reached-template : (env : Env) (m : Message) → IsReached env m → is_rcs_without_template m ≡ false
unfolding is_rcs_without_template
reached-template env m (p, inl c) = ground arith
reached-template env m (p, inr (t, k)) = ground arith

pub reached-deliver :
    (env : Env) (s : Session)
    → IsReached env s.message
    → deliver env s ≡ attempt_or (queue_and_send env) (on_exception env) s
unfolding deliver
reached-deliver env s h =
    rw (reached-template env s.message h)
      (ap (λ o. attempt_or (λ _. o) (on_exception env) s) (reached-attempt env s h))

limited :
    (env : Env) (s : Session) (t : Text) (c : Option Text) (r : Option ℕ)
    → s.message.status ≡ pending
    → answer env (send_request s.message) ≡ err (rate_limit_exception t c r)
    → let (o, s') = attempt_or (queue_and_send env) (on_exception env) s in
      (o ≡ err cannot_compare) × (s'.world.broker ≡ s.world.broker)
unfolding queue_and_send call queue transition_to can_transition_to save_message send_via_aggregator
    ask_send send_request on_exception requeue_with_delay publish_later schedule datetime_le
limited env s t c r p h = ground arith

-- A rate limit never delays a message: the job raises the `TypeError` of the comparison in `schedule`,
-- with the tables and the broker as they were, and without a job that would send the message later.
pub process_message_job-rate_limited :
    (env : Env) (id : ℕ) (w : World) (m : Message) (t : Text) (c : Option Text) (r : Option ℕ)
    → get_by_id id w.messages ≡ some m
    → IsReached env m
    → answer env (send_request m) ≡ err (rate_limit_exception t c r)
    → let (o, w') = process_message_job env id w in
      (o ≡ err cannot_compare) × (w'.messages ≡ w.messages) × (w'.broker ≡ w.broker)
process_message_job-rate_limited env id w m t c r q p h =
    let s : Session = record { message = m; world = w } in
    subst (λ z. (z.0 ≡ err cannot_compare) × (z.1.messages ≡ w.messages) × (z.1.broker ≡ w.broker))
      (sym (
        worked env id w m q (pending-is_processed m p.0)
        ∙ ap (transaction w) (reached-deliver env s p)))
      (rolled w _ (limited env s t c r p.0 h))
  where
    rolled :
        (w : World) (o : Result (Unit {0}) × Session)
        → (o.0 ≡ err cannot_compare) × (o.1.world.broker ≡ w.broker)
        → let z = transaction w o in
          (z.0 ≡ err cannot_compare) × (z.1.messages ≡ w.messages) × (z.1.broker ≡ w.broker)
    rolled w (ok u, s) (e, b) = cc e
    rolled w (err x, s) (e, b) = unfold transaction in (e, refl, b)

taken :
    (env : Env) (s : Session) (r : SendMessageResponse)
    → s.message.status ≡ pending
    → answer env (send_request s.message) ≡ ok r
    → r.success ≡ true
    → let (o, s') = attempt_or (queue_and_send env) (on_exception env) s in
      (o ≡ ok tt)
      × (s'.message.status ≡ sent)
      × (s'.world.broker ≡ s.world.broker)
      × (s'.world.exchanges ≡ s.world.exchanges ++ exchange env s.message ∷ [])
unfolding queue_and_send call queue transition_to can_transition_to save_message send_via_aggregator
    ask_send send_request mark_sent record_attempt exchange
taken env s r p h k = ground arith

pub accepted_job :
    (env : Env) (id : ℕ) (w : World) (m : Message) (r : SendMessageResponse)
    → get_by_id id w.messages ≡ some m
    → env.fresh_id ≢ m.id
    → IsReached env m
    → answer env (send_request m) ≡ ok r
    → r.success ≡ true
    → let (o, w') = process_message_job env id w in
      (o ≡ ok tt)
      × (row_status m.id w'.messages ≡ some sent)
      × (w'.broker ≡ w.broker)
      × (w'.exchanges ≡ w.exchanges ++ exchange env m ∷ [])
accepted_job env id w m r q n p a k =
    let s : Session = record { message = m; world = w } in
    let e = reached-deliver env s p in
    subst (IsAccepted m w)
      (sym (worked env id w m q (pending-is_processed m p.0) ∙ ap (transaction w) e))
      (closed m w _ (subst (SavedOr s) e (deliver-saved env s n)) (taken env s r p.0 a k))
  where
    IsAccepted : Message → World → Result (Unit {0}) × World → Type 0
    IsAccepted m w z =
        (z.0 ≡ ok tt)
        × (row_status m.id z.1.messages ≡ some sent)
        × (z.1.broker ≡ w.broker)
        × (z.1.exchanges ≡ w.exchanges ++ exchange env m ∷ [])

    closed :
        (m : Message) (w : World) (o : Result (Unit {0}) × Session)
        → SavedOr (record { message = m; world = w }) o
        → (o.0 ≡ ok tt)
          × (o.1.message.status ≡ sent)
          × (o.1.world.broker ≡ w.broker)
          × (o.1.world.exchanges ≡ w.exchanges ++ exchange env m ∷ [])
        → IsAccepted m w (transaction w o)
    closed m w (err x, s) v (e, t, b, l) = cc e
    closed m w (ok u, s) (i, v) (e, t, b, l) =
        unfold transaction in
        (
          refl,
          subst (λ j. row_status j s.world.messages ≡ some sent) i (saved_status s v ∙ ap some t),
          b,
          l,
        )

-- A pending message that reaches the send, and that the aggregator accepts, is left as sent, after one
-- request, with its identifier, number, channel and content, and nothing is queued. The identifier drawn for a
-- child is not that of the message.
pub process_message_job-accepted :
    (env : Env) (id : ℕ) (w : World) (m : Message) (r : SendMessageResponse)
    → get_by_id id w.messages ≡ some m
    → env.fresh_id ≢ m.id
    → IsReached env m
    → answer env (send_request m) ≡ ok r
    → r.success ≡ true
    → let (o, w') = process_message_job env id w in
      (o ≡ ok tt)
      × (row_status m.id w'.messages ≡ some sent)
      × (w'.broker ≡ w.broker)
      × ((x : Exchange) × ((w'.exchanges ≡ w.exchanges ++ x ∷ [])
            × Carries m x.request
            × (x.answer ≡ ok r)))
process_message_job-accepted env id w m r q n p a k =
    let (o, t, b, l) = accepted_job env id w m r q n p a k in
    (o, t, b, (exchange env m, (l, exchange-Carries env m, unfold exchange in a)))
