-- ===== src/Delivery/AtMostOnce.antt =====
-- That the aggregator accepts no message twice, however jobs and reports are delivered.
use rcs_bulk_messaging_syste.Prelude.{
  ℕ, ◌+◌, ◌≤◌, ◌≡◌, refl, sym, ap, ◌∙◌, subst, ◌≢◌, ◌⊎◌, inl, inr, true, false, Option, none, some,
  List, [], ◌∷◌, arith, ◌==◌, Bool-cases, count,
}
use rcs_bulk_messaging_syste.Prelude.Results.{Result, ok, err}
use rcs_bulk_messaging_syste.Message.Types.{MessageStatus, Message}
use rcs_bulk_messaging_syste.Store.Rows.{save}
use rcs_bulk_messaging_syste.Delivery.World.{
  Env, World, Session, continue, ◌>>◌, save_message, recalculate, transaction,
}
use rcs_bulk_messaging_syste.Store.Status.{row_status, row_status-save}
use rcs_bulk_messaging_syste.Store.Unique.{AreUnique, get_by_external_id-row_status}
use rcs_bulk_messaging_syste.Prelude.{◌≢◌}
use rcs_bulk_messaging_syste.Delivery.Jobs.{
  process_message_job, StatusUpdate, apply_status, save_and_recalculate,
  handle_delivery_status_update, process_webhook_job, refused, unread, report,
}
use rcs_bulk_messaging_syste.Delivery.Redelivery.{is_done, done-idle}
use rcs_bulk_messaging_syste.Delivery.Reports.{report-exchanges, apply_status-message}
use rcs_bulk_messaging_syste.Delivery.Events.{
  Event, job, webhook, run_event, run_events, fresh_of, AllFresh, is_accepted_for, accepted_count,
}
use rcs_bulk_messaging_syste.Delivery.Once.{
  transaction-exchanges, report-cases, job-AreUnique, report-AreUnique, job-Others, report-Others,
  fresh-differs, job-count,
}

-- Nothing of the message has been accepted, or one request has, and no job will work on it again.
abbrev pub Once : ℕ → World → Type 0
Once id w =
    AreUnique w.messages
    × ((accepted_count id w ≡ 0)
        ⊎ ((accepted_count id w ≡ 1) × (is_done (row_status id w.messages) ≡ true)))

done-some : (o : Option MessageStatus) → is_done o ≡ true → (st : MessageStatus) × (o ≡ some st)
done-some none h = cc
done-some (some st) h = (st, refl)

to_eq : (a b : ℕ) → (a == b) ≡ true → a ≡ b
to_eq a b e = ground arith

apart : (a b : ℕ) → (a == b) ≡ false → a ≢ b
apart a b e k = ground arith

-- A job on a message that is done for leaves the row and the count.
done-job :
    (env : Env) (j id : ℕ) (w : World)
    → row_status env.fresh_id w.messages ≡ none
    → is_done (row_status id w.messages) ≡ true
    → let w' = (process_message_job env j w).1 in
      (accepted_count id w' ≡ accepted_count id w) × (is_done (row_status id w'.messages) ≡ true)
done-job env j id w f d = elim (Bool-cases (j == id)) [
  | inl e ↦
      let same : (process_message_job env j w).1 ≡ w =
        subst (λ k. (process_message_job env k w).1 ≡ w) (sym (to_eq j id e))
          (ap (λ o. o.1) (done-idle env id w d)) in
      (
        ap (accepted_count id) same,
        subst (λ z. is_done (row_status id z.messages) ≡ true) (sym same) d,
      )
  | inr e ↦
      let (st, k) = done-some (row_status id w.messages) d in
      let kept = job-Others env j id w (apart j id e) (fresh-differs _ _ w.messages st f k) in
      (
        elim (job-count env j id w f) [ inl c ↦ c | inr c ↦ absurd (apart j id e c.0) ],
        subst (λ o. is_done o ≡ true) (sym kept) d,
      )
]

job-Once :
    (env : Env) (j id : ℕ) (w : World)
    → row_status env.fresh_id w.messages ≡ none
    → Once id w
    → Once id (process_message_job env j w).1
job-Once env j id w f (u, inl z) = (
  job-AreUnique env j w u,
  elim (job-count env j id w f) [
    | inl c ↦ inl (c ∙ z)
    | inr (e, c, s) ↦ inr (c ∙ ap (λ n. n + 1) z, rw s refl)
  ],
)
job-Once env j id w f (u, inr (n, d)) =
    let (c, k) = done-job env j id w f d in (job-AreUnique env j w u, inr (c ∙ n, k))

-- A report on a message that is done for leaves it so.
done-report :
    (env : Env) (u : StatusUpdate) (s : Session)
    → is_done (some s.message.status) ≡ true
    → is_done (row_status s.message.id s.world.messages) ≡ true
    → is_done (
        row_status s.message.id
          (transaction s.world ((apply_status env u >> save_and_recalculate env) s)).1.messages)
      ≡ true
unfolding transaction save_and_recalculate save_message recalculate
done-report env u s h d =
    let (i, k) = apply_status-message env u s h in saved (apply_status env u s) i k
  where
    saved :
        (o : Result (Unit {0}) × Session)
        → o.1.message.id ≡ s.message.id
        → is_done (some o.1.message.status) ≡ true
        → is_done (
            row_status s.message.id
              (transaction s.world (continue (λ _. save_and_recalculate env) o)).1.messages)
          ≡ true
    saved (err e, s') i k = d
    saved (ok _, s') i k =
        subst (λ j. is_done (row_status j (save env.now s'.message s'.world.messages)) ≡ true) i
          (subst (λ z. is_done z ≡ true)
            (sym (row_status-save env.now s'.message s'.world.messages)) k)

report-count :
    (env : Env) (u : StatusUpdate) (id : ℕ) (w : World)
    → accepted_count id (handle_delivery_status_update env u w).1 ≡ accepted_count id w
report-count env u id w = ap (count (is_accepted_for id)) (
    report-cases (λ w'. w'.exchanges ≡ w.exchanges) env u w refl
      (λ m q.
        let s : Session = record { message = m; world = w } in
        transaction-exchanges w ((apply_status env u >> save_and_recalculate env) s)
        ∙ report-exchanges env u s))

report-Once :
    (env : Env) (u : StatusUpdate) (id : ℕ) (w : World)
    → row_status env.fresh_id w.messages ≡ none
    → Once id w
    → Once id (handle_delivery_status_update env u w).1
report-Once env u id w f (p, inl z) =
    (report-AreUnique env u w p, inl (report-count env u id w ∙ z))
report-Once env u id w f (p, inr (n, d)) = (
  report-AreUnique env u w p,
  inr (
    report-count env u id w ∙ n,
    report-cases (λ w'. is_done (row_status id w'.messages) ≡ true) env u w d
        (λ m q. elim (Bool-cases (m.id == id)) [
          | inl e ↦
              own m (to_eq m.id id e) (get_by_external_id-row_status u.external_id w.messages p q)
          | inr e ↦
              let (st, k) = done-some (row_status id w.messages) d in
              subst (λ o. is_done o ≡ true)
                (sym (
                  report-Others env u id w m (apart m.id id e)
                    (fresh-differs _ _ w.messages st f k)))
                d
        ]),
  ),
)
  where
    own :
        (m : Message)
        → m.id ≡ id
        → row_status m.id w.messages ≡ some m.status
        → is_done (
            row_status id
              (transaction w (
                (apply_status env u >> save_and_recalculate env)
                  (record { message = m; world = w }))).1.messages)
          ≡ true
    own m i k =
        let d' = subst (λ j. is_done (row_status j w.messages) ≡ true) (sym i) d in
        subst
          (λ j.
            is_done (
              row_status j
                (transaction w (
                  (apply_status env u >> save_and_recalculate env)
                    (record { message = m; world = w }))).1.messages)
            ≡ true)
          i
          (done-report env u (record { message = m; world = w })
            (subst (λ o. is_done o ≡ true) k d') d')

event-Once :
    (e : Event) (id : ℕ) (w : World)
    → row_status (fresh_of e) w.messages ≡ none
    → Once id w
    → Once id (run_event e w)
unfolding process_webhook_job
event-Once (job env j) id w f h = job-Once env j id w f h
event-Once (webhook env refused) id w f h = h
event-Once (webhook env unread) id w f h = h
event-Once (webhook env (report u)) id w f h = report-Once env u id w f h

events-Once :
    (es : List Event) (id : ℕ) (w : World) → AllFresh es w → Once id w → Once id (run_events es w)
events-Once [] id w f h = h
events-Once (e ∷ es) id w f h = events-Once es id (run_event e w) f.1 (event-Once e id w f.0 h)

-- The aggregator accepts, by an answer of success, at most one request for a message, whatever jobs and
-- webhooks are delivered, in whatever order and however often, one at a time: from tables with a primary
-- key, with nothing accepted,
-- and with fresh identifiers drawn for the children. An exception rolls the tables back, and a worker
-- that stops between the answer of the aggregator and the commit is not among the events.
pub run_events-at_most_once :
    (es : List Event) (id : ℕ) (w : World)
    → AreUnique w.messages
    → w.exchanges ≡ []
    → AllFresh es w
    → accepted_count id (run_events es w) ≤ 1
run_events-at_most_once es id w u x f =
    elim (events-Once es id w f (u, inl (ap (count (is_accepted_for id)) x))).1 [
      | inl z ↦ omega arith
      | inr (n, d) ↦ omega arith
    ]
