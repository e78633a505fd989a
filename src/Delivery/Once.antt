-- ===== src/Delivery/Once.antt =====
-- What one job or one report does to the rows of all messages and to the count of accepted requests.
use rcs_bulk_messaging_syste.Prelude.{
  ℕ, ◌+◌, ◌≡◌, refl, sym, ap, ◌∙◌, subst, ◌≢◌, ◌⊎◌, inl, inr, true, false, Option, none, some, List,
  [], ◌∷◌, ◌++◌, arith, if◌then◌else◌, Bool-cases, Option-cases, count,
}
use rcs_bulk_messaging_syste.Prelude.Results.{Result, ok, err}
use rcs_bulk_messaging_syste.Message.Types.{MessageStatus, sent, Message}
use rcs_bulk_messaging_syste.Store.Rows.{MessageRow, get_by_id, get_by_external_id}
use rcs_bulk_messaging_syste.Delivery.World.{Env, World, Session, ◌>>◌, transaction}
use rcs_bulk_messaging_syste.Delivery.Send.{send_request, deliver}
use rcs_bulk_messaging_syste.Store.Status.{row_status, get_by_id-status}
use rcs_bulk_messaging_syste.Store.Unique.{AreUnique}
use rcs_bulk_messaging_syste.Prelude.{◌≢◌}
use rcs_bulk_messaging_syste.Store.RowLaws.{get_by_id-row}
use rcs_bulk_messaging_syste.Delivery.Jobs.{
  process_message_job, StatusUpdate, apply_status, save_and_recalculate, update_loaded,
  handle_delivery_status_update,
}
use rcs_bulk_messaging_syste.Delivery.Frame.{deliver-Keeps}
use rcs_bulk_messaging_syste.Delivery.Redelivery.{job_asks}
use rcs_bulk_messaging_syste.Delivery.Requests.{exchange, is_accepted}
use rcs_bulk_messaging_syste.Delivery.Reports.{report-Keeps}
use rcs_bulk_messaging_syste.Delivery.Guarantees.{missing-job, job-cases}
use rcs_bulk_messaging_syste.Delivery.Events.{
  is_accepted_for, accepted_count, count-append, Others-IsFrame, unique-IsFrame,
}

-- What holds of the rows before a transaction and at its end holds after it.
pub after_transaction :
    (P : List MessageRow → Type 0) (w : World) (o : Result (Unit {0}) × Session)
    → P w.messages
    → P o.1.world.messages
    → P (transaction w o).1.messages
unfolding transaction
after_transaction P w (ok u, s) before after = after
after_transaction P w (err e, s) before after = before

pub transaction-exchanges :
    (w : World) (o : Result (Unit {0}) × Session)
    → (transaction w o).1.exchanges ≡ o.1.world.exchanges
unfolding transaction
transaction-exchanges w (ok u, s) = refl
transaction-exchanges w (err e, s) = refl

-- A report changes nothing, or is applied to the message that it names.
pub report-cases :
    (P : World → Type 0) (env : Env) (u : StatusUpdate) (w : World)
    → P w
    → ((m : Message)
        → get_by_external_id u.external_id w.messages ≡ ok (some m)
        → P
            (transaction w (
              (apply_status env u >> save_and_recalculate env)
                (record { message = m; world = w }))).1)
    → P (handle_delivery_status_update env u w).1
unfolding handle_delivery_status_update
report-cases P env u w idle work = go (get_by_external_id u.external_id w.messages) refl
  where
    go :
        (r : Result (Option Message))
        → get_by_external_id u.external_id w.messages ≡ r
        → P (update_loaded env u w r).1
    go (err e) q = unfold update_loaded in idle
    go (ok none) q = unfold update_loaded in idle
    go (ok (some m)) q = unfold update_loaded in work m q

pub job-AreUnique :
    (env : Env) (id : ℕ) (w : World)
    → AreUnique w.messages
    → AreUnique (process_message_job env id w).1.messages
job-AreUnique env id w u =
    job-cases (λ o. AreUnique o.1.messages) env id w u
      (λ m q o.
        let s : Session = record { message = m; world = w } in
        after_transaction AreUnique w (deliver env s) u
          (deliver-Keeps env _ (unique-IsFrame env) s u))

pub report-AreUnique :
    (env : Env) (u : StatusUpdate) (w : World)
    → AreUnique w.messages
    → AreUnique (handle_delivery_status_update env u w).1.messages
report-AreUnique env u w p =
    report-cases (λ w'. AreUnique w'.messages) env u w p
      (λ m q.
        let s : Session = record { message = m; world = w } in
        after_transaction AreUnique w ((apply_status env u >> save_and_recalculate env) s) p
          (report-Keeps env _ (unique-IsFrame env) u s p))

-- The row of another message stays as it was.
pub job-Others :
    (env : Env) (j id : ℕ) (w : World)
    → j ≢ id
    → env.fresh_id ≢ id
    → row_status id (process_message_job env j w).1.messages ≡ row_status id w.messages
job-Others env j id w n f =
    job-cases (λ o. row_status id o.1.messages ≡ row_status id w.messages) env j w refl
      (λ m q o.
        let s : Session = record { message = m; world = w } in
        let (r, a, b, own) = get_by_id-row j w.messages q in
        after_transaction (λ rows. row_status id rows ≡ row_status id w.messages) w (deliver env s)
          refl
          (deliver-Keeps env _ (Others-IsFrame env id (row_status id w.messages) f) s
            ((λ k. n (sym own ∙ k)), refl)).1)

pub report-Others :
    (env : Env) (u : StatusUpdate) (id : ℕ) (w : World) (m : Message)
    → m.id ≢ id
    → env.fresh_id ≢ id
    → row_status id
        (transaction w (
          (apply_status env u >> save_and_recalculate env)
            (record { message = m; world = w }))).1.messages
      ≡ row_status id w.messages
report-Others env u id w m n f =
    let s : Session = record { message = m; world = w } in
    after_transaction (λ rows. row_status id rows ≡ row_status id w.messages) w
      ((apply_status env u >> save_and_recalculate env) s) refl
      (report-Keeps env _ (Others-IsFrame env id (row_status id w.messages) f) u s (n, refl)).1

pub fresh-differs :
    (f i : ℕ) (rows : List MessageRow) (st : MessageStatus)
    → row_status f rows ≡ none
    → row_status i rows ≡ some st
    → f ≢ i
fresh-differs f i rows st h k e = cc (sym (ap (λ j. row_status j rows) e ∙ k) ∙ h)

is_accepted_for-exchange :
    (env : Env) (id : ℕ) (m : Message)
    → is_accepted_for id (exchange env m) ≡ true
    → (m.id ≡ id) × (is_accepted (exchange env m) ≡ true)
unfolding exchange send_request
is_accepted_for-exchange env id m h = ground arith

counted :
    (env : Env) (id : ℕ) (m : Message) (w w' : World)
    → w'.exchanges ≡ w.exchanges ++ exchange env m ∷ []
    → (row_status m.id w'.messages ≡ some sent) ⊎ (is_accepted (exchange env m) ≡ false)
    → (accepted_count id w' ≡ accepted_count id w)
      ⊎ ((m.id ≡ id)
          × (accepted_count id w' ≡ accepted_count id w + 1)
          × (row_status m.id w'.messages ≡ some sent))
counted env id m w w' x o =
    let more =
      ap (count (is_accepted_for id)) x
      ∙ count-append (is_accepted_for id) w.exchanges (exchange env m) in
    elim (Bool-cases (is_accepted_for id (exchange env m))) [
      | inr f ↦ inl (none_more f more)
      | inl t ↦
          let (e, a) = is_accepted_for-exchange env id m t in
          elim o [ inl s ↦ inr (e, one_more t more, s) | inr f ↦ cc (sym a ∙ f) ]
    ]
  where
    none_more :
        is_accepted_for id (exchange env m) ≡ false
        → accepted_count id w'
          ≡ accepted_count id w + (if is_accepted_for id (exchange env m) then 1 else 0)
        → accepted_count id w' ≡ accepted_count id w
    none_more f k = ground arith

    one_more :
        is_accepted_for id (exchange env m) ≡ true
        → accepted_count id w'
          ≡ accepted_count id w + (if is_accepted_for id (exchange env m) then 1 else 0)
        → accepted_count id w' ≡ accepted_count id w + 1
    one_more f k = ground arith

-- A job adds to the count of its own message alone, and then leaves it as sent.
pub job-count :
    (env : Env) (j id : ℕ) (w : World)
    → row_status env.fresh_id w.messages ≡ none
    → let w' = (process_message_job env j w).1 in
      (accepted_count id w' ≡ accepted_count id w)
      ⊎ ((j ≡ id)
          × (accepted_count id w' ≡ accepted_count id w + 1)
          × (row_status id w'.messages ≡ some sent))
job-count env j id w f = elim (Option-cases (get_by_id j w.messages)) [
  | inl e ↦ inl (ap (λ o. accepted_count id o.1) (missing-job env j w e))
  | inr (m, e) ↦
      let w' = (process_message_job env j w).1 in
      let (r, a, b, own) = get_by_id-row j w.messages e in
      let st : row_status m.id w.messages ≡ some m.status =
        subst (λ k. row_status k w.messages ≡ some m.status) (sym own)
          (get_by_id-status j w.messages e) in
      elim (job_asks env j w m e (fresh-differs _ _ w.messages m.status f st)) [
        | inl x ↦ inl (ap (count (is_accepted_for id)) x)
        | inr (x, al, o) ↦ elim (counted env id m w w' x o) [
          | inl k ↦ inl k
          | inr (i, k, s) ↦
              inr (sym own ∙ i, k, subst (λ z. row_status z w'.messages ≡ some sent) i s)
        ]
      ]
]
