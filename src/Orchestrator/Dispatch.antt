-- ===== src/Orchestrator/Dispatch.antt =====
-- What a campaign job leaves behind.
use rcs_bulk_messaging_syste.Prelude.{
  ℕ, ◌+◌, ◌≡◌, refl, sym, ap, ◌∙◌, true, List, [], ◌∷◌, ◌++◌, map, arith, length, length-append,
}
use rcs_bulk_messaging_syste.Prelude.Results.{ok}
use mathlib.Core.List.{append-nil, append_assoc}
use rcs_bulk_messaging_syste.Message.Types.{Message}
use rcs_bulk_messaging_syste.Campaign.Types.{Campaign}
use rcs_bulk_messaging_syste.Store.Rows.{save_batch, to_model}
use rcs_bulk_messaging_syste.Template.Types.{Template}
use rcs_bulk_messaging_syste.Queue.{QueueMessage}
use rcs_bulk_messaging_syste.Delivery.World.{Env}
use rcs_bulk_messaging_syste.Contacts.{concat}
use rcs_bulk_messaging_syste.Orchestrator.Recipients.{Recipient, create_messages, dispatch_job}
use rcs_bulk_messaging_syste.Orchestrator.Job.{Site, send_batch, after_batch, send_batches}
use rcs_bulk_messaging_syste.Orchestrator.Batches.{create_messages-append, enqueue_batch-all}

-- The messages are saved and their jobs queued.
abbrev pub sent : List Message → Site → Site
sent ms s = record s {
  messages = s.messages ++ map to_model ms;
  broker = s.broker ++ map dispatch_job ms;
}

module _ {ℓ κ} {A : Type ℓ} {B : Type κ} where
  map-append_list : (f : A → B) (xs ys : List A) → map f (xs ++ ys) ≡ map f xs ++ map f ys
  map-append_list f [] ys = refl
  map-append_list f (x ∷ xs) ys = ap (λ z. f x ∷ z) (map-append_list f xs ys)

sent-nil : (s : Site) → sent [] s ≡ s
sent-nil s = rw (append-nil s.messages, append-nil s.broker) refl

pub sent-append : (ms ns : List Message) (s : Site) → sent ns (sent ms s) ≡ sent (ms ++ ns) s
sent-append ms ns s =
    rw
      (
        map-append_list to_model ms ns,
        map-append_list dispatch_job ms ns,
        append_assoc s.messages (map to_model ms) (map to_model ns),
        append_assoc s.broker (map dispatch_job ms) (map dispatch_job ns),
      )
      refl

send_batch-sent :
    (env : Env) (draw : ℕ → ℕ) (c : Campaign) (t : Template) (k : ℕ) (batch : List Recipient)
    (s : Site)
    → ((q : QueueMessage) → env.accepts q ≡ true)
    → send_batch env draw c t k batch s ≡ (ok tt, sent (create_messages env.now draw c t k batch) s)
unfolding send_batch save_batch
send_batch-sent env draw c t k batch s h =
    rw
      (enqueue_batch-all env.accepts (map dispatch_job (create_messages env.now draw c t k batch))
        s.broker h)
      refl

pub send_batches-sent :
    (env : Env) (draw : ℕ → ℕ) (c : Campaign) (t : Template) (k : ℕ)
    (batches : List (List Recipient)) (s : Site)
    → ((q : QueueMessage) → env.accepts q ≡ true)
    → send_batches env draw c t k batches s ≡ (
      ok (k + length (concat batches)),
      sent (create_messages env.now draw c t k (concat batches)) s,
    )
unfolding send_batches concat
send_batches-sent env draw c t k [] s h =
    let e : k ≡ k + 0 = omega arith in
    unfold create_messages in (ap (λ j. (ok j, s)) e ∙ ap (λ x. (ok (k + 0), x)) (sym (sent-nil s)))
send_batches-sent env draw c t k (batch ∷ batches) s h =
    let m = create_messages env.now draw c t k batch in
    let n = create_messages env.now draw c t (k + length batch) (concat batches) in
    let e : k + length batch + length (concat batches) ≡ k + length (batch ++ concat batches) =
      omega (arith, length-append batch (concat batches)) in
    let f =
      sent-append m n s
      ∙ ap (λ x. sent x s)
          (sym (create_messages-append env.now draw c t k batch (concat batches))) in
    ap (λ x. after_batch x (send_batches env draw c t (k + length batch) batches))
      (send_batch-sent env draw c t k batch s h)
    ∙ send_batches-sent env draw c t (k + length batch) batches (sent m s) h
    ∙ ap (λ j. (ok j, sent n (sent m s))) e
    ∙ ap (λ x. (ok (k + length (batch ++ concat batches)), x)) f
