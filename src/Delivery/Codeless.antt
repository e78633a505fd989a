-- ===== src/Delivery/Codeless.antt =====
-- A delivery that fails with an exception that has no error code.
use rcs_bulk_messaging_syste.Prelude.{
  ℕ, ◌≡◌, ap, ◌∙◌, Option, none, some, List, [], ◌∷◌, ◌++◌, arith,
}
use rcs_bulk_messaging_syste.Prelude.Text.{Text}
use rcs_bulk_messaging_syste.Prelude.Results.{aggregator_exception, Result, ok, err}
use rcs_bulk_messaging_syste.Message.Types.{pending, Message}
use rcs_bulk_messaging_syste.Message.Lifecycle.{can_transition_to, transition_to, queue}
use rcs_bulk_messaging_syste.Store.Rows.{get_by_id}
use rcs_bulk_messaging_syste.Delivery.World.{
  Env, World, answer, Exchange, Session, attempt_or, call, save_message, ask_send, transaction,
}
use rcs_bulk_messaging_syste.Delivery.Send.{
  send_request, send_via_aggregator, queue_and_send, on_exception, handle_delivery_failure,
  failure_reason_of, reason_of, no_lower,
}
use rcs_bulk_messaging_syste.Delivery.Jobs.{process_message_job}
use rcs_bulk_messaging_syste.Delivery.Requests.{exchange}
use rcs_bulk_messaging_syste.Delivery.Branches.{
  worked, pending-is_processed, IsReached, reached-deliver,
}

codeless :
    (env : Env) (s : Session) (text : Text) (r : Option ℕ)
    → s.message.status ≡ pending
    → answer env (send_request s.message) ≡ err (aggregator_exception text none r)
    → let (o, s') = attempt_or (queue_and_send env) (on_exception env) s in
      (o ≡ err no_lower)
      × (s'.world.broker ≡ s.world.broker)
      × (s'.world.exchanges ≡ s.world.exchanges ++ exchange env s.message ∷ [])
unfolding queue_and_send call queue transition_to can_transition_to save_message send_via_aggregator
    ask_send send_request on_exception handle_delivery_failure failure_reason_of reason_of exchange
codeless env s text r p h = ground (arith, p, h)

rolled_back :
    (w : World) (l : List Exchange) (o : Result (Unit {0}) × Session)
    → (o.0 ≡ err no_lower) × (o.1.world.broker ≡ w.broker) × (o.1.world.exchanges ≡ l)
    → transaction w o ≡ (err no_lower, record w { exchanges = l })
unfolding transaction
rolled_back w l (ok u, s) (e, b, x) = cc e
rolled_back w l (err n, s) (e, b, x) = ground (arith, e, b, x)

-- A failure whose exception has no error code is not handled: the job raises for it, and leaves everything as it
-- was, but for the request that it has made.
pub process_message_job-codeless :
    (env : Env) (id : ℕ) (w : World) (m : Message) (text : Text) (r : Option ℕ)
    → get_by_id id w.messages ≡ some m
    → IsReached env m
    → answer env (send_request m) ≡ err (aggregator_exception text none r)
    → process_message_job env id w
      ≡ (err no_lower, record w { exchanges = w.exchanges ++ exchange env m ∷ [] })
process_message_job-codeless env id w m text r q p h =
    let s : Session = record { message = m; world = w } in
    worked env id w m q (pending-is_processed m p.0)
    ∙ ap (transaction w) (reached-deliver env s p)
    ∙ rolled_back w (w.exchanges ++ exchange env m ∷ [])
        (attempt_or (queue_and_send env) (on_exception env) s) (codeless env s text r p.0 h)
