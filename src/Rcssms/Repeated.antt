-- ===== src/Rcssms/Repeated.antt =====
-- The dispatcher on a queue, with this adapter.
use rcs_bulk_messaging_syste.Prelude.{
  ℕ, zero, suc, ◌≡◌, sym, ap, ◌∙◌, subst, Bool, true, some, List, [], ◌∷◌, ◌++◌,
}
use rcs_bulk_messaging_syste.Prelude.Results.{Exn, Result, ok, err}
use rcs_bulk_messaging_syste.Prelude.Json.{Items, Fields}
use rcs_bulk_messaging_syste.Breaker.{Breaker, Redis, before_request}
use rcs_bulk_messaging_syste.Delivery.World.{Env, World}
use rcs_bulk_messaging_syste.Rcssms.{Adapter, Token, Http}
use rcs_bulk_messaging_syste.Rcssms.Sending.{post_message}
use rcs_bulk_messaging_syste.Message.Types.{pending, rcs, Message}
use rcs_bulk_messaging_syste.Message.Content.{truthy}
use rcs_bulk_messaging_syste.Store.Rows.{get_by_id}
use rcs_bulk_messaging_syste.Delivery.World.{Exchange}
use rcs_bulk_messaging_syste.Delivery.Send.{send_request, no_lower}
use rcs_bulk_messaging_syste.Delivery.Jobs.{process_message_job}
use rcs_bulk_messaging_syste.Delivery.Requests.{exchange, Carries, exchange-Carries}
use mathlib.Core.List.{append-nil, append_assoc}
use rcs_bulk_messaging_syste.Queue.Consumer.{
  Stored, job_of, Handler, subscribe, subscribe-raised, subscribe_failed, restarted,
}
use rcs_bulk_messaging_syste.Rcssms.Resent.{IsTaken, with_rcssms, process_message_job-sent_again}

-- The handler that the dispatcher subscribes with.
unfoldable pub dispatch : Env → Handler World
dispatch env job w = process_message_job env job.payload w

unfoldable pub copies : ℕ → Exchange → List Exchange
copies zero x = []
copies (suc n) x = x ∷ copies n x

abbrev pub asked_again : List Exchange → World → World
asked_again l w = record w { exchanges = w.exchanges ++ l }

-- A job that raises for every world with these tables, and only adds a request.
unfoldable pub Poisons : Env → Stored → Exn → Exchange → World → Type 0
Poisons env m e x w =
    (l : List Exchange)
    → dispatch env (job_of m) (asked_again l w) ≡ (err e, asked_again (l ++ x ∷ []) w)

poisoned :
    (rejects : Bool → Result (Unit {0})) (env : Env) (m : Stored) (rest : List Stored) (e : Exn)
    (x : Exchange) (w : World) (n k : ℕ) (l : List Exchange)
    → ((requeue : Bool) → (y : Exn) × (rejects requeue ≡ err y))
    → Poisons env m e x w
    → restarted rejects (dispatch env) (suc n) k (m ∷ rest) (asked_again l w)
      ≡ (m ∷ rest, asked_again (l ++ copies k x) w)
unfolding restarted copies Poisons
poisoned rejects env m rest e x w n zero l r p =
    ap (λ j. (m ∷ rest, asked_again j w)) (sym (append-nil l))
poisoned rejects env m rest e x w n (suc k) l r p =
    ap (λ o. restarted rejects (dispatch env) (suc n) k o.1 o.2)
      (subscribe-raised rejects (dispatch env) n m rest (asked_again l w) _ e r (p l))
    ∙ poisoned rejects env m rest e x w n k (l ++ x ∷ []) r p
    ∙ ap (λ j. (m ∷ rest, asked_again j w)) (append_assoc l (x ∷ []) (copies k x))

sent_again-Poisons :
    (a : Adapter) (http : Http) (b : Breaker) (up up' : ℕ → Bool) (later : ℕ)
    (meanwhile : Redis → Redis) (t : Token) (r : Redis) (env : Env) (w : World) (m : Message)
    (fs : Fields) (js : Items) (job : Stored)
    → get_by_id job.message.payload w.messages ≡ some m
    → m.status ≡ pending
    → m.channel ≡ rcs
    → truthy m.content.template_id ≡ true
    → (before_request b up env.now r).0 ≡ ok tt
    → IsTaken http (post_message a http env.now (send_request m) t).0 fs js
    → let rcssms = with_rcssms a http b up up' later meanwhile t r env in
      Poisons rcssms job no_lower (exchange rcssms m) w
unfolding Poisons dispatch job_of
sent_again-Poisons a http b up up' later meanwhile t r env w m fs js job q p c k g h l =
    process_message_job-sent_again a http b up up' later meanwhile t r env job.message.payload
      (asked_again l w) m fs js q p c k g h
    ∙ ap (λ z. (err no_lower, record w { exchanges = z }))
        (append_assoc w.exchanges l
          (exchange (with_rcssms a http b up up' later meanwhile t r env) m ∷ []))

-- A job for an RCS message with a template, which the circuit breaker lets through and the server takes at each
-- delivery, ends each subscription with an exception, and stays at the head of the queue: a worker that is started
-- `k` times sends the message `k` times, its row stays as it was, its retry count too, and no other job is
-- handled. The server answers with a list of objects under `data`, and no error; a second rejection of a message
-- raises.
pub subscribe-sent_again :
    (a : Adapter) (http : Http) (b : Breaker) (up up' : ℕ → Bool) (later : ℕ)
    (meanwhile : Redis → Redis) (t : Token) (r : Redis) (env : Env) (w : World) (m : Message)
    (fs : Fields) (js : Items) (rejects : Bool → Result (Unit {0})) (job : Stored)
    (rest : List Stored) (n k : ℕ)
    → get_by_id job.message.payload w.messages ≡ some m
    → m.status ≡ pending
    → m.channel ≡ rcs
    → truthy m.content.template_id ≡ true
    → (before_request b up env.now r).0 ≡ ok tt
    → IsTaken http (post_message a http env.now (send_request m) t).0 fs js
    → ((requeue : Bool) → (y : Exn) × (rejects requeue ≡ err y))
    → let rcssms = with_rcssms a http b up up' later meanwhile t r env in
      (subscribe rejects (dispatch rcssms) (suc n) (job ∷ rest) w
        ≡ (err subscribe_failed, job ∷ rest, asked_again (exchange rcssms m ∷ []) w))
      × (restarted rejects (dispatch rcssms) (suc n) k (job ∷ rest) w
          ≡ (job ∷ rest, asked_again (copies k (exchange rcssms m)) w))
      × Carries m (exchange rcssms m).request
subscribe-sent_again a http b up up' later meanwhile t r env w m fs js rejects job rest n k q p c g
      h i d =
    let rcssms = with_rcssms a http b up up' later meanwhile t r env in
    let x = exchange rcssms m in
    let poison =
      sent_again-Poisons a http b up up' later meanwhile t r env w m fs js job q p c g h i in
    let same : asked_again [] w ≡ w =
      ap (λ z. record w { exchanges = z }) (append-nil w.exchanges) in
    (
      subst
          (λ v.
            subscribe rejects (dispatch rcssms) (suc n) (job ∷ rest) v
            ≡ (err subscribe_failed, job ∷ rest, asked_again (x ∷ []) w))
          same
          (subscribe-raised rejects (dispatch rcssms) n job rest (asked_again [] w) _ no_lower d
            (unfold Poisons in poison [])),
      subst
          (λ v.
            restarted rejects (dispatch rcssms) (suc n) k (job ∷ rest) v
            ≡ (job ∷ rest, asked_again (copies k x) w))
          same (poisoned rejects rcssms job rest no_lower x w n k [] d poison),
      exchange-Carries rcssms m,
    )
