-- ===== src/Rcssms/Resent.antt =====
-- The delivery service with this adapter, on a message that the server takes.
use rcs_bulk_messaging_syste.Prelude.{
  ℕ, ◌≡◌, refl, ap, ◌∙◌, inr, Bool, true, none, some, [], ◌∷◌, ◌++◌, arith,
}
use rcs_bulk_messaging_syste.Prelude.Text.{Text, codes}
use rcs_bulk_messaging_syste.Prelude.Results.{Exn, Result, ok, err, ◌>>=◌}
use rcs_bulk_messaging_syste.Prelude.Json.{
  Json, array, object, Items, no_items, item, Fields, is_true, get_or, first_item,
}
use rcs_bulk_messaging_syste.Breaker.{Breaker, Redis, before_request}
use rcs_bulk_messaging_syste.Delivery.World.{SendMessageRequest, SendMessageResponse, Env, World}
use rcs_bulk_messaging_syste.Delivery.Send.{exception_text}
use rcs_bulk_messaging_syste.Rcssms.{Adapter, Token, Http, failed}
use rcs_bulk_messaging_syste.Rcssms.Answers.{
  parse_send_response, conclude, parse_data, parse_by, known_error, error_code_in,
  response_with_metadata, no_metadata,
}
use rcs_bulk_messaging_syste.Rcssms.Sending.{post_message, if_admitted, send_rcs_message}
use rcs_bulk_messaging_syste.Message.Types.{pending, rcs, Message}
use rcs_bulk_messaging_syste.Message.Content.{truthy}
use rcs_bulk_messaging_syste.Store.Rows.{get_by_id}
use rcs_bulk_messaging_syste.Delivery.World.{answer}
use rcs_bulk_messaging_syste.Delivery.Send.{send_request, no_lower}
use rcs_bulk_messaging_syste.Delivery.Jobs.{process_message_job}
use rcs_bulk_messaging_syste.Delivery.Requests.{exchange}
use rcs_bulk_messaging_syste.Delivery.Codeless.{process_message_job-codeless}

-- The server takes the message: it is reached, and answers with a list of identifiers and no error.
unfoldable pub IsTaken : Http → Result Json → Fields → Items → Type 0
IsTaken http posted fs js =
    (result : Json) × (posted ≡ ok result)
    × (error_code_in http.show_json result ≡ ok [])
    × (get_or (codes "data") (array no_items) result ≡ ok (array (item (object fs) js)))

abbrev pub taken_failure : Exn
taken_failure = failed (codes "Failed to send RCS message: " ++ exception_text no_metadata)

taken-conclude :
    (http : Http) (posted : Result Json) (fs : Fields) (js : Items)
    → IsTaken http posted fs js
    → conclude http.show (posted >>= parse_send_response http.show_json) ≡ err taken_failure
unfolding IsTaken conclude parse_send_response known_error parse_by parse_data is_true first_item
    get_or response_with_metadata
taken-conclude http posted fs js (result, p, c, d) = ground (arith, p, c, d)

-- The adapter as the aggregator of the delivery service.
unfoldable pub with_rcssms :
    Adapter
    → Http
    → Breaker
    → (ℕ → Bool)
    → (ℕ → Bool)
    → ℕ
    → (Redis → Redis)
    → Token
    → Redis
    → Env
    → Env
with_rcssms a http b up up' later meanwhile t r env = record env {
  name = codes "rcssms";
  capability = λ phone. ok (true ∷ []);
  send_rcs = λ q. (send_rcs_message a http b up up' env.now later meanwhile q t r).0;
}

admitted :
    (show : ℕ → Text) (asked : Result (Unit {0}) × Redis) (t : Token)
    (through : Result SendMessageResponse × Token × Redis)
    → asked.0 ≡ ok tt
    → if_admitted show asked t through ≡ through
unfolding if_admitted
admitted show (err e, r) t through h = cc h
admitted show (ok u, r) t through h = refl

answer-rcs : (env : Env) (q : SendMessageRequest) → q.channel ≡ rcs → answer env q ≡ env.send_rcs q
unfolding answer
answer-rcs env q c = ground (arith, c)

with_rcssms-answer :
    (a : Adapter) (http : Http) (b : Breaker) (up up' : ℕ → Bool) (later : ℕ)
    (meanwhile : Redis → Redis) (t : Token) (r : Redis) (env : Env) (q : SendMessageRequest)
    (fs : Fields) (js : Items)
    → q.channel ≡ rcs
    → (before_request b up env.now r).0 ≡ ok tt
    → IsTaken http (post_message a http env.now q t).0 fs js
    → answer (with_rcssms a http b up up' later meanwhile t r env) q ≡ err taken_failure
unfolding with_rcssms send_rcs_message
with_rcssms-answer a http b up up' later meanwhile t r env q fs js c g k =
    answer-rcs (with_rcssms a http b up up' later meanwhile t r env) q c
    ∙ ap (λ z. z.0) (admitted http.show (before_request b up env.now r) t _ g)
    ∙ taken-conclude http (post_message a http env.now q t).0 fs js k

with_rcssms-capability :
    (a : Adapter) (http : Http) (b : Breaker) (up up' : ℕ → Bool) (later : ℕ)
    (meanwhile : Redis → Redis) (t : Token) (r : Redis) (env : Env) (phone : Text)
    → (with_rcssms a http b up up' later meanwhile t r env).capability phone ≡ ok (true ∷ [])
unfolding with_rcssms
with_rcssms-capability a http b up up' later meanwhile t r env phone = refl

send_request-channel : (m : Message) → m.channel ≡ rcs → (send_request m).channel ≡ rcs
unfolding send_request
send_request-channel m c = c

-- An RCS message with a template that the circuit breaker lets through and the server takes, is sent, and is sent
-- again: the adapter raises on the answer, and the job on that, so that the message stays pending and the job goes
-- back to the queue, as often as it is delivered. The server answers with a list of objects under `data`, and no
-- error.
pub process_message_job-sent_again :
    (a : Adapter) (http : Http) (b : Breaker) (up up' : ℕ → Bool) (later : ℕ)
    (meanwhile : Redis → Redis) (t : Token) (r : Redis) (env : Env) (id : ℕ) (w : World)
    (m : Message) (fs : Fields) (js : Items)
    → get_by_id id w.messages ≡ some m
    → m.status ≡ pending
    → m.channel ≡ rcs
    → truthy m.content.template_id ≡ true
    → (before_request b up env.now r).0 ≡ ok tt
    → IsTaken http (post_message a http env.now (send_request m) t).0 fs js
    → let rcssms = with_rcssms a http b up up' later meanwhile t r env in
      process_message_job rcssms id w
      ≡ (err no_lower, record w { exchanges = w.exchanges ++ exchange rcssms m ∷ [] })
process_message_job-sent_again a http b up up' later meanwhile t r env id w m fs js q p c k g h =
    let rcssms = with_rcssms a http b up up' later meanwhile t r env in
    process_message_job-codeless rcssms id w m _ none q
      (
        p,
        inr (
          k,
          ([], with_rcssms-capability a http b up up' later meanwhile t r env m.recipient_phone),
        ),
      )
      (with_rcssms-answer a http b up up' later meanwhile t r env (send_request m) fs js
        (send_request-channel m c) g h)
