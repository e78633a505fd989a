-- ===== src/Rcssms/Tests.antt =====
-- Concrete answers of the server.
use rcs_bulk_messaging_syste.Prelude.{ℕ, ◌≡◌, refl, Bool, true, false, none, some, [], ◌∷◌}
use rcs_bulk_messaging_syste.Prelude.Text.{codes, text_eq, starts_with}
use rcs_bulk_messaging_syste.Prelude.Results.{value_error, Result, ok, err}
use rcs_bulk_messaging_syste.Prelude.Json.{
  Json, null, string, array, object, no_items, item, no_fields, field, is_true, lookup, get_or,
}
use rcs_bulk_messaging_syste.Breaker.{Breaker, before_request, get_state}
use rcs_bulk_messaging_syste.Delivery.World.{SendMessageRequest}
use rcs_bulk_messaging_syste.Rcssms.{Adapter, Token, Http, raise_for_status, json_of, get_headers}
use rcs_bulk_messaging_syste.Rcssms.Answers.{error_code_in}
use rcs_bulk_messaging_syste.Rcssms.Sending.{post_message, send_rcs_message}
use rcs_bulk_messaging_syste.Store.Rows.{get_by_id}
use rcs_bulk_messaging_syste.Delivery.Send.{send_request}
use rcs_bulk_messaging_syste.Delivery.Requests.{exchange, Carries}
use rcs_bulk_messaging_syste.Breaker.{no_keys, get, state_of}
use rcs_bulk_messaging_syste.Message.Lifecycle.{create}
use rcs_bulk_messaging_syste.Store.Rows.{to_domain, to_model, of_content_row, to_content_row}
use rcs_bulk_messaging_syste.Store.RowLaws.{stored}
use rcs_bulk_messaging_syste.Phone.{normalize_phone}
use rcs_bulk_messaging_syste.Delivery.Samples.{sample, one_message, taking}
use rcs_bulk_messaging_syste.Rcssms.Unsuccessful.{NoSuccess, send_rcs_message-NoSuccess}
use rcs_bulk_messaging_syste.Rcssms.Resent.{IsTaken, with_rcssms}
use rcs_bulk_messaging_syste.Rcssms.Repeated.{dispatch, copies, subscribe-sent_again}
use rcs_bulk_messaging_syste.Queue.Consumer.{
  Stored, with_headers, subscribe, subscribe_failed, restarted,
}
use rcs_bulk_messaging_syste.Queue.{medium_priority}

abbrev adapter : Adapter
adapter = record {
  username = codes "user";
  password = codes "secret";
  rcs_id = codes "bot";
  client_secret = none;
  use_bearer = false;
}

-- `{"data": [{"msgid": "X1"}]}`
abbrev identified : Json
identified = object (
    field (codes "data")
      (array (item (object (field (codes "msgid") (string (codes "X1")) no_fields)) no_items))
      no_fields)

abbrev server : Http
server = record {
  post_token = λ c. err (value_error []);
  post_send = λ p h. ok (record { status_code = 200; reason = codes "OK"; json = ok identified });
  show = λ n. codes "n";
  show_json = λ j. codes "j";
  base64 = λ c. c;
}

abbrev circuit : Breaker
circuit = record {
  failure_threshold = 5;
  failure_window_seconds = 60;
  recovery_timeout = 60;
  success_threshold = 2;
}

abbrev answering : ℕ → Bool
answering k = true

abbrev no_token : Token
no_token = record { bearer_token = null; token_expires_at = none }

abbrev asked : SendMessageRequest
unfolding create send_request
asked = send_request sample

send_rcs_message-NoSuccess_example :
    NoSuccess
      (send_rcs_message adapter server circuit answering answering 110 111
        (λ r. r)
        asked
        no_token
        no_keys).0
send_rcs_message-NoSuccess_example =
    send_rcs_message-NoSuccess adapter server circuit answering answering 110 111 (λ r. r) asked
      no_token no_keys

loaded_sample : get_by_id 1 one_message.messages ≡ some (stored sample)
unfolding get_by_id to_model to_domain create normalize_phone starts_with
loaded_sample = refl

abbrev job : Stored
unfolding with_headers
job = with_headers (record {
  id = 5;
  queue_name = codes "message.dispatch";
  payload = 1;
  priority = medium_priority;
  delay = none;
  max_retries = 3;
})

-- `MessageProcessError`
abbrev rejects : Bool → Result (Unit {0})
rejects requeue = err (value_error (codes "Message already processed"))

subscribe-sent_again_example :
    let rcssms =
      with_rcssms adapter server circuit answering answering 111 (λ r. r) no_token no_keys taking in
    let x = exchange rcssms (stored sample) in
    (subscribe rejects (dispatch rcssms) 10 (job ∷ []) one_message
      ≡ (err subscribe_failed, job ∷ [], record one_message { exchanges = x ∷ [] }))
    × (restarted rejects (dispatch rcssms) 10 2 (job ∷ []) one_message
        ≡ (job ∷ [], record one_message { exchanges = x ∷ x ∷ [] }))
    × Carries (stored sample) x.request
unfolding IsTaken before_request get_state get post_message get_headers json_of raise_for_status
    error_code_in get_or lookup text_eq create of_content_row to_content_row state_of is_true copies
    job
subscribe-sent_again_example =
    subscribe-sent_again adapter server circuit answering answering 111 (λ r. r) no_token no_keys
      taking one_message (stored sample) (field (codes "msgid") (string (codes "X1")) no_fields)
      no_items rejects job [] 9 2 loaded_sample refl refl refl refl (identified, refl, refl, refl)
      (λ requeue. (_, refl))
