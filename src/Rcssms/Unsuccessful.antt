-- ===== src/Rcssms/Unsuccessful.antt =====
-- What the adapter's answers have in common.
use rcs_bulk_messaging_syste.Prelude.{ℕ, ◌≡◌, refl, Bool, false, Option, none, some, arith}
use rcs_bulk_messaging_syste.Prelude.Text.{Text}
use rcs_bulk_messaging_syste.Prelude.Results.{Result, ok, err, ◌>>=◌}
use rcs_bulk_messaging_syste.Prelude.Json.{Json}
use rcs_bulk_messaging_syste.Breaker.{Breaker, Redis, before_request}
use rcs_bulk_messaging_syste.Delivery.World.{SendMessageRequest, SendMessageResponse}
use rcs_bulk_messaging_syste.Rcssms.{Adapter, Token, Http}
use rcs_bulk_messaging_syste.Rcssms.Answers.{
  parse_send_response, conclude, rejected, parse_data, parse_by, known_error, error_code_in,
  response_with_metadata,
}
use rcs_bulk_messaging_syste.Rcssms.Sending.{post_message, if_admitted, send_rcs_message}

-- A success is never reported.
abbrev pub NoSuccess : Result SendMessageResponse → Type 0
NoSuccess (ok r) = r.success ≡ false
NoSuccess (err e) = Unit {0}

parse_data-NoSuccess : (result : Json) → NoSuccess (parse_data result)
unfolding parse_data response_with_metadata rejected
parse_data-NoSuccess result = ground arith

parse_by-NoSuccess :
    (code : Text) (known : Option Text) (result : Json) → NoSuccess (parse_by code known result)
unfolding parse_by rejected
parse_by-NoSuccess code none result = parse_data-NoSuccess result
parse_by-NoSuccess code (some t) result = refl

bind-NoSuccess :
    {A : Type 0} (x : Result A) (f : A → Result SendMessageResponse)
    → ((a : A) → NoSuccess (f a))
    → NoSuccess (x >>= f)
bind-NoSuccess (ok a) f h = h a
bind-NoSuccess (err e) f h = tt

parse_send_response-NoSuccess :
    (show : Json → Text) (result : Json) → NoSuccess (parse_send_response show result)
unfolding parse_send_response
parse_send_response-NoSuccess show result =
    bind-NoSuccess (error_code_in show result) (λ code. parse_by code (known_error code) result)
      (λ code. parse_by-NoSuccess code (known_error code) result)

conclude-NoSuccess :
    (show : ℕ → Text) (r : Result SendMessageResponse) → NoSuccess r → NoSuccess (conclude show r)
unfolding conclude rejected
conclude-NoSuccess show r h = ground (arith, h)

if_admitted-NoSuccess :
    (show : ℕ → Text) (asked : Result (Unit {0}) × Redis) (t : Token)
    (through : Result SendMessageResponse × Token × Redis)
    → NoSuccess through.0
    → NoSuccess (if_admitted show asked t through).0
unfolding if_admitted
if_admitted-NoSuccess show (err e, r) t through h = conclude-NoSuccess show (err e) tt
if_admitted-NoSuccess show (ok u, r) t through h = h

-- Whatever the server answers, and whatever the state of the circuit and of the token, a send is never reported as
-- a success: it is reported as a failure, or it raises.
pub send_rcs_message-NoSuccess :
    (a : Adapter) (http : Http) (b : Breaker) (up up' : ℕ → Bool) (now later : ℕ)
    (meanwhile : Redis → Redis) (q : SendMessageRequest) (t : Token) (r : Redis)
    → NoSuccess (send_rcs_message a http b up up' now later meanwhile q t r).0
unfolding send_rcs_message
send_rcs_message-NoSuccess a http b up up' now later meanwhile q t r =
    if_admitted-NoSuccess http.show (before_request b up now r) t _ (
      conclude-NoSuccess http.show _ (
        bind-NoSuccess (post_message a http now q t).0 (parse_send_response http.show_json)
          (parse_send_response-NoSuccess http.show_json)))
