-- ===== src/Rcssms/Sending.antt =====
-- `send_rcs_message`, and the payload that it posts.
use rcs_bulk_messaging_syste.Prelude.{
  ℕ, suc, Bool, Option, none, some, List, [], ◌∷◌, ◌++◌, if◌then◌else◌, is_some,
}
use rcs_bulk_messaging_syste.Prelude.Text.{Text, codes, is_empty}
use rcs_bulk_messaging_syste.Prelude.Results.{Result, ok, err, ◌>>=◌}
use rcs_bulk_messaging_syste.Prelude.Dict.{Dict}
use rcs_bulk_messaging_syste.Prelude.Json.{Json}
use rcs_bulk_messaging_syste.Breaker.{
  Breaker, Redis, before_request, after_body, Body, returns, raises,
}
use rcs_bulk_messaging_syste.Delivery.World.{SendMessageRequest, SendMessageResponse}
use rcs_bulk_messaging_syste.Rcssms.{Adapter, Token, Payload, Http, json_of, get_headers}
use rcs_bulk_messaging_syste.Rcssms.Answers.{upper, parse_send_response, conclude}

-- `{f"var{i + 1}": str(v) for i, v in enumerate(raw_vars)}`
unfoldable pub numbered : (ℕ → Text) → ℕ → List Text → Dict Text
numbered show i [] = []
numbered show i (v ∷ vs) = (codes "var" ++ show (suc i), v) ∷ numbered show (suc i) vs

unfoldable pub variables_of : (ℕ → Text) → List Text → Option (Dict Text)
variables_of show [] = none
variables_of show (v ∷ vs) = some (numbered show 0 (v ∷ vs))

-- `_build_rcs_payload`, of the metadata that the delivery service sets.
unfoldable pub build_rcs_payload : Adapter → Http → SendMessageRequest → Payload
build_rcs_payload a http q =
    let inferred = if is_some q.rich_card then codes "RICH" else codes "BASIC" in
    record {
      rcstype = upper (if is_empty q.rcs_type then inferred else q.rcs_type);
      rcsid = a.rcs_id;
      msisdn = q.recipient_phone;
      templateid = q.template_id;
      username = a.username;
      password = if a.use_bearer then none else some a.password;
      variables = variables_of http.show q.variables;
    }

-- What the breaker is told.
unfoldable pub body_of : Result Json → Body
body_of (ok j) = returns
body_of (err e) = raises e

-- The body of the `async with`, and the token.
unfoldable pub post_message : Adapter → Http → ℕ → SendMessageRequest → Token → Result Json × Token
post_message a http now q t =
    let headers = get_headers a http now t in
    ((do h ← headers.0; json_of (http.post_send (build_rcs_payload a http q) h)), headers.1)

-- A request that the circuit breaker refuses is reported as such; another goes `through`.
unfoldable pub if_admitted :
    (ℕ → Text)
    → Result (Unit {0}) × Redis
    → Token
    → Result SendMessageResponse × Token × Redis
    → Result SendMessageResponse × Token × Redis
if_admitted show (err e, r) t through = (conclude show (err e), t, r)
if_admitted show (ok u, r) t through = through

-- `send_rcs_message`: the request runs until `later`, under the breaker.
unfoldable pub send_rcs_message :
    Adapter
    → Http
    → Breaker
    → (ℕ → Bool)
    → (ℕ → Bool)
    → ℕ
    → ℕ
    → (Redis → Redis)
    → SendMessageRequest
    → Token
    → Redis
    → Result SendMessageResponse × Token × Redis
send_rcs_message a http b up up' now later meanwhile q t r =
    let asked = before_request b up now r in
    let posted = post_message a http now q t in
    if_admitted http.show asked t (
      conclude http.show (posted.0 >>= parse_send_response http.show_json),
      posted.1,
      after_body b up' later (body_of posted.0) (meanwhile asked.1),
    )
