-- ===== src/Rcssms.antt =====
-- `class RcsSmsAdapter` of apps/adapters/aggregators/rcssms_adapter.py: the aggregator behind the delivery service.
-- The HTTP client is not part of the program: what it answers is an argument, `Http`, with the printing of
-- numbers and of JSON, and Base64.
pub mod Answers
pub mod Sending
pub mod Unsuccessful
pub mod Resent
pub mod Repeated
mod Tests
use rcs_bulk_messaging_syste.Prelude.{
  ℕ, ◌+◌, Bool, false, ◌&&◌, not, Option, none, some, [], ◌++◌, ltb, leb, if◌then◌else◌, or_else,
}
use rcs_bulk_messaging_syste.Prelude.Text.{Text, codes, is_empty}
use rcs_bulk_messaging_syste.Prelude.Results.{
  Exn, aggregator_exception, http_status_error, Result, ok, err, ◌>>=◌, ◌>>◌,
}
use rcs_bulk_messaging_syste.Prelude.Dict.{Dict}
use rcs_bulk_messaging_syste.Prelude.Json.{Json, null, is_true, get_or, str_of}

pub record Adapter : Type 0 where
  pub username : Text
  pub password : Text
  pub rcs_id : Text
  pub client_secret : Option Text
  pub use_bearer : Bool

-- The cached token, which is JSON of the answer, and when it expires.
pub record Token : Type 0 where
  pub bearer_token : Json
  pub token_expires_at : Option ℕ

pub record Response : Type 0 where
  pub status_code : ℕ
  pub reason : Text
  pub json : Result Json

-- The JSON of a send; `password` is left out with a bearer token, and `variables` without any.
pub record Payload : Type 0 where
  pub rcstype : Text
  pub rcsid : Text
  pub msisdn : Text
  pub templateid : Option Text
  pub username : Text
  pub password : Option Text
  pub variables : Option (Dict Text)

pub record Http : Type 0 where
  pub post_token : Text → Result Response
  pub post_send : Payload → Option Text → Result Response
  pub show : ℕ → Text
  pub show_json : Json → Text
  pub base64 : Text → Text

-- `raise_for_status`
unfoldable pub raise_for_status : Response → Result (Unit {0})
raise_for_status r =
    if leb 200 r.status_code && ltb r.status_code 300
    then ok tt
    else err (http_status_error r.status_code r.reason)

unfoldable pub json_of : Result Response → Result Json
unfolding raise_for_status
json_of posted = do r ← posted; raise_for_status r; r.json

-- `_get_bearer_token`: a token is kept for 23 hours, and what was fetched is kept before it is looked at.
unfoldable pub is_fresh : ℕ → Token → Bool
is_fresh now t = is_true t.bearer_token && unexpired t.token_expires_at
  where
    unexpired : Option ℕ → Bool
    unexpired none = false
    unexpired (some e) = ltb now e

unfoldable pub token_of : Json → Result Json
token_of answer = do
  access ← get_or (codes "access_token") null answer
  (if is_true access then ok access else get_or (codes "token") null answer)

abbrev pub failed : Text → Exn
failed t = aggregator_exception t none none

unfoldable pub keep_token : ℕ → Result Json → Token → Result Json × Token
keep_token now (err e) t = (err e, t)
keep_token now (ok j) t = (
  (if is_true j then ok j else err (failed (codes "Bearer token not found in response"))),
  record { bearer_token = j; token_expires_at = some (now + 82800) },
)

-- `if not self.client_secret`
unfoldable pub is_given : Option Text → Bool
is_given none = false
is_given (some t) = not (is_empty t)

unfoldable pub get_bearer_token : Adapter → Http → ℕ → Token → Result Json × Token
get_bearer_token a http now t =
    let credentials = http.base64 (a.username ++ codes ":" ++ or_else a.client_secret []) in
    let fetched = json_of (http.post_token credentials) >>= token_of in
    if is_fresh now t
    then (ok t.bearer_token, t)
    else if not (is_given a.client_secret)
    then (err (failed (codes "client_secret is required for bearer token authentication")), t)
    else keep_token now fetched t

unfoldable pub authorization : Http → Result Json × Token → Result (Option Text) × Token
authorization http (err e, t) = (err e, t)
authorization http (ok j, t) = (ok (some (codes "Bearer " ++ str_of http.show_json j)), t)

-- `_get_headers`: the `Authorization` header, if there is one.
unfoldable pub get_headers : Adapter → Http → ℕ → Token → Result (Option Text) × Token
get_headers a http now t =
    if a.use_bearer then authorization http (get_bearer_token a http now t) else (ok none, t)
