-- ===== src/Rcssms/Answers.antt =====
-- What the adapter makes of the answer to a send, and of a delivery report.
use rcs_bulk_messaging_syste.Prelude.{
  ℕ, ◌-◌, false, ◌&&◌, Option, none, some, [], ◌∷◌, ◌++◌, map, leb, if◌then◌else◌, or_else,
}
use rcs_bulk_messaging_syste.Prelude.Text.{Text, codes}
use rcs_bulk_messaging_syste.Prelude.Results.{
  Exn, attribute_error, type_error, circuit_open, http_status_error, Result, ok, err, ◌>>=◌,
}
use rcs_bulk_messaging_syste.Prelude.Dict.{Dict, get_item}
use rcs_bulk_messaging_syste.Prelude.Json.{
  Json, null, string, array, no_items, is_true, get_or, first_item, str_of,
}
use rcs_bulk_messaging_syste.Delivery.World.{SendMessageResponse}
use rcs_bulk_messaging_syste.Delivery.Send.{exception_text}
use rcs_bulk_messaging_syste.Rcssms.{failed}

-- `upper()` of ASCII text.
unfoldable pub upper_char : ℕ → ℕ
upper_char c = if leb 97 c && leb c 122 then c - 32 else c

unfoldable pub upper : Text → Text
upper = map upper_char

unfoldable pub rcssms_error_codes : Dict Text
rcssms_error_codes =
    (codes "13", codes "Invalid JSON packet")
    ∷ (codes "10", codes "Missing required fields (username/password/type/msisdn)")
    ∷ (codes "15", codes "Account validity expired")
    ∷ (codes "21", codes "Username does not exist or is invalid")
    ∷ (codes "30", codes "Token validity expired")
    ∷ (codes "22", codes "Incorrect username/password or token")
    ∷ (codes "23", codes "Insufficient credit")
    ∷ (codes "24", codes "Incorrect number list")
    ∷ (codes "18", codes "Template ID not found")
    ∷ []

-- `str(result.get("error") or result.get("errorcode") or "")`
unfoldable pub error_code_in : (Json → Text) → Json → Result Text
error_code_in show result = do
  e ← get_or (codes "error") null result
  (if is_true e then ok (str_of show e) else (do
    c ← get_or (codes "errorcode") null result
    (if is_true c then ok (str_of show c) else ok [])))

abbrev pub no_metadata : Exn
no_metadata =
    type_error
      (codes "SendMessageResponse.__init__() got an unexpected keyword argument 'metadata'")

-- The constructor of the response is given `metadata`, which it does not have.
unfoldable pub response_with_metadata : Json → Json → Result SendMessageResponse
response_with_metadata external_id metadata = err no_metadata

unfoldable pub rejected : Option Text → Text → SendMessageResponse
rejected code text = record {
  success = false;
  external_id = none;
  error_code = code;
  error_message = some text;
  retry_after = none;
}

unfoldable pub parse_data : Json → Result SendMessageResponse
parse_data result = do
  found ← get_or (codes "data") (array no_items) result
  (if is_true found
      then (do
        first ← first_item found
        id ← get_or (codes "msgid") null first
        response_with_metadata id found)
      else ok (rejected none (codes "Unexpected response format from rcssms.in")))

unfoldable pub known_error : Text → Option Text
known_error [] = none
known_error (c ∷ s) = get_item (c ∷ s) rcssms_error_codes

unfoldable pub parse_by : Text → Option Text → Json → Result SendMessageResponse
parse_by code none result = parse_data result
parse_by code (some text) result = ok (rejected (some code) text)

unfoldable pub parse_send_response : (Json → Text) → Json → Result SendMessageResponse
parse_send_response show result = do
  code ← error_code_in show result
  parse_by code (known_error code) result

-- The `except` clauses.
unfoldable pub conclude : (ℕ → Text) → Result SendMessageResponse → Result SendMessageResponse
conclude show (ok r) = ok r
conclude show (err (circuit_open t)) = ok (rejected (some (codes "CIRCUIT_OPEN")) t)
conclude show (err (http_status_error code t)) = ok (rejected (some (show code)) t)
conclude show (err e) = err (failed (codes "Failed to send RCS message: " ++ exception_text e))

pub record DeliveryStatus : Type 0 where
  pub external_id : Json
  pub status : Text
  pub metadata : Json

unfoldable pub status_mapping : Dict Text
status_mapping =
    (codes "DELIVERED", codes "delivered")
    ∷ (codes "SENT", codes "sent")
    ∷ (codes "FAILED", codes "failed")
    ∷ (codes "UNDELIVERED", codes "failed")
    ∷ (codes "READ", codes "read")
    ∷ (codes "APPROVED", codes "delivered")
    ∷ (codes "REJECTED", codes "failed")
    ∷ []

-- `(status or "").upper()`
unfoldable pub upper_of : Json → Result Text
upper_of (string s) = ok (upper s)
upper_of j =
    if is_true j then err (attribute_error (codes "object has no attribute 'upper'")) else ok []

-- `_parse_dlr_payload`: an exception is logged, and there is no status.
unfoldable pub dlr_of : Json → Result DeliveryStatus
dlr_of payload = do
  s ← get_or (codes "status") null payload
  raw_status ← upper_of s
  msgid ← get_or (codes "msgid") null payload
  template ← get_or (codes "templateid") null payload
  ok (record {
    external_id = if is_true msgid then msgid else template;
    status = or_else (get_item raw_status status_mapping) (codes "unknown");
    metadata = payload;
  })

unfoldable pub parse_dlr_payload : Json → Option DeliveryStatus
parse_dlr_payload payload = elim (dlr_of payload) [ ok d ↦ some d | err e ↦ none ]
