-- ===== src/Delivery/Samples.antt =====
-- A message, the tables that hold it, and worlds outside the program: test data.
use rcs_bulk_messaging_syste.Prelude.{Bool, true, false, none, some, List, [], ◌∷◌}
use rcs_bulk_messaging_syste.Prelude.Results.{
  aggregator_exception, rate_limit_exception, Result, ok, err,
}
use rcs_bulk_messaging_syste.Prelude.Text.{Text, codes}
use rcs_bulk_messaging_syste.Message.Types.{sent, rcs, MessageContent, Message}
use rcs_bulk_messaging_syste.Message.Lifecycle.{create}
use rcs_bulk_messaging_syste.Delivery.World.{SendMessageResponse, Env, World}
use rcs_bulk_messaging_syste.Store.Rows.{MessageRow, to_model}
use rcs_bulk_messaging_syste.Delivery.Jobs.{process_message_job, StatusUpdate}

abbrev pub template_content : MessageContent
template_content = record {
  text = codes "Hello";
  rich_card = none;
  suggestions = [];
  template_id = some (codes "T1");
  variables = [];
  rcs_type = codes "BASIC";
}

abbrev pub sample : Message
unfolding create
sample = create 100 1 7 3 (codes "+919876543210") template_content (codes "medium") rcs none

abbrev pub answered : Result SendMessageResponse → List Bool → Env
answered r reached = record {
  name = codes "rcssms";
  capability = λ phone. ok reached;
  send_rcs = λ q. r;
  send_sms = λ q. r;
  accepts = λ q. true;
  fresh_id = 2;
  show = λ n. codes "id";
  now = 110;
}

abbrev pub taken : Result SendMessageResponse
taken = ok (record {
  success = true;
  external_id = some (codes "X1");
  error_code = none;
  error_message = none;
  retry_after = none;
})

abbrev pub one_message : World
one_message = record {
  messages = to_model sample ∷ [];
  campaigns = [];
  broker = [];
  exchanges = [];
}

abbrev pub refusing : Env
refusing = answered (err (aggregator_exception (codes "no") none none)) (true ∷ [])

abbrev pub world_after : Env → World → World
world_after env w = (process_message_job env 1 w).1

abbrev pub taking : Env
taking = answered taken (true ∷ [])

abbrev pub unreached : Env
unreached = answered taken (false ∷ [])

abbrev pub limiting : Env
limiting = answered (err (rate_limit_exception (codes "slow down") none (some 30))) (true ∷ [])

-- A message that was sent, and is known to the aggregator as X1.
unfoldable pub sent_row : MessageRow
unfolding create to_model
sent_row = record (to_model sample) { status = sent; external_id = some (codes "X1") }

abbrev pub sent_world : World
sent_world = record { messages = sent_row ∷ []; campaigns = []; broker = []; exchanges = [] }

abbrev pub dlr : Text → StatusUpdate
dlr s = record { external_id = codes "X1"; status = s; error_code = none; error_message = none }
