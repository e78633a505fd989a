-- ===== src/Delivery/World.antt =====
-- The state that a call of the delivery service works on, and its monad: exceptions over the loaded
-- message object, the tables and the broker. What lies outside the program is the record `Env`.
use rcs_bulk_messaging_syste.Prelude.{
  ℕ, ◌≡◌, refl, ap, Bool, Option, List, [], ◌∷◌, ◌++◌, if◌then◌else◌,
}
use rcs_bulk_messaging_syste.Prelude.Text.{Text}
use rcs_bulk_messaging_syste.Prelude.Results.{Exn, Result, ok, err}
use rcs_bulk_messaging_syste.Message.Types.{
  MessageChannel, is_rcs, SuggestedAction, RichCard, Message,
}
use rcs_bulk_messaging_syste.Prelude.Time.{Datetime}
use rcs_bulk_messaging_syste.Store.Rows.{MessageRow, save}
use rcs_bulk_messaging_syste.Store.Campaigns.{CampaignRow, recalculate_stats}
use rcs_bulk_messaging_syste.Queue.{QueueMessage, Broker, enqueue, schedule}

-- `SendMessageRequest` and `SendMessageResponse` of apps/core/ports/aggregator.py.
pub record SendMessageRequest : Type 0 where
  pub message_id : ℕ
  pub recipient_phone : Text
  pub channel : MessageChannel
  pub content_text : Text
  pub rich_card : Option RichCard
  pub suggestions : List SuggestedAction
  pub priority : Text
  pub template_id : Option Text
  pub variables : List Text
  pub rcs_type : Text

pub record SendMessageResponse : Type 0 where
  pub success : Bool
  pub external_id : Option Text
  pub error_code : Option Text
  pub error_message : Option Text
  pub retry_after : Option ℕ

-- A request and the answer to it.
pub record Exchange : Type 0 where
  pub request : SendMessageRequest
  pub answer : Result SendMessageResponse

-- The aggregator answers or raises, the broker takes a message or not, `uuid4` draws an identifier,
-- `str` prints one, and the clock stands still during a call.
pub record Env : Type 0 where
  pub name : Text
  pub capability : Text → Result (List Bool)
  pub send_rcs : SendMessageRequest → Result SendMessageResponse
  pub send_sms : SendMessageRequest → Result SendMessageResponse
  pub accepts : QueueMessage → Bool
  pub fresh_id : ℕ
  pub show : ℕ → Text
  pub now : ℕ

-- The tables, the broker, and what was said with the aggregator.
pub record World : Type 0 where
  pub messages : List MessageRow
  pub campaigns : List CampaignRow
  pub broker : Broker
  pub exchanges : List Exchange

pub record Session : Type 0 where
  pub message : Message
  pub world : World

-- An exception keeps what was changed before it.
abbrev pub Action : Type 0 → Type 0
Action A = Session → Result A × Session

module _ {A : Type 0} where
  abbrev pub pure : A → Action A
  pure a s = (ok a, s)

  abbrev pub raise : Exn → Action A
  raise e s = (err e, s)

  abbrev pub lift : Result A → Action A
  lift r s = (r, s)

  -- `try: m except Exception as e: h(e)`
  abbrev pub attempt_or : Action A → (Exn → Action A) → Action A
  attempt_or m h s = let (r, s') = m s in elim r [ ok a ↦ (ok a, s') | err e ↦ h e s' ]

abbrev pub continue : {A B : Type 0} → (A → Action B) → Result A × Session → Result B × Session
continue f (ok a, s) = f a s
continue f (err e, s) = (err e, s)

infixl 5 ◌>>=◌ ◌>>◌
abbrev pub ◌>>=◌ : {A B : Type 0} → Action A → (A → Action B) → Action B
◌>>=◌ m f s = continue f (m s)

abbrev pub ◌>>◌ : {A B : Type 0} → Action A → Action B → Action B
m >> k = m >>= λ _. k

-- The loaded message object.
abbrev pub this_message : Action Message
this_message s = (ok s.message, s)

set_message : Session → Result Message → Result (Unit {0}) × Session
set_message s (ok m) = (ok tt, record s { message = m })
set_message s (err e) = (err e, s)

-- A method of the message object: it changes the object or raises.
unfoldable pub call : (Message → Result Message) → Action (Unit {0})
unfolding set_message
call f s = set_message s (f s.message)

-- How a sequence of actions goes on, or ends.
module _ {A B : Type 0} (m : Action A) (f : A → Action B) (s : Session) where
  pub bind-ok : {a : A} {s' : Session} → m s ≡ (ok a, s') → (m >>= f) s ≡ f a s'
  bind-ok h = ap (continue f) h

  pub bind-err : {e : Exn} {s' : Session} → m s ≡ (err e, s') → (m >>= f) s ≡ (err e, s')
  bind-err h = ap (continue f) h

pub call-ok :
    (f : Message → Result Message) (s : Session) {m : Message}
    → f s.message ≡ ok m
    → call f s ≡ (ok tt, record s { message = m })
unfolding call
call-ok f s h = rw (h, set_message) refl

pub call-err :
    (f : Message → Result Message) (s : Session) {e : Exn}
    → f s.message ≡ err e
    → call f s ≡ (err e, s)
unfolding call
call-err f s h = rw (h, set_message) refl

set_messages : Session → List MessageRow → Session
set_messages s rows = record s { world = w }
  where
    w : World
    w = record (s.world) { messages = rows }

-- `uow.messages.save`
unfoldable pub save_message : Env → Action (Unit {0})
unfolding set_messages
save_message env s = (ok tt, set_messages s (save env.now s.message s.world.messages))

unfoldable pub save_other : Env → Message → Action (Unit {0})
unfolding set_messages
save_other env m s = (ok tt, set_messages s (save env.now m s.world.messages))

set_broker : Session → Result Broker → Result (Unit {0}) × Session
set_broker s (err e) = (err e, s)
set_broker s (ok b) = (ok tt, record s { world = w })
  where
    w : World
    w = record (s.world) { broker = b }

-- `queue.enqueue` and `queue.schedule`
unfoldable pub publish : Env → QueueMessage → Action (Unit {0})
unfolding set_broker
publish env q s = set_broker s (enqueue env.accepts q s.world.broker)

unfoldable pub publish_later : Env → QueueMessage → Datetime → Action (Unit {0})
unfolding set_broker
publish_later env q at s = set_broker s (schedule env.accepts env.now q at s.world.broker)

-- `uow.campaigns.recalculate_stats`
unfoldable pub recalculate : Env → ℕ → Action (Unit {0})
recalculate env cid s = (ok tt, record s { world = w })
  where
    w : World
    w = record (s.world) {
      campaigns = recalculate_stats env.now cid s.world.messages s.world.campaigns;
    }

-- The answer to a request.
unfoldable pub answer : Env → SendMessageRequest → Result SendMessageResponse
answer env q = if is_rcs q.channel then env.send_rcs q else env.send_sms q

-- `send_rcs_message` or `send_sms_message`, by the channel.
unfoldable pub ask_send : Env → SendMessageRequest → Action SendMessageResponse
unfolding answer
ask_send env q s = (answer env q, record s { world = w })
  where
    w : World
    w = record (s.world) {
      exchanges = s.world.exchanges ++ record { request = q; answer = answer env q } ∷ [];
    }

-- `async with uow` where the commit succeeds: an exception rolls the tables back, and neither the broker nor the
-- aggregator.
unfoldable pub transaction : World → Result (Unit {0}) × Session → Result (Unit {0}) × World
transaction w (ok a, s) = (ok tt, s.world)
transaction w (err e, s) =
    (err e, record (s.world) { messages = w.messages; campaigns = w.campaigns })

-- `__aexit__` with what the commit comes to: one that raises, after a body that returned, rolls the tables back, and
-- raises again.
unfoldable pub committing :
    Result (Unit {0}) → World → Result (Unit {0}) × World → Result (Unit {0}) × World
committing (ok u) w o = o
committing (err e) w (err x, w') = (err x, w')
committing (err e) w (ok u, w') =
    (err e, record w' { messages = w.messages; campaigns = w.campaigns })
