-- ===== src/Message/Tests.antt =====
-- One message, sent over RCS and failed.
use rcs_bulk_messaging_syste.Prelude.{
  ℕ, ◌+◌, ◌≤◌, ◌≡◌, refl, sym, ap, ◌≢◌, ◌⊎◌, true, false, none, some, [], ◌∷◌, length,
}
use rcs_bulk_messaging_syste.Prelude.Text.{Text, codes}
use rcs_bulk_messaging_syste.Prelude.Results.{Result, ok, err}
use rcs_bulk_messaging_syste.Message.Types.{
  pending, queued, failed, expired, rcs, rcs_not_supported, network_error, MessageContent, Message,
}
use rcs_bulk_messaging_syste.Message.Lifecycle.{
  create, can_transition_to, queue, mark_sent, mark_failed, is_terminal,
}
use rcs_bulk_messaging_syste.Message.Fallback.{
  should_trigger_fallback, fallback_child, create_fallback_message,
}
use rcs_bulk_messaging_syste.Message.Steps.{fails, queues, sends, here, next}
use rcs_bulk_messaging_syste.Message.Content.{to_sms_text}
use rcs_bulk_messaging_syste.Message.Invariant.{IsConsistent, create-Reach-IsConsistent}
use rcs_bulk_messaging_syste.Message.Progress.{Step-status, start, change, Run-bounded}
use rcs_bulk_messaging_syste.Message.FallbackLaws.{
  create_fallback_message_lem, ChildOrRaise, length-to_sms_text-le,
}

abbrev content : MessageContent
content = record {
  text = codes "Hello";
  rich_card = none;
  suggestions = [];
  template_id = some (codes "T1");
  variables = codes "Asha" ∷ [];
  rcs_type = codes "BASIC";
}

abbrev pub phone : Text
phone = codes "9876543210"

abbrev medium_text : Text
medium_text = codes "medium"

abbrev new_message : Message
unfolding create
new_message = create 100 1 7 3 phone content medium_text rcs none

abbrev or_same : Result Message → Message → Message
or_same (ok m) d = m
or_same (err e) d = d

abbrev queued_message : Message
unfolding queue
queued_message = or_same (queue 110 new_message) new_message

abbrev sent_message : Message
unfolding mark_sent
sent_message =
    or_same (mark_sent 120 (codes "rcssms") (some (codes "X1")) queued_message) queued_message

abbrev failed_message : Message
unfolding mark_failed
failed_message = or_same (mark_failed 130 network_error none none queued_message) queued_message

abbrev unsupported_message : Message
unfolding mark_failed
unsupported_message = or_same (mark_failed 130 rcs_not_supported none none new_message) new_message

create-Reach-IsConsistent_example : IsConsistent sent_message
unfolding queue mark_sent create
create-Reach-IsConsistent_example =
    create-Reach-IsConsistent 100 1 7 3 phone content medium_text rcs none
      (next (next here (queues 110 refl)) (sends 120 (codes "rcssms") (some (codes "X1")) refl))

Step-status_example :
    (queued_message ≡ new_message)
    ⊎ (can_transition_to queued_message.status new_message ≡ true)
    ⊎ ((new_message.status ≡ failed)
        × (queued_message.status ≡ pending)
        × (queued_message.retry_count ≡ new_message.retry_count + 1))
    ⊎ ((is_terminal new_message ≡ false) × (queued_message.status ≡ expired))
unfolding queue create
Step-status_example = Step-status (queues 110 refl)

Run-bounded_example : 1 ≤ 23
unfolding queue create
Run-bounded_example =
    Run-bounded (create-Reach-IsConsistent 100 1 7 3 phone content medium_text rcs none here)
      (change start (queues 110 refl) (λ e. pending≢queued (ap (λ m. m.status) (sym e))))
  where
    pending≢queued : pending ≢ queued
    pending≢queued h = cc

abbrev shown : ℕ → Text
shown n = codes "id"

unsupported_child :
    create_fallback_message shown 150 2 unsupported_message
    ≡ ok (fallback_child shown 150 2 unsupported_message)
unfolding create_fallback_message should_trigger_fallback mark_failed create
unsupported_child = refl

length-to_sms_text-le_example : length (to_sms_text content) ≤ 1600
length-to_sms_text-le_example = length-to_sms_text-le content

create_fallback_message_lem_example : ChildOrRaise shown 150 2 unsupported_message
unfolding mark_failed create
create_fallback_message_lem_example = create_fallback_message_lem shown 150 2 unsupported_message (
    create-Reach-IsConsistent 100 1 7 3 phone content medium_text rcs none
      (next here (fails 130 rcs_not_supported none none refl)))
