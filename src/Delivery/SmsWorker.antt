-- ===== src/Delivery/SmsWorker.antt =====
-- `process_fallback_job` of apps/workers/fallback/sms_fallback_worker.py, which works on the parent itself, by its
-- deprecated methods; and `update_stats` of campaign_repo.py.
use rcs_bulk_messaging_syste.Prelude.{
  ℕ, ◌+◌, ◌≡◌, refl, inl, inr, Bool, false, not, Option, none, some, [], map, ◌==◌, if◌then◌else◌,
  Bool-cases,
}
use rcs_bulk_messaging_syste.Prelude.Text.{Text, codes, text_eq}
use rcs_bulk_messaging_syste.Prelude.Results.{
  Exn, attribute_error, aggregator_exception, rate_limit_exception, Result, ok, err, is_ok,
}
use rcs_bulk_messaging_syste.Message.Types.{sms, network_error, Message}
use rcs_bulk_messaging_syste.Message.Content.{to_sms_text}
use rcs_bulk_messaging_syste.Message.Lifecycle.{mark_failed}
use rcs_bulk_messaging_syste.Message.Fallback.{
  should_trigger_fallback, should_fallback_to_sms, trigger_fallback,
}
use rcs_bulk_messaging_syste.Store.Campaigns.{CampaignRow}
use rcs_bulk_messaging_syste.Store.Rows.{get_by_id}
use rcs_bulk_messaging_syste.Delivery.World.{
  SendMessageRequest, Env, World, Action, pure, raise, attempt_or, ◌>>=◌, ◌>>◌, this_message, call,
  save_message, ask_send, transaction,
}

-- Whether the worker has an SMS adapter is an argument, `configured`.
unfoldable pub sms_request : Message → SendMessageRequest
sms_request m = record {
  message_id = m.id;
  recipient_phone = m.recipient_phone;
  channel = sms;
  content_text = to_sms_text m.content;
  rich_card = none;
  suggestions = [];
  priority = m.priority;
  template_id = m.content.template_id;
  variables = m.content.variables;
  rcs_type = [];
}

-- `Message` has no such method.
unfoldable pub mark_fallback_sent : Message → Result Message
mark_fallback_sent m =
    err (attribute_error (codes "'Message' object has no attribute 'mark_fallback_sent'"))

-- One entry of `stats_update`, for the columns that are counters; a key that is no column is skipped.
unfoldable pub add_stat : Text → ℕ → CampaignRow → CampaignRow
add_stat key n r =
    if text_eq key (codes "messages_sent")
    then record r { messages_sent = r.messages_sent + n }
    else if text_eq key (codes "messages_delivered")
    then record r { messages_delivered = r.messages_delivered + n }
    else if text_eq key (codes "messages_failed")
    then record r { messages_failed = r.messages_failed + n }
    else if text_eq key (codes "messages_read")
    then record r { messages_read = r.messages_read + n }
    else if text_eq key (codes "fallback_triggered")
    then record r { fallback_triggered = r.fallback_triggered + n }
    else if text_eq key (codes "recipient_count")
    then record r { recipient_count = r.recipient_count + n }
    else if text_eq key (codes "opt_outs")
    then record r { opt_outs = r.opt_outs + n }
    else r

unfoldable pub update_stats : ℕ → Text → ℕ → Action (Unit {0})
update_stats cid key n s =
    (ok tt, record s { world = record (s.world) { campaigns = map add s.world.campaigns } })
  where
    add : CampaignRow → CampaignRow
    add r = if r.id == cid then add_stat key n r else r

unfoldable pub send_fallback : Env → Bool → Action (Unit {0})
send_fallback env configured = do
  m ← this_message
  (if not configured
      then (do
        call (mark_failed env.now network_error none (some (codes "SMS adapter not configured")))
        save_message env)
      else (do
        response ← ask_send env (sms_request m)
        (if response.success
            then (do
              call mark_fallback_sent
              save_message env
              update_stats m.campaign_id (codes "fallback_triggered") 1)
            else (do
              call (mark_failed env.now network_error response.error_code response.error_message)
              save_message env
              update_stats m.campaign_id (codes "messages_failed") 1))))

failed_with : Env → Text → Action (Unit {0})
failed_with env t = do call (mark_failed env.now network_error none (some t)); save_message env

-- `except AggregatorException`
unfoldable pub on_aggregator_exception : Env → Exn → Action (Unit {0})
unfolding failed_with
on_aggregator_exception env (aggregator_exception t c r) = failed_with env t
on_aggregator_exception env (rate_limit_exception t c r) = failed_with env t
on_aggregator_exception env e = raise e

unfoldable pub process_fallback : Env → Bool → Action (Unit {0})
process_fallback env configured = do
  m ← this_message
  (if not (should_fallback_to_sms m) then pure tt else (do
    call trigger_fallback
    save_message env
    attempt_or (send_fallback env configured) (on_aggregator_exception env)))

fallback_loaded : Env → Bool → World → Option Message → Result (Unit {0}) × World
fallback_loaded env configured w none = (ok tt, w)
fallback_loaded env configured w (some m) =
    transaction w (process_fallback env configured (record { message = m; world = w }))

unfoldable pub process_fallback_job : Env → Bool → ℕ → World → Result (Unit {0}) × World
unfolding fallback_loaded
process_fallback_job env configured message_id w =
    fallback_loaded env configured w (get_by_id message_id w.messages)

-- Whether a message is there and falls back.
abbrev pub falls_back : Option Message → Bool
falls_back none = false
falls_back (some m) = should_trigger_fallback m

loaded_idle :
    (env : Env) (configured : Bool) (w : World) (m : Message)
    → let z = fallback_loaded env configured w (some m) in
      (z.1 ≡ w) × (is_ok z.0 ≡ not (should_trigger_fallback m))
unfolding fallback_loaded process_fallback should_fallback_to_sms call trigger_fallback transaction
loaded_idle env configured w m = elim (Bool-cases (should_trigger_fallback m)) [
  | inl h ↦ rw h (refl, refl)
  | inr h ↦ rw h (refl, refl)
]

idle :
    (env : Env) (configured : Bool) (w : World) (o : Option Message)
    → let z = fallback_loaded env configured w o in (z.1 ≡ w) × (is_ok z.0 ≡ not (falls_back o))
unfolding fallback_loaded
idle env configured w none = (refl, refl)
idle env configured w (some m) = loaded_idle env configured w m

-- The worker never sends: whatever the message, the aggregator and the configuration, it asks for nothing and changes
-- nothing; and it raises exactly when the message is one that falls back, so that the job goes back to the queue.
pub process_fallback_job-idle :
    (env : Env) (configured : Bool) (id : ℕ) (w : World)
    → ((process_fallback_job env configured id w).1 ≡ w)
      × (is_ok (process_fallback_job env configured id w).0
          ≡ not (falls_back (get_by_id id w.messages)))
unfolding process_fallback_job
process_fallback_job-idle env configured id w = idle env configured w (get_by_id id w.messages)
