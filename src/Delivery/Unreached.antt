-- ===== src/Delivery/Unreached.antt =====
-- The branch for a recipient that RCS does not reach.
use rcs_bulk_messaging_syste.Prelude.{ℕ, ◌≡◌, ◌≢◌, none, some, [], ◌∷◌, ◌++◌}
use rcs_bulk_messaging_syste.Prelude.Results.{Result, ok}
use rcs_bulk_messaging_syste.Prelude.Text.{codes}
use rcs_bulk_messaging_syste.Message.Types.{pending, failed, sms, rcs_not_supported, Message}
use rcs_bulk_messaging_syste.Message.Lifecycle.{record_attempt}
use rcs_bulk_messaging_syste.Message.Fallback.{fallback_child}
use rcs_bulk_messaging_syste.Delivery.World.{Env, World}
use rcs_bulk_messaging_syste.Delivery.Send.{job_for}
use rcs_bulk_messaging_syste.Store.Status.{row_status, mark_of, row_mark}
use rcs_bulk_messaging_syste.Prelude.{◌≢◌}

pub failed_rcs : ℕ → Message → Message
failed_rcs now m =
    record_attempt now failed m.aggregator none none (some (codes "RCS not supported")) (record m {
      status = failed;
      updated_at = now;
      failed_at = some now;
      failure_reason = some rcs_not_supported;
      error_code = none;
      error_message = some (codes "RCS not supported");
    })

-- What is left of `m`, and the child that is saved and queued.
abbrev FellBackTo : Env → Message → World → Result (Unit {0}) × World → Type 0
FellBackTo env m w o =
    (o.0 ≡ ok tt)
    × (row_status m.id o.1.messages ≡ some failed)
    × (row_mark env.fresh_id o.1.messages
        ≡ some (mark_of (fallback_child env.show env.now env.fresh_id (failed_rcs env.now m))))
    × (o.1.broker
        ≡ w.broker
          ++ job_for (fallback_child env.show env.now env.fresh_id (failed_rcs env.now m)) ∷ [])
    × (o.1.exchanges ≡ w.exchanges)

-- What is left of `m`, and of an SMS message that is saved and queued for it.
abbrev pub FellBack : Env → Message → World → Result (Unit {0}) × World → Type 0
FellBack env m w o =
    (o.0 ≡ ok tt)
    × (row_status m.id o.1.messages ≡ some failed)
    × ((c : Message) × ((row_mark c.id o.1.messages ≡ some (mark_of c))
          × (c.id ≡ env.fresh_id)
          × (c.status ≡ pending)
          × (c.channel ≡ sms)
          × (c.parent_message_id ≡ some m.id)
          × (c.campaign_id ≡ m.campaign_id)
          × (o.1.broker ≡ w.broker ++ job_for c ∷ [])))
    × (o.1.exchanges ≡ w.exchanges)
