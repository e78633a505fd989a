-- ===== src/Service/Events.antt =====
-- The table `events` of apps/adapters/db/models.py and apps/adapters/db/repositories/event_repo.py over it.
-- The identifier of an event and its metadata, which is always empty, are left out.
use rcs_bulk_messaging_syste.Prelude.{ℕ, ◌+◌, Bool, List, [], ◌∷◌, ◌++◌, ◌==◌, filter}
use rcs_bulk_messaging_syste.Prelude.Text.{Text, codes}
use rcs_bulk_messaging_syste.Prelude.Results.{database_error, Result, ok, err, ◌>>=◌}
use rcs_bulk_messaging_syste.Campaign.Types.{EventData, DomainEvent}

pub record EventRow : Type 0 where
  pub event_type : Text
  pub aggregate_id : ℕ
  pub aggregate_type : Text
  pub version : ℕ
  pub event_data : EventData
  pub created_at : ℕ

abbrev pub of_aggregate : ℕ → EventRow → Bool
of_aggregate i e = e.aggregate_id == i

-- `scalar_one_or_none`, which refuses several rows, and the version after the last one.
unfoldable pub next_version : List EventRow → Result ℕ
next_version [] = ok 1
next_version (e ∷ []) = ok (e.version + 1)
next_version (e ∷ (f ∷ es)) =
    err (database_error (codes "Multiple rows were found when one or none was required"))

unfoldable pub save_event : ℕ → DomainEvent → List EventRow → Result (List EventRow)
save_event now e rows = do
  version ← next_version (filter (of_aggregate e.aggregate_id) rows)
  ok (
      rows
      ++ (record {
        event_type = e.event_type;
        aggregate_id = e.aggregate_id;
        aggregate_type = codes "campaign";
        version = version;
        event_data = e.event_data;
        created_at = now;
      }
          ∷ []))

-- The loop of `_publish_events`.
unfoldable pub save_events : ℕ → List DomainEvent → List EventRow → Result (List EventRow)
save_events now [] rows = ok rows
save_events now (e ∷ es) rows = do rows' ← save_event now e rows; save_events now es rows'
