-- ===== src/Prelude/Time.antt =====
-- `datetime` values: an instant in seconds, with or without a time zone. Python refuses to order one
-- with a zone and one without.
use rcs_bulk_messaging_syste.Prelude.{ℕ, Bool, true, false, ltb, leb, if◌then◌else◌}
use rcs_bulk_messaging_syste.Prelude.Text.{codes}
use rcs_bulk_messaging_syste.Prelude.Results.{Exn, type_error, Result, ok, err}

pub record Datetime : Type 0 where
  pub is_aware : Bool
  pub instant : ℕ

-- `datetime.now(timezone.utc)` and `datetime.utcnow()`
abbrev pub now_utc : ℕ → Datetime
now_utc t = record { is_aware = true; instant = t }

abbrev pub utcnow : ℕ → Datetime
utcnow t = record { is_aware = false; instant = t }

abbrev pub cannot_compare : Exn
cannot_compare = type_error (codes "can't compare offset-naive and offset-aware datetimes")

abbrev pub same_kind : Bool → Bool → Bool
same_kind true true = true
same_kind true false = false
same_kind false true = false
same_kind false false = true

-- `a <= b` and `a < b`
unfoldable pub datetime_le : Datetime → Datetime → Result Bool
datetime_le a b =
    if same_kind a.is_aware b.is_aware then ok (leb a.instant b.instant) else err cannot_compare

unfoldable pub datetime_lt : Datetime → Datetime → Result Bool
datetime_lt a b =
    if same_kind a.is_aware b.is_aware then ok (ltb a.instant b.instant) else err cannot_compare
