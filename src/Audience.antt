-- ===== src/Audience.antt =====
-- `class Contact` and `class Audience` of apps/core/domain/audience.py. A method takes the instant at which
-- it reads the clock. A row of a CSV file is a dictionary of texts.
pub mod Invariant
pub mod Distinct
mod Tests
use rcs_bulk_messaging_syste.Prelude.{
  ℕ, zero, suc, ◌+◌, ◌-◌, ◌*◌, ◌≤◌, ◌<◌, ◌≡◌, refl, sym, ap, ◌∙◌, subst, ◌≢◌, ◌↔◌, ◌⊎◌, inl, inr,
  Bool, true, false, ◌&&◌, ◌||◌, not, Option, none, some, List, [], ◌∷◌, ◌++◌, map, arith, ltb, leb,
  ◌==◌, if◌then◌else◌, ltb→lt, leb→le, ==_iff, Bool-cases, Option-cases, is_some, or_else, length,
  take, drop, filter, any, count, All, length-append, length-take, length-filter-le, All-append,
}
use rcs_bulk_messaging_syste.Prelude.Text.{
  Text, codes, is_empty, text_eq, text_eq_iff, text_eq_refl, starts_with, is_in, lower, is_digit,
  strip, join, length-strip-le,
}
use rcs_bulk_messaging_syste.Prelude.Results.{
  Exn, value_error, invalid_state_transition, not_implemented, attribute_error, type_error,
  queue_exception, aggregator_exception, rate_limit_exception, circuit_open, database_error, Result,
  ok, err, ◌>>=◌, ◌>>◌, raise_if, is_ok, Result-cases, ok_injective,
}
use rcs_bulk_messaging_syste.Prelude.Dict.{
  Dict, get_item, set_item, get_item-set_item, get_item-set_item_self,
}
use rcs_bulk_messaging_syste.Phone.{plus, normalize_phone, normalize_contact}

pub data AudienceType : Type 0 where
  static dynamic suppression : AudienceType

pub data AudienceStatus : Type 0 where
  draft processing active archived : AudienceStatus

pub record Contact : Type 0 where
  pub phone_number : Text
  pub metadata : Dict Text

-- The constructor of a contact checks the number.
unfoldable pub new_contact : Text → Dict Text → Result Contact
new_contact phone metadata =
    if not (starts_with plus phone)
    then err (value_error (codes "Phone number must be in E.164 format: " ++ phone))
    else ok (record { phone_number = phone; metadata = metadata })

pub record Audience : Type 0 where
  pub id : ℕ
  pub tenant_id : ℕ
  pub name : Text
  pub audience_type : AudienceType
  pub status : AudienceStatus
  pub contacts : List Contact
  pub query : Option Text
  pub total_contacts : ℕ
  pub valid_contacts : ℕ
  pub invalid_contacts : ℕ
  pub created_at : ℕ
  pub updated_at : ℕ
  pub last_used_at : Option ℕ

unfoldable pub create : ℕ → ℕ → ℕ → Text → AudienceType → Audience
create now id tenant_id name audience_type = record {
  id = id;
  tenant_id = tenant_id;
  name = name;
  audience_type = audience_type;
  status = draft;
  contacts = [];
  query = none;
  total_contacts = 0;
  valid_contacts = 0;
  invalid_contacts = 0;
  created_at = now;
  updated_at = now;
  last_used_at = none;
}

-- `create_dynamic`, with the query as text.
unfoldable pub create_dynamic : ℕ → ℕ → ℕ → Text → Text → Audience
unfolding create
create_dynamic now id tenant_id name query = record (create now id tenant_id name dynamic) {
  query = some query;
}

abbrev pub is_static : AudienceType → Bool
is_static static = true
is_static _ = false

abbrev pub has_phone : Text → List Contact → Bool
has_phone p cs = any (λ c. text_eq c.phone_number p) cs

-- The loop of `add_contacts`: a number that is there already is passed over.
unfoldable pub add_new : List Contact → Audience → Audience
add_new [] a = a
add_new (c ∷ cs) a =
    let added =
      add_new cs
        (record a { contacts = a.contacts ++ c ∷ []; valid_contacts = a.valid_contacts + 1 }) in
    let passed = add_new cs a in if has_phone c.phone_number a.contacts then passed else added

abbrev pub not_static : Text → Exn
not_static what = value_error (codes "Can only " ++ (what ++ codes " to static audiences"))

unfoldable pub add_contacts : ℕ → List Contact → Audience → Result Audience
add_contacts now cs a =
    if not (is_static a.audience_type)
    then err (not_static (codes "add contacts"))
    else ok (record (add_new cs a) {
      total_contacts = length (add_new cs a).contacts;
      updated_at = now;
    })

-- The audience without the number, and whether it was there.
unfoldable pub remove_contact : ℕ → Text → Audience → Bool × Audience
remove_contact now phone a =
    if ltb (length kept) (length a.contacts)
    then (
      true,
      record a {
        contacts = kept;
        total_contacts = length kept;
        valid_contacts = length kept;
        updated_at = now;
      },
    )
    else (false, record a { contacts = kept })
  where
    kept : List Contact
    kept = filter (λ c. not (text_eq c.phone_number phone)) a.contacts

-- `row.get("phone") or row.get("phone_number")`, where the empty text counts as missing.
abbrev pub non_empty : Option Text → Option Text
non_empty none = none
non_empty (some []) = none
non_empty (some (x ∷ xs)) = some (x ∷ xs)

abbrev pub first_of : Option Text → Option Text → Option Text
first_of none o = o
first_of (some p) o = some p

unfoldable pub phone_of : Dict Text → Option Text
phone_of row =
    first_of (non_empty (get_item (codes "phone") row))
      (non_empty (get_item (codes "phone_number") row))

unfoldable pub other_columns : Dict Text → Dict Text
other_columns row =
    filter (λ (k, v). not (text_eq k (codes "phone") || text_eq k (codes "phone_number"))) row

-- The contacts, the imported and the skipped of an import so far.
pub record Import : Type 0 where
  pub contacts : List Contact
  pub imported : ℕ
  pub skipped : ℕ

abbrev pub take_contact : Result Contact → Import → Import
take_contact (ok c) i = record i { contacts = i.contacts ++ c ∷ []; imported = i.imported + 1 }
take_contact (err e) i = record i { skipped = i.skipped + 1 }

abbrev pub take_phone : Option Text → Dict Text → Import → Import
take_phone none metadata i = record i { skipped = i.skipped + 1 }
take_phone (some p) metadata i = take_contact (new_contact (normalize_contact p) metadata) i

unfoldable pub import_rows : List (Dict Text) → Import → Import
import_rows [] i = i
import_rows (row ∷ rows) i = import_rows rows (take_phone (phone_of row) (other_columns row) i)

-- The texts of the errors are left out of what it returns.
unfoldable pub import_from_csv : ℕ → List (Dict Text) → Audience → Result (Audience × Import)
import_from_csv now rows a =
    if not (is_static a.audience_type)
    then err (not_static (codes "import CSV"))
    else ok (
      record a {
        contacts = done.contacts;
        total_contacts = length done.contacts;
        valid_contacts = done.imported;
        invalid_contacts = done.skipped;
        status = active;
        updated_at = now;
      },
      done,
    )
  where
    done : Import
    done = import_rows rows (record { contacts = a.contacts; imported = 0; skipped = 0 })

abbrev pub is_draft : AudienceStatus → Bool
is_draft draft = true
is_draft _ = false

unfoldable pub activate : ℕ → Audience → Result Audience
activate now a =
    if not (is_draft a.status)
    then err (value_error (codes "Cannot activate audience in this status"))
    else if a.total_contacts == 0
    then err (value_error (codes "Cannot activate empty audience"))
    else ok (record a { status = active; updated_at = now })

unfoldable pub archive : ℕ → Audience → Audience
archive now a = record a { status = archived; updated_at = now }

unfoldable pub mark_used : ℕ → Audience → Audience
mark_used now a = record a { last_used_at = some now }

-- `contacts[offset:]`, then `contacts[:limit]` if there is a limit that is not 0.
abbrev up_to : Option ℕ → List Contact → List Contact
up_to none cs = cs
up_to (some zero) cs = cs
up_to (some (suc n)) cs = take (suc n) cs

-- A dynamic audience has no contacts to show.
unfoldable pub get_contacts : Option ℕ → ℕ → Audience → List Contact
get_contacts limit offset a = elim a.audience_type [
  | dynamic ↦ []
  | _ ↦ up_to limit (drop offset a.contacts)
]

unfoldable pub get_phone_numbers : Audience → List Text
get_phone_numbers a = map (λ c. c.phone_number) a.contacts
