-- ===== src/Consent.antt =====
-- Consent: `class OptIn` of apps/core/domain/opt_in.py. The values of the preferences, `Any` in the
-- code, are of any type `V`; `metadata`, which no method touches, and `to_dict` are left out.
pub mod History
mod Tests
use rcs_bulk_messaging_syste.Prelude.{
  ℕ, zero, suc, ◌+◌, ◌-◌, ◌*◌, ◌≤◌, ◌<◌, ◌≡◌, refl, sym, ap, ◌∙◌, subst, ◌≢◌, ◌↔◌, ◌⊎◌, inl, inr,
  Bool, true, false, ◌&&◌, ◌||◌, not, Option, none, some, List, [], ◌∷◌, ◌++◌, map, arith, ltb, leb,
  ◌==◌, if◌then◌else◌, ltb→lt, leb→le, ==_iff, Bool-cases, Option-cases, is_some, or_else, length,
  take, drop, filter, any, count, All, length-append, length-take, length-filter-le, All-append,
}
use rcs_bulk_messaging_syste.Prelude.Text.{
  Text, codes, is_empty, text_eq, text_eq_iff, text_eq_refl, starts_with, is_in, lower, is_digit,
  strip, join, length-strip-le,
}
use rcs_bulk_messaging_syste.Prelude.Dict.{
  Dict, get_item, set_item, get_item-set_item, get_item-set_item_self,
}
use rcs_bulk_messaging_syste.Phone.{normalize_phone}
use rcs_bulk_messaging_syste.OptOut.{
  ConsentStatus, opted_in, opted_out, consent_pending, consent_expired,
}

pub data ConsentType : Type 0 where
  promotional transactional informational all : ConsentType

pub data ConsentMethod : Type 0 where
  web_form sms_reply rcs_reply customer_service point_of_sale api : ConsentMethod

pub record ConsentRecord : Type 0 where
  pub timestamp : ℕ
  pub status : ConsentStatus
  pub consent_type : ConsentType
  pub method : ConsentMethod
  pub ip_address : Option Text
  pub user_agent : Option Text
  pub notes : Option Text

pub record OptIn {ℓ} (V : Type ℓ) : Type ℓ where
  pub id : ℕ
  pub tenant_id : ℕ
  pub phone_number : Text
  pub created_at : ℕ
  pub updated_at : ℕ
  pub promotional_status : ConsentStatus
  pub transactional_status : ConsentStatus
  pub informational_status : ConsentStatus
  pub promotional_opted_in_at : Option ℕ
  pub promotional_opted_out_at : Option ℕ
  pub consent_history : List ConsentRecord
  pub is_on_dnd_registry : Bool
  pub dnd_checked_at : Option ℕ
  pub preferences : Dict V

abbrev pub is_opted_in : ConsentStatus → Bool
is_opted_in opted_in = true
is_opted_in _ = false

abbrev pub same_type : ConsentType → ConsentType → Bool
same_type promotional promotional = true
same_type transactional transactional = true
same_type informational informational = true
same_type all all = true
same_type _ _ = false

module _ {ℓ} {V : Type ℓ} where
  -- The constructor, with the clock and the fresh identifier for arguments.
  unfoldable pub create : ℕ → ℕ → ℕ → Text → OptIn V
  create now id tenant phone = record {
    id = id;
    tenant_id = tenant;
    phone_number = normalize_phone phone;
    created_at = now;
    updated_at = now;
    promotional_status = opted_out;
    transactional_status = opted_in;
    informational_status = opted_out;
    promotional_opted_in_at = none;
    promotional_opted_out_at = none;
    consent_history = [];
    is_on_dnd_registry = false;
    dnd_checked_at = none;
    preferences = [];
  }

  -- `_add_consent_record`
  unfoldable pub add_consent_record : ConsentRecord → OptIn V → OptIn V
  add_consent_record r o = record o { consent_history = o.consent_history ++ (r ∷ []) }

  abbrev pub granted : ℕ → ConsentType → OptIn V → OptIn V
  granted now promotional o = record o {
    promotional_status = opted_in;
    promotional_opted_in_at = some now;
  }
  granted now transactional o = record o { transactional_status = opted_in }
  granted now informational o = record o { informational_status = opted_in }
  granted now all o = record o {
    promotional_status = opted_in;
    transactional_status = opted_in;
    informational_status = opted_in;
    promotional_opted_in_at = some now;
  }

  unfoldable pub grant_consent :
      ℕ → ConsentType → ConsentMethod → Option Text → Option Text → Option Text → OptIn V → OptIn V
  unfolding add_consent_record
  grant_consent now consent_type method ip_address user_agent notes o =
      let event : ConsentRecord = record {
        timestamp = now;
        status = opted_in;
        consent_type = consent_type;
        method = method;
        ip_address = ip_address;
        user_agent = user_agent;
        notes = notes;
      } in
      record (add_consent_record event (granted now consent_type o)) { updated_at = now }

  abbrev pub revoked : ℕ → ConsentType → OptIn V → OptIn V
  revoked now promotional o = record o {
    promotional_status = opted_out;
    promotional_opted_out_at = some now;
  }
  revoked now transactional o = record o { transactional_status = opted_out }
  revoked now informational o = record o { informational_status = opted_out }
  revoked now all o = record o {
    promotional_status = opted_out;
    transactional_status = opted_out;
    informational_status = opted_out;
    promotional_opted_out_at = some now;
  }

  unfoldable pub revoke_consent : ℕ → ConsentType → ConsentMethod → Option Text → OptIn V → OptIn V
  unfolding add_consent_record
  revoke_consent now consent_type method reason o =
      let event : ConsentRecord = record {
        timestamp = now;
        status = opted_out;
        consent_type = consent_type;
        method = method;
        ip_address = none;
        user_agent = none;
        notes = reason;
      } in
      record (add_consent_record event (revoked now consent_type o)) { updated_at = now }

  unfoldable pub can_send_promotional : OptIn V → Bool
  can_send_promotional o = if o.is_on_dnd_registry then false else is_opted_in o.promotional_status

  unfoldable pub can_send_transactional : OptIn V → Bool
  can_send_transactional o = is_opted_in o.transactional_status

  unfoldable pub can_send_informational : OptIn V → Bool
  can_send_informational o =
      if o.is_on_dnd_registry then false else is_opted_in o.informational_status

  unfoldable pub can_send_message : Text → OptIn V → Bool
  unfolding can_send_promotional can_send_transactional can_send_informational
  can_send_message message_type o =
      if text_eq message_type (codes "promotional")
      then can_send_promotional o
      else if text_eq message_type (codes "transactional")
      then can_send_transactional o
      else if text_eq message_type (codes "informational")
      then can_send_informational o
      else false

  unfoldable pub mark_on_dnd_registry : ℕ → OptIn V → OptIn V
  mark_on_dnd_registry now o = record o {
    is_on_dnd_registry = true;
    dnd_checked_at = some now;
    updated_at = now;
  }

  unfoldable pub mark_off_dnd_registry : ℕ → OptIn V → OptIn V
  mark_off_dnd_registry now o = record o {
    is_on_dnd_registry = false;
    dnd_checked_at = some now;
    updated_at = now;
  }

  unfoldable pub get_consent_status : ConsentType → OptIn V → ConsentStatus
  get_consent_status promotional o = o.promotional_status
  get_consent_status transactional o = o.transactional_status
  get_consent_status informational o = o.informational_status
  get_consent_status all o = opted_out

  unfoldable pub get_consent_history : Option ConsentType → OptIn V → List ConsentRecord
  get_consent_history (some t) o = filter (λ r. same_type r.consent_type t) o.consent_history
  get_consent_history none o = o.consent_history

  unfoldable pub set_preference : ℕ → Text → V → OptIn V → OptIn V
  set_preference now key value o = record o {
    preferences = set_item key value o.preferences;
    updated_at = now;
  }

  unfoldable pub get_preference : Text → V → OptIn V → V
  get_preference key default o = or_else (get_item key o.preferences) default
