-- ===== src/Consent/History.antt =====
-- The statuses of a consent, the registry and the history, against the calls that were made.
use rcs_bulk_messaging_syste.Prelude.{
  ℕ, ◌≡◌, refl, sym, ap, ◌∙◌, inl, inr, Bool, true, false, ◌&&◌, ◌||◌, not, Option, none, List, [],
  ◌∷◌, ◌++◌, arith, if◌then◌else◌, Bool-cases,
}
use rcs_bulk_messaging_syste.Prelude.Text.{Text, codes, text_eq}
use mathlib.Core.List.{append-nil, append_assoc}
use rcs_bulk_messaging_syste.OptOut.{ConsentStatus, opted_in, opted_out}
use rcs_bulk_messaging_syste.Consent.{
  ConsentType, promotional, transactional, informational, all, ConsentMethod, ConsentRecord, OptIn,
  is_opted_in, same_type, create, add_consent_record, grant_consent, revoke_consent,
  can_send_promotional, can_send_transactional, can_send_informational, can_send_message,
  mark_on_dnd_registry, mark_off_dnd_registry, get_consent_status, set_preference,
}
use mathlib.Core.List.{append-nil, append_assoc}
use mathlib.Core.List.{append-nil, append_assoc}
use mathlib.Core.List.{append-nil, append_assoc}
use mathlib.Core.List.{append-nil, append_assoc}

-- The calls that change a consent.
pub data Call {ℓ} (V : Type ℓ) : Type ℓ where
  grants : ConsentType → ConsentMethod → Option Text → Option Text → Option Text → Call V
  revokes : ConsentType → ConsentMethod → Option Text → Call V
  marks_on marks_off : Call V
  sets : Text → V → Call V

-- What a record of the type in the first place says about messages of the type in the second.
abbrev pub covers : ConsentType → ConsentType → Bool
covers event t = same_type event t || same_type event all

-- The status of the last record that covers a type.
unfoldable pub last_status : ConsentType → ConsentStatus → List ConsentRecord → ConsentStatus
last_status t s [] = s
last_status t s (r ∷ rs) = last_status t (if covers r.consent_type t then r.status else s) rs

abbrev pub initial_status : ConsentType → ConsentStatus
initial_status transactional = opted_in
initial_status _ = opted_out

last_status-append :
    (t : ConsentType) (s : ConsentStatus) (rs qs : List ConsentRecord)
    → last_status t s (rs ++ qs) ≡ last_status t (last_status t s rs) qs
unfolding last_status
last_status-append t s [] qs = refl
last_status-append t s (r ∷ rs) qs = last_status-append t _ rs qs

status-create {ℓ} :
    (V : Type ℓ) (now id tenant : ℕ) (phone : Text) (t : ConsentType)
    → same_type t all ≡ false
    → get_consent_status t (create {V = V} now id tenant phone) ≡ initial_status t
unfolding get_consent_status create
status-create V now id tenant phone t h = ground arith

module _ {ℓ} {V : Type ℓ} where
  -- A call at a time.
  unfoldable pub apply : ℕ → Call V → OptIn V → OptIn V
  apply now (grants t m ip agent notes) o = grant_consent now t m ip agent notes o
  apply now (revokes t m reason) o = revoke_consent now t m reason o
  apply now marks_on o = mark_on_dnd_registry now o
  apply now marks_off o = mark_off_dnd_registry now o
  apply now (sets k v) o = set_preference now k v o

  unfoldable pub run : List (ℕ × Call V) → OptIn V → OptIn V
  run [] o = o
  run ((now, c) ∷ cs) o = run cs (apply now c o)

  -- The record of a call, if it makes one.
  abbrev pub records_of : ℕ → Call V → List ConsentRecord
  records_of now (grants t m ip agent notes) =
      record {
        timestamp = now;
        status = opted_in;
        consent_type = t;
        method = m;
        ip_address = ip;
        user_agent = agent;
        notes = notes;
      }
      ∷ []
  records_of now (revokes t m reason) =
      record {
        timestamp = now;
        status = opted_out;
        consent_type = t;
        method = m;
        ip_address = none;
        user_agent = none;
        notes = reason;
      }
      ∷ []
  records_of now _ = []

  unfoldable pub records : List (ℕ × Call V) → List ConsentRecord
  records [] = []
  records ((now, c) ∷ cs) = records_of now c ++ records cs

  -- Whether messages of a type are consented to after the calls: the last grant or revocation that covers it.
  unfoldable pub consents : ConsentType → Bool → List (ℕ × Call V) → Bool
  consents t b [] = b
  consents t b ((_, grants e _ _ _ _) ∷ cs) = consents t (if covers e t then true else b) cs
  consents t b ((_, revokes e _ _) ∷ cs) = consents t (if covers e t then false else b) cs
  consents t b (_ ∷ cs) = consents t b cs

  -- Whether the number is on the registry after the calls.
  unfoldable pub listed : Bool → List (ℕ × Call V) → Bool
  listed b [] = b
  listed b ((_, marks_on) ∷ cs) = listed true cs
  listed b ((_, marks_off) ∷ cs) = listed false cs
  listed b (_ ∷ cs) = listed b cs

  history-apply :
      (now : ℕ) (c : Call V) (o : OptIn V)
      → (apply now c o).consent_history ≡ o.consent_history ++ records_of now c
  unfolding apply grant_consent revoke_consent mark_on_dnd_registry mark_off_dnd_registry
      set_preference add_consent_record
  history-apply now (grants promotional m ip agent notes) o = refl
  history-apply now (grants transactional m ip agent notes) o = refl
  history-apply now (grants informational m ip agent notes) o = refl
  history-apply now (grants all m ip agent notes) o = refl
  history-apply now (revokes promotional m reason) o = refl
  history-apply now (revokes transactional m reason) o = refl
  history-apply now (revokes informational m reason) o = refl
  history-apply now (revokes all m reason) o = refl
  history-apply now marks_on o = sym (append-nil o.consent_history)
  history-apply now marks_off o = sym (append-nil o.consent_history)
  history-apply now (sets k v) o = sym (append-nil o.consent_history)

  -- The history is what it was, followed by one record for each grant and revocation, in their order: no call
  -- removes or changes a record.
  pub consent_history-run :
      (cs : List (ℕ × Call V)) (o : OptIn V)
      → (run cs o).consent_history ≡ o.consent_history ++ records cs
  unfolding run records
  consent_history-run [] o = sym (append-nil o.consent_history)
  consent_history-run ((now, c) ∷ cs) o =
      consent_history-run cs (apply now c o)
      ∙ ap (λ h. h ++ records cs) (history-apply now c o)
      ∙ append_assoc o.consent_history (records_of now c) (records cs)

  -- What one call makes of the status of a type.
  status-apply :
      (t : ConsentType) (now : ℕ) (c : Call V) (o : OptIn V)
      → same_type t all ≡ false
      → get_consent_status t (apply now c o)
        ≡ last_status t (get_consent_status t o) (records_of now c)
  unfolding get_consent_status apply grant_consent revoke_consent mark_on_dnd_registry
      mark_off_dnd_registry set_preference add_consent_record last_status
  status-apply t now (grants e m ip agent notes) o h = ground arith
  status-apply t now (revokes e m reason) o h = ground arith
  status-apply t now marks_on o h = ground arith
  status-apply t now marks_off o h = ground arith
  status-apply t now (sets k v) o h = ground arith

  status-run :
      (t : ConsentType) (cs : List (ℕ × Call V)) (o : OptIn V)
      → same_type t all ≡ false
      → get_consent_status t (run cs o) ≡ last_status t (get_consent_status t o) (records cs)
  unfolding run records
  status-run t [] o h = unfold last_status in refl
  status-run t ((now, c) ∷ cs) o h =
      status-run t cs (apply now c o) h
      ∙ ap (λ s. last_status t s (records cs)) (status-apply t now c o h)
      ∙ sym (last_status-append t (get_consent_status t o) (records_of now c) (records cs))

  status_of_all :
      (t : ConsentType)
      → same_type t all ≡ true
      → (o : OptIn V) → get_consent_status t o ≡ opted_out
  unfolding get_consent_status
  status_of_all t h o = ground arith

  history-create :
      (now id tenant : ℕ) (phone : Text) (cs : List (ℕ × Call V))
      → (run cs (create now id tenant phone)).consent_history ≡ records cs
  unfolding create
  history-create now id tenant phone cs = consent_history-run cs _

  status_since :
      (now id tenant : ℕ) (phone : Text) (cs : List (ℕ × Call V)) (t : ConsentType)
      → same_type t all ≡ false
      → get_consent_status t (run cs (create now id tenant phone))
        ≡ last_status t (initial_status t) (run cs (create now id tenant phone)).consent_history
  status_since now id tenant phone cs t h =
      status-run t cs (create now id tenant phone) h
      ∙ ap (λ s. last_status t s (records cs)) (status-create V now id tenant phone t h)
      ∙ ap (last_status t (initial_status t)) (sym (history-create now id tenant phone cs))

  -- Whatever was called since its creation, the status of a type is that of the last record of the history
  -- that covers the type, a record for all types among them, and the initial one if there is none; the status for
  -- all types is always that of an opt-out.
  pub get_consent_status-history :
      (now id tenant : ℕ) (phone : Text) (cs : List (ℕ × Call V)) (t : ConsentType)
      → get_consent_status t (run cs (create now id tenant phone)) ≡ (
          if same_type t all
          then opted_out
          else last_status t
              (initial_status t)
              (run cs (create now id tenant phone)).consent_history)
  get_consent_status-history now id tenant phone cs t = elim (Bool-cases (same_type t all)) [
    | inl e ↦ rw e (status_of_all t e (run cs (create now id tenant phone)))
    | inr e ↦ rw e (status_since now id tenant phone cs t e)
  ]

  -- The statuses and the registry, as a fold over the calls.
  fields-run :
      (cs : List (ℕ × Call V)) (o : OptIn V)
      → ((run cs o).is_on_dnd_registry ≡ listed o.is_on_dnd_registry cs)
        × (is_opted_in (run cs o).promotional_status
            ≡ consents promotional (is_opted_in o.promotional_status) cs)
        × (is_opted_in (run cs o).transactional_status
            ≡ consents transactional (is_opted_in o.transactional_status) cs)
        × (is_opted_in (run cs o).informational_status
            ≡ consents informational (is_opted_in o.informational_status) cs)
  unfolding run apply grant_consent revoke_consent mark_on_dnd_registry listed consents
      mark_off_dnd_registry set_preference add_consent_record
  fields-run [] o = (refl, refl, refl, refl)
  fields-run ((now, grants promotional m ip agent notes) ∷ cs) o = fields-run cs _
  fields-run ((now, grants transactional m ip agent notes) ∷ cs) o = fields-run cs _
  fields-run ((now, grants informational m ip agent notes) ∷ cs) o = fields-run cs _
  fields-run ((now, grants all m ip agent notes) ∷ cs) o = fields-run cs _
  fields-run ((now, revokes promotional m reason) ∷ cs) o = fields-run cs _
  fields-run ((now, revokes transactional m reason) ∷ cs) o = fields-run cs _
  fields-run ((now, revokes informational m reason) ∷ cs) o = fields-run cs _
  fields-run ((now, revokes all m reason) ∷ cs) o = fields-run cs _
  fields-run ((now, marks_on) ∷ cs) o = fields-run cs _
  fields-run ((now, marks_off) ∷ cs) o = fields-run cs _
  fields-run ((now, sets k v) ∷ cs) o = fields-run cs _

  -- Which messages the calls since the creation allow.
  unfoldable pub may_send : Text → List (ℕ × Call V) → Bool
  may_send s cs =
      if text_eq s (codes "promotional")
      then not (listed false cs) && consents promotional false cs
      else if text_eq s (codes "transactional")
      then consents transactional true cs
      else if text_eq s (codes "informational")
      then not (listed false cs) && consents informational false cs
      else false

  -- What may be sent is what the calls since the creation say: promotional and informational messages
  -- exactly when the last call that covers them is a grant and the number was not last marked as on the
  -- registry; transactional ones unless the last call that covers them is a revocation; others never.
  pub can_send_message-run :
      (now id tenant : ℕ) (phone : Text) (cs : List (ℕ × Call V)) (s : Text)
      → can_send_message s (run cs (create now id tenant phone)) ≡ may_send s cs
  unfolding create can_send_message can_send_promotional can_send_transactional
      can_send_informational may_send
  can_send_message-run now id tenant phone cs s =
      let h = fields-run cs (create now id tenant phone) in ground (arith, h)
