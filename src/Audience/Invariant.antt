-- ===== src/Audience/Invariant.antt =====
-- What holds of an audience at every point of its life.
use rcs_bulk_messaging_syste.Prelude.{
  ℕ, ◌+◌, ◌≤◌, ◌≡◌, refl, ap, subst, inl, inr, Bool, true, false, not, Option, none, some, List, [],
  ◌∷◌, ◌++◌, arith, ltb, ◌==◌, Bool-cases, length, filter, All, length-filter-le, All-append,
}
use rcs_bulk_messaging_syste.Prelude.Text.{Text, text_eq, starts_with}
use rcs_bulk_messaging_syste.Prelude.Results.{Result, ok, err, ok_injective}
use rcs_bulk_messaging_syste.Prelude.Dict.{Dict}
use rcs_bulk_messaging_syste.Phone.{plus, normalize_contact}
use rcs_bulk_messaging_syste.Audience.{
  AudienceType, Contact, new_contact, Audience, create, is_static, has_phone, add_new, add_contacts,
  remove_contact, phone_of, other_columns, Import, take_contact, take_phone, import_rows,
  import_from_csv, activate, archive, mark_used,
}
use rcs_bulk_messaging_syste.Audience.{is_draft}

abbrev pub IsE164 : Contact → Type 0
IsE164 c = starts_with plus c.phone_number ≡ true

-- The calls that change an audience. The contacts that are added are as their constructor makes them.
pub data Step (a a' : Audience) : Type 0 where
  adds : (now : ℕ) (cs : List Contact) → All IsE164 cs → add_contacts now cs a ≡ ok a' → Step a a'
  removes : (now : ℕ) (phone : Text) → (remove_contact now phone a).1 ≡ a' → Step a a'
  imports :
      (now : ℕ) (rows : List (Dict Text)) (i : Import)
      → import_from_csv now rows a ≡ ok (a', i)
      → Step a a'
  activates : (now : ℕ) → activate now a ≡ ok a' → Step a a'
  archives : (now : ℕ) → archive now a ≡ a' → Step a a'
  uses : (now : ℕ) → mark_used now a ≡ a' → Step a a'

pub data Reach (a : Audience) : Audience → Type 0 where
  here : Reach a a
  next : {a' a'' : Audience} → Reach a a' → Step a' a'' → Reach a a''

pub record IsConsistent (a : Audience) : Type 0 where
  pub total : a.total_contacts ≡ length a.contacts
  pub valid : a.valid_contacts ≤ length a.contacts
  pub numbers : All IsE164 a.contacts

length-snoc : (cs : List Contact) (c : Contact) → length (cs ++ c ∷ []) ≡ length cs + 1
length-snoc [] c = refl
length-snoc (d ∷ cs) c = ground (arith, length-snoc cs c)

All-snoc : (cs : List Contact) (c : Contact) → All IsE164 cs → IsE164 c → All IsE164 (cs ++ c ∷ [])
All-snoc cs c h k = All-append IsE164 cs (c ∷ []) h (k, tt)

All-filter : (p : Contact → Bool) (cs : List Contact) → All IsE164 cs → All IsE164 (filter p cs)
All-filter p [] h = tt
All-filter p (c ∷ cs) h = elim (Bool-cases (p c)) [
  | inl e ↦ rw e (h.0, All-filter p cs h.1)
  | inr e ↦ rw e (All-filter p cs h.1)
]

add_new-kept :
    (cs : List Contact) (a : Audience)
    → All IsE164 cs
    → All IsE164 a.contacts
    → a.valid_contacts ≤ length a.contacts
    → All IsE164 (add_new cs a).contacts
      × ((add_new cs a).valid_contacts ≤ length (add_new cs a).contacts)
unfolding add_new
add_new-kept [] a h k v = (k, v)
add_new-kept (c ∷ cs) a h k v = elim (Bool-cases (has_phone c.phone_number a.contacts)) [
  | inl e ↦ rw e (add_new-kept cs a h.1 k v)
  | inr e ↦ rw e (
      add_new-kept cs
        (record a { contacts = a.contacts ++ c ∷ []; valid_contacts = a.valid_contacts + 1 }) h.1
        (All-snoc a.contacts c k h.0) (omega (arith, length-snoc a.contacts c)))
]

new_contact-IsE164 : (p : Text) (d : Dict Text) {c : Contact} → new_contact p d ≡ ok c → IsE164 c
unfolding new_contact
new_contact-IsE164 p d h = ground arith

abbrev IsFair : Import → Type 0
IsFair i = All IsE164 i.contacts × (i.imported ≤ length i.contacts)

take_contact-IsFair :
    (p : Text) (d : Dict Text) (i : Import) → IsFair i → IsFair (take_contact (new_contact p d) i)
take_contact-IsFair p d i h = go (new_contact p d) refl
  where
    go : (r : Result Contact) → new_contact p d ≡ r → IsFair (take_contact r i)
    go (err e) q = h
    go (ok c) q = (
      All-snoc i.contacts c h.0 (new_contact-IsE164 p d q),
      omega (arith, length-snoc i.contacts c, h.1),
    )

take_phone-IsFair :
    (o : Option Text) (d : Dict Text) (i : Import) → IsFair i → IsFair (take_phone o d i)
take_phone-IsFair none d i h = h
take_phone-IsFair (some p) d i h = take_contact-IsFair (normalize_contact p) d i h

import_rows-IsFair : (rows : List (Dict Text)) (i : Import) → IsFair i → IsFair (import_rows rows i)
unfolding import_rows
import_rows-IsFair [] i h = h
import_rows-IsFair (row ∷ rows) i h =
    import_rows-IsFair rows _ (take_phone-IsFair (phone_of row) (other_columns row) i h)

adds-IsConsistent :
    (now : ℕ) (cs : List Contact) (a a' : Audience)
    → All IsE164 cs
    → add_contacts now cs a ≡ ok a'
    → IsConsistent a
    → IsConsistent a'
unfolding add_contacts
adds-IsConsistent now cs a a' k h c = elim (Bool-cases (is_static a.audience_type)) [
  | inr e ↦ cc (rw e at h)
  | inl e ↦
      let n = add_new-kept cs a k c.numbers c.valid in
      subst IsConsistent (ok_injective (rw e at h))
        (record { total = refl; valid = n.1; numbers = n.0 })
]

removes-IsConsistent :
    (now : ℕ) (phone : Text) (a : Audience)
    → IsConsistent a
    → IsConsistent (remove_contact now phone a).1
unfolding remove_contact
removes-IsConsistent now phone a c = elim (Bool-cases (ltb (length kept) (length a.contacts))) [
  | inl e ↦ rw e (record { total = refl; valid = omega arith; numbers = fewer })
  | inr e ↦ rw e (record {
    total = same e c.total (length-filter-le p a.contacts);
    valid = bound e c.valid (length-filter-le p a.contacts);
    numbers = fewer;
  })
]
  where
    p : Contact → Bool
    p c = not (text_eq c.phone_number phone)

    kept : List Contact
    kept = filter p a.contacts

    fewer : All IsE164 kept
    fewer = All-filter p a.contacts c.numbers

    same :
        ltb (length kept) (length a.contacts) ≡ false
        → a.total_contacts ≡ length a.contacts
        → length kept ≤ length a.contacts
        → a.total_contacts ≡ length kept
    same e t l = ground arith

    bound :
        ltb (length kept) (length a.contacts) ≡ false
        → a.valid_contacts ≤ length a.contacts
        → length kept ≤ length a.contacts
        → a.valid_contacts ≤ length kept
    bound e t l = ground arith

imports-IsConsistent :
    (now : ℕ) (rows : List (Dict Text)) (i : Import) (a a' : Audience)
    → import_from_csv now rows a ≡ ok (a', i)
    → IsConsistent a
    → IsConsistent a'
unfolding import_from_csv
imports-IsConsistent now rows i a a' h c = elim (Bool-cases (is_static a.audience_type)) [
  | inr e ↦ cc (rw e at h)
  | inl e ↦
      let n =
        import_rows-IsFair rows (record { contacts = a.contacts; imported = 0; skipped = 0 })
          (c.numbers, omega arith) in
      subst IsConsistent (ap (λ z. z.0) (ok_injective (rw e at h)))
        (record { total = refl; valid = n.1; numbers = n.0 })
]

activates-IsConsistent :
    (now : ℕ) (a a' : Audience) → activate now a ≡ ok a' → IsConsistent a → IsConsistent a'
unfolding activate
activates-IsConsistent now a a' h c = elim (Bool-cases (is_draft a.status)) [
  | inr e ↦ cc (rw e at h)
  | inl e ↦ elim (Bool-cases (a.total_contacts == 0)) [
    | inl z ↦ cc (rw (e, z) at h)
    | inr z ↦
        subst IsConsistent (ok_injective (rw (e, z) at h))
          (record { total = c.total; valid = c.valid; numbers = c.numbers })
  ]
]

Step-IsConsistent : {a a' : Audience} → Step a a' → IsConsistent a → IsConsistent a'
unfolding archive mark_used
Step-IsConsistent {a} {a'} (adds now cs k h) c = adds-IsConsistent now cs a a' k h c
Step-IsConsistent {a} (removes now phone h) c =
    subst IsConsistent h (removes-IsConsistent now phone a c)
Step-IsConsistent {a} {a'} (imports now rows i h) c = imports-IsConsistent now rows i a a' h c
Step-IsConsistent {a} {a'} (activates now h) c = activates-IsConsistent now a a' h c
Step-IsConsistent (archives now h) c =
    subst IsConsistent h (record { total = c.total; valid = c.valid; numbers = c.numbers })
Step-IsConsistent (uses now h) c =
    subst IsConsistent h (record { total = c.total; valid = c.valid; numbers = c.numbers })

Reach-IsConsistent : {a a' : Audience} → Reach a a' → IsConsistent a → IsConsistent a'
Reach-IsConsistent here c = c
Reach-IsConsistent (next r s) c = Step-IsConsistent s (Reach-IsConsistent r c)

-- From its creation on, over any calls, an audience counts its contacts, counts no more of them as valid
-- than there are, and has numbers that begin with a plus.
pub new_audience-IsConsistent :
    (now id tenant : ℕ) (name : Text) (kind : AudienceType) {a : Audience}
    → Reach (create now id tenant name kind) a
    → IsConsistent a
unfolding create
new_audience-IsConsistent now id tenant name kind r =
    Reach-IsConsistent r (record { total = refl; valid = omega arith; numbers = tt })
