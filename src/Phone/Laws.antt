-- ===== src/Phone/Laws.antt =====
-- Both normal forms begin with a plus and are fixed points, and the two agree on contacts.
use rcs_bulk_messaging_syste.Prelude.{◌≡◌, refl, true, Bool-cases, inl, inr, arith, [], ◌∷◌}
use rcs_bulk_messaging_syste.Prelude.Text.{Text, starts_with}
use rcs_bulk_messaging_syste.Phone.{
  plus, normalize_phone, normalize_contact, add_country, without_separators, is_separator,
}

-- A normalised number is in E.164 form as far as the code checks it: it begins with a plus.
pub starts_with-normalize_phone : (p : Text) → starts_with plus (normalize_phone p) ≡ true
unfolding normalize_phone starts_with
starts_with-normalize_phone [] = ground arith
starts_with-normalize_phone (c ∷ p) = ground arith

pub normalize_phone-fixed : (p : Text) → starts_with plus p ≡ true → normalize_phone p ≡ p
unfolding normalize_phone
normalize_phone-fixed p h = rw h

normalize_phone_idem : (p : Text) → normalize_phone (normalize_phone p) ≡ normalize_phone p
normalize_phone_idem p = normalize_phone-fixed (normalize_phone p) (starts_with-normalize_phone p)

starts_with-add_country : (p : Text) → starts_with plus (add_country p) ≡ true
unfolding add_country starts_with
starts_with-add_country [] = ground arith
starts_with-add_country (c ∷ p) = ground arith

pub starts_with-normalize_contact : (p : Text) → starts_with plus (normalize_contact p) ≡ true
unfolding normalize_contact
starts_with-normalize_contact p = starts_with-add_country (without_separators p)

normalize_phone-normalize_contact :
    (p : Text) → normalize_phone (normalize_contact p) ≡ normalize_contact p
normalize_phone-normalize_contact p =
    normalize_phone-fixed (normalize_contact p) (starts_with-normalize_contact p)

filter_idem : (p : Text) → without_separators (without_separators p) ≡ without_separators p
filter_idem [] = refl
filter_idem (c ∷ p) = elim (Bool-cases (is_separator c)) [
  | inl e ↦ rw e (filter_idem p)
  | inr e ↦ rw (e, filter_idem p) (rw e)
]

without_separators-add_country :
    (p : Text) → without_separators p ≡ p → without_separators (add_country p) ≡ add_country p
unfolding add_country
without_separators-add_country p h = ground (arith, h)

add_country-fixed : (p : Text) → starts_with plus p ≡ true → add_country p ≡ p
unfolding add_country
add_country-fixed p h = rw h

normalize_contact_idem : (p : Text) → normalize_contact (normalize_contact p) ≡ normalize_contact p
unfolding normalize_contact
normalize_contact_idem p =
    rw (without_separators-add_country (without_separators p) (filter_idem p)) (
      add_country-fixed (add_country (without_separators p))
        (starts_with-add_country (without_separators p)))

-- Either normalisation is idempotent, and the message keeps a number that the audience has normalised.
pub normalize_phone-stable :
    (p : Text)
    → (normalize_phone (normalize_phone p) ≡ normalize_phone p)
      × (normalize_contact (normalize_contact p) ≡ normalize_contact p)
      × (normalize_phone (normalize_contact p) ≡ normalize_contact p)
normalize_phone-stable p =
    (normalize_phone_idem p, normalize_contact_idem p, normalize_phone-normalize_contact p)
