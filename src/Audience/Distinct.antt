-- ===== src/Audience/Distinct.antt =====
-- That adding contacts lists no number twice, and loses none.
use rcs_bulk_messaging_syste.Prelude.{
  ℕ, ◌+◌, ◌≡◌, refl, ap, subst, inl, inr, true, false, ◌||◌, List, [], ◌∷◌, ◌++◌, arith, Bool-cases,
}
use rcs_bulk_messaging_syste.Prelude.Text.{Text, text_eq, text_eq_iff}
use rcs_bulk_messaging_syste.Prelude.Results.{ok, ok_injective}
use rcs_bulk_messaging_syste.Audience.{
  Contact, Audience, is_static, has_phone, add_new, add_contacts,
}
use rcs_bulk_messaging_syste.Prelude.{
  ℕ, ◌+◌, ◌≡◌, refl, ap, subst, inl, inr, true, false, ◌||◌, List, [], ◌∷◌, ◌++◌, arith, Bool-cases,
}

abbrev pub AreDistinct : List Contact → Type 0
AreDistinct [] = Unit
AreDistinct (c ∷ cs) = (has_phone c.phone_number cs ≡ false) × AreDistinct cs

text_eq-sym : (a b : Text) → text_eq a b ≡ text_eq b a
unfolding text_eq
text_eq-sym [] [] = refl
text_eq-sym [] (y ∷ b) = refl
text_eq-sym (x ∷ a) [] = refl
text_eq-sym (x ∷ a) (y ∷ b) = ground (arith, text_eq-sym a b)

has_phone-snoc :
    (p : Text) (cs : List Contact) (c : Contact)
    → has_phone p (cs ++ c ∷ []) ≡ (has_phone p cs || text_eq c.phone_number p)
has_phone-snoc p [] c = ground arith
has_phone-snoc p (d ∷ cs) c = ground (arith, has_phone-snoc p cs c)

AreDistinct-snoc :
    (cs : List Contact) (c : Contact)
    → AreDistinct cs
    → has_phone c.phone_number cs ≡ false
    → AreDistinct (cs ++ c ∷ [])
AreDistinct-snoc [] c h k = (refl, tt)
AreDistinct-snoc (d ∷ cs) c h k = (first h.0, AreDistinct-snoc cs c h.1 (ground arith))
  where
    first : has_phone d.phone_number cs ≡ false → has_phone d.phone_number (cs ++ c ∷ []) ≡ false
    first e =
        ground
          (arith, has_phone-snoc d.phone_number cs c, text_eq-sym c.phone_number d.phone_number)

add_new-AreDistinct :
    (cs : List Contact) (a : Audience)
    → AreDistinct a.contacts
    → AreDistinct (add_new cs a).contacts
unfolding add_new
add_new-AreDistinct [] a h = h
add_new-AreDistinct (c ∷ cs) a h = elim (Bool-cases (has_phone c.phone_number a.contacts)) [
  | inl e ↦ rw e (add_new-AreDistinct cs a h)
  | inr e ↦ rw e (
      add_new-AreDistinct cs
        (record a { contacts = a.contacts ++ c ∷ []; valid_contacts = a.valid_contacts + 1 })
        (AreDistinct-snoc a.contacts c h e))
]

text_eq-has_phone :
    (p q : Text) (cs : List Contact) → text_eq q p ≡ true → has_phone q cs ≡ has_phone p cs
text_eq-has_phone p q cs h = ap (λ z. has_phone z cs) ((text_eq_iff q p).0 h)

has_phone-add_new :
    (p : Text) (cs : List Contact) (a : Audience)
    → has_phone p (add_new cs a).contacts ≡ (has_phone p a.contacts || has_phone p cs)
unfolding add_new
has_phone-add_new p [] a = ground arith
has_phone-add_new p (c ∷ cs) a = elim (Bool-cases (has_phone c.phone_number a.contacts)) [
  | inl e ↦ rw e (passed e (has_phone-add_new p cs a))
  | inr e ↦ rw e (added (has_phone-add_new p cs a'))
]
  where
    a' : Audience
    a' = record a { contacts = a.contacts ++ c ∷ []; valid_contacts = a.valid_contacts + 1 }

    passed :
        has_phone c.phone_number a.contacts ≡ true
        → has_phone p (add_new cs a).contacts ≡ (has_phone p a.contacts || has_phone p cs)
        → has_phone p (add_new cs a).contacts ≡ (has_phone p a.contacts || has_phone p (c ∷ cs))
    passed e h = ground (arith, text_eq-has_phone p c.phone_number a.contacts)

    added :
        has_phone p (add_new cs a').contacts ≡ (has_phone p a'.contacts || has_phone p cs)
        → has_phone p (add_new cs a').contacts ≡ (has_phone p a.contacts || has_phone p (c ∷ cs))
    added h = ground (arith, has_phone-snoc p a.contacts c)

-- Contacts that are added to a static audience leave it with no number twice, if there was none, and
-- with exactly the numbers that it had and those that were added.
pub add_contacts-AreDistinct :
    (now : ℕ) (cs : List Contact) (a a' : Audience) (p : Text)
    → AreDistinct a.contacts
    → add_contacts now cs a ≡ ok a'
    → AreDistinct a'.contacts
      × (has_phone p a'.contacts ≡ (has_phone p a.contacts || has_phone p cs))
unfolding add_contacts
add_contacts-AreDistinct now cs a a' p d h = elim (Bool-cases (is_static a.audience_type)) [
  | inr e ↦ cc (rw e at h)
  | inl e ↦
      subst
        (λ z.
          AreDistinct z.contacts
          × (has_phone p z.contacts ≡ (has_phone p a.contacts || has_phone p cs)))
        (ok_injective (rw e at h)) (add_new-AreDistinct cs a d, has_phone-add_new p cs a)
]
