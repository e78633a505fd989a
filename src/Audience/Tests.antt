-- ===== src/Audience/Tests.antt =====
-- One audience, filled by hand and from a file.
use rcs_bulk_messaging_syste.Prelude.{◌≡◌, refl, ◌||◌, List, [], ◌∷◌}
use rcs_bulk_messaging_syste.Prelude.Text.{Text, codes, text_eq, starts_with}
use rcs_bulk_messaging_syste.Prelude.Results.{Result, ok, err}
use rcs_bulk_messaging_syste.Prelude.Dict.{Dict, get_item}
use rcs_bulk_messaging_syste.Phone.{normalize_contact}
use rcs_bulk_messaging_syste.Audience.{
  static, Contact, new_contact, Audience, create, has_phone, add_new, add_contacts, phone_of,
  Import, import_rows, import_from_csv,
}
use rcs_bulk_messaging_syste.Audience.{get_phone_numbers}
use rcs_bulk_messaging_syste.Audience.Invariant.{
  IsE164, adds, here, next, IsConsistent, new_audience-IsConsistent,
}
use rcs_bulk_messaging_syste.Audience.Distinct.{AreDistinct, add_contacts-AreDistinct}

abbrev ravi : Contact
ravi = record { phone_number = codes "+919876543210"; metadata = [] }

abbrev list : Audience
unfolding create
list = create 100 1 3 (codes "List") static

abbrev or_same : Result Audience → Audience → Audience
or_same (ok a) d = a
or_same (err e) d = d

abbrev filled : Audience
unfolding add_contacts add_new
filled = or_same (add_contacts 110 (ravi ∷ ravi ∷ []) list) list

new_audience-IsConsistent_example : IsConsistent filled
unfolding create add_contacts add_new text_eq
new_audience-IsConsistent_example =
    new_audience-IsConsistent 100 1 3 (codes "List") static
      (next here (adds 110 (ravi ∷ ravi ∷ []) (known, (known, tt)) refl))
  where
    known : IsE164 ravi
    known = unfold starts_with in refl

add_contacts-AreDistinct_example :
    AreDistinct filled.contacts
    × (has_phone (codes "+919876543210") filled.contacts ≡ (
        has_phone (codes "+919876543210") list.contacts
        || has_phone (codes "+919876543210") (ravi ∷ ravi ∷ [])))
unfolding create add_contacts add_new text_eq
add_contacts-AreDistinct_example =
    add_contacts-AreDistinct 110 (ravi ∷ ravi ∷ []) list filled (codes "+919876543210") tt refl

abbrev row : Dict Text
row = (codes "phone", codes "98765 43210") ∷ []

-- An import lists a number a second time.
abbrev imported_list : Result (Audience × Import) → List Text
imported_list (ok (a, i)) = get_phone_numbers a
imported_list (err e) = []

import_again :
    imported_list (import_from_csv 120 (row ∷ []) filled)
    ≡ codes "+919876543210" ∷ codes "+919876543210" ∷ []
unfolding create add_contacts add_new text_eq import_from_csv import_rows phone_of new_contact
    normalize_contact starts_with get_item get_phone_numbers
import_again = refl
