-- ===== src/Phone/Tests.antt =====
-- Numbers as recipients are given.
use rcs_bulk_messaging_syste.Prelude.{◌≡◌, refl}
use rcs_bulk_messaging_syste.Prelude.Text.{Text, codes, starts_with}
use rcs_bulk_messaging_syste.Phone.{normalize_contact}

abbrev spaced : Text
spaced = codes "(98765) 432-10"

normalize_contact-spaced : normalize_contact spaced ≡ codes "+919876543210"
unfolding normalize_contact starts_with
normalize_contact-spaced = refl
