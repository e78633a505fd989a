-- ===== src/Contacts/Tests.antt =====
-- Two audiences, and pages of one row.
use rcs_bulk_messaging_syste.Prelude.{
  ℕ, ◌≡◌, refl, Bool, ◌&&◌, none, List, [], ◌∷◌, arith, ◌==◌, count, All,
}
use rcs_bulk_messaging_syste.Prelude.Text.{codes}
use rcs_bulk_messaging_syste.Contacts.{
  ContactRow, of_audience, insert, sort, rest_of, last_of, stream_from, stream_contacts, concat,
}
use rcs_bulk_messaging_syste.Contacts.Streaming.{HasKey}
use rcs_bulk_messaging_syste.Contacts.Complete.{IsPage, count-stream_contacts}
use rcs_bulk_messaging_syste.Prelude.{
  ℕ, ◌≡◌, refl, Bool, ◌&&◌, none, List, [], ◌∷◌, arith, ◌==◌, count, All,
}
use rcs_bulk_messaging_syste.Prelude.Text.{codes}

abbrev contact : ℕ → ℕ → ContactRow
contact i a = record { id = i; audience_id = a; phone_number = codes "+91"; variables = none }

abbrev rows : List ContactRow
rows = contact 5 1 ∷ contact 9 2 ∷ contact 2 1 ∷ contact 7 1 ∷ []

rows-HasKey : HasKey rows
unfolding HasKey
rows-HasKey = (refl, (refl, (refl, (refl, tt))))

pages : stream_contacts 2 1 rows ≡ (contact 2 1 ∷ contact 5 1 ∷ []) ∷ (contact 7 1 ∷ []) ∷ []
unfolding stream_contacts stream_from rest_of sort insert last_of
pages = refl

abbrev is_seven : ContactRow → Bool
is_seven r = r.id == 7

count-stream_contacts_example :
    (count is_seven (concat (stream_contacts 2 1 rows))
      ≡ count (λ r. of_audience 1 r && is_seven r) rows)
    × All (IsPage 2) (stream_contacts 2 1 rows)
count-stream_contacts_example = count-stream_contacts is_seven 2 1 rows rows-HasKey (omega arith)
