-- ===== src/Contacts.antt =====
-- The table `audience_contacts` of apps/adapters/db/models.py, and what
-- apps/adapters/db/repositories/audience_repo.py does with it. Identifiers are numbers, in whose order the
-- database sorts; the metadata of a contact is left out.
pub mod Streaming
pub mod Pages
pub mod Complete
mod Tests
use rcs_bulk_messaging_syste.Prelude.{
  ℕ, zero, suc, ◌+◌, ◌-◌, ◌*◌, ◌≤◌, ◌<◌, ◌≡◌, refl, sym, ap, ◌∙◌, subst, ◌≢◌, ◌↔◌, ◌⊎◌, inl, inr,
  Bool, true, false, ◌&&◌, ◌||◌, not, Option, none, some, List, [], ◌∷◌, ◌++◌, map, arith, ltb, leb,
  ◌==◌, if◌then◌else◌, ltb→lt, leb→le, ==_iff, Bool-cases, Option-cases, is_some, or_else, length,
  take, drop, filter, any, count, All, length-append, length-take, length-filter-le, All-append,
}
use rcs_bulk_messaging_syste.Prelude.Text.{
  Text, codes, is_empty, text_eq, text_eq_iff, text_eq_refl, starts_with, is_in, lower, is_digit,
  strip, join, length-strip-le,
}

pub record ContactRow : Type 0 where
  pub id : ℕ
  pub audience_id : ℕ
  pub phone_number : Text
  pub variables : Option (List Text)

-- What `bulk_add_contacts` reads of a contact.
pub record NewContact : Type 0 where
  pub phone_number : Text
  pub variables : List Text

-- `getattr(c, "variables", None) or None`
abbrev pub or_none : List Text → Option (List Text)
or_none [] = none
or_none (x ∷ xs) = some (x ∷ xs)

-- The row that the unique constraint on audience and number finds.
unfoldable pub has_contact : ℕ → Text → List ContactRow → Bool
has_contact audience phone = any (λ r. r.audience_id == audience && text_eq r.phone_number phone)

-- `INSERT … ON CONFLICT DO NOTHING`, row by row, and the number of rows inserted; `draw` gives the identifiers
-- that `uuid4` draws.
unfoldable pub bulk_add_contacts :
    (ℕ → ℕ) → ℕ → ℕ → List NewContact → List ContactRow → List ContactRow × ℕ
bulk_add_contacts draw k audience [] rows = (rows, 0)
bulk_add_contacts draw k audience (c ∷ cs) rows =
    let row : ContactRow = record {
      id = draw k;
      audience_id = audience;
      phone_number = c.phone_number;
      variables = or_none c.variables;
    } in
    let conflict = has_contact audience c.phone_number rows in
    let added =
      bulk_add_contacts draw (suc k) audience cs (if conflict then rows else rows ++ (row ∷ [])) in
    if conflict then added else (added.0, suc added.1)

abbrev pub of_audience : ℕ → ContactRow → Bool
of_audience audience r = r.audience_id == audience

-- The rows that are left, and the number of those deleted.
unfoldable pub remove_contacts : ℕ → List ContactRow → List ContactRow × ℕ
remove_contacts audience rows =
    (filter (λ r. not (of_audience audience r)) rows, count (of_audience audience) rows)

unfoldable pub count_contacts : ℕ → List ContactRow → ℕ
count_contacts audience rows = count (of_audience audience) rows

-- `ORDER BY id`
unfoldable pub insert : ContactRow → List ContactRow → List ContactRow
insert r [] = r ∷ []
insert r (q ∷ qs) = let rest = insert r qs in if leb r.id q.id then r ∷ (q ∷ qs) else q ∷ rest

unfoldable pub sort : List ContactRow → List ContactRow
sort [] = []
sort (r ∷ rows) = insert r (sort rows)

-- `AudienceContactModel.id > last_id`, if there was a page before.
abbrev pub is_after : Option ℕ → ContactRow → Bool
is_after none r = true
is_after (some last_id) r = ltb last_id r.id

-- The rows of the audience behind the last one, in their order.
unfoldable pub rest_of : ℕ → Option ℕ → List ContactRow → List ContactRow
rest_of audience last_id rows =
    filter (is_after last_id) (filter (of_audience audience) (sort rows))

-- The identifier of the last row of a page.
unfoldable pub last_of : ContactRow → List ContactRow → ℕ
last_of r [] = r.id
last_of r (q ∷ qs) = last_of q qs

-- The loop of `stream_contacts`, with a bound on the number of pages.
unfoldable pub stream_from : ℕ → ℕ → ℕ → Option ℕ → List ContactRow → List (List ContactRow)
stream_from zero batch_size audience last_id rows = []
stream_from (suc fuel) batch_size audience last_id rows =
    elim (take batch_size (rest_of audience last_id rows)) [
      | [] ↦ []
      | r ∷ page ↦ (r ∷ page) ∷ stream_from fuel batch_size audience (some (last_of r page)) rows
    ]

-- One page more than there are rows is enough: see `stream_contacts-enough`.
unfoldable pub stream_contacts : ℕ → ℕ → List ContactRow → List (List ContactRow)
stream_contacts batch_size audience rows =
    stream_from (suc (length rows)) batch_size audience none rows

-- `yield`s, one after the other.
unfoldable pub concat {ℓ} : {A : Type ℓ} → List (List A) → List A
concat [] = []
concat (xs ∷ xss) = xs ++ concat xss

unfoldable pub get_phone_numbers : ℕ → List ContactRow → List Text
get_phone_numbers audience rows =
    map (λ r. r.phone_number) (concat (stream_contacts 5000 audience rows))
