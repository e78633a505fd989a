-- ===== src/Contacts/Complete.antt =====
-- What the stream yields: all contacts of the audience, and pages that are neither empty nor too long.
use rcs_bulk_messaging_syste.Prelude.{
  ℕ, zero, suc, ◌≤◌, ◌<◌, ◌≡◌, refl, sym, ap, ◌∙◌, subst, Bool, ◌&&◌, Option, none, some, List, [],
  ◌∷◌, ◌++◌, arith, length, take, drop, filter, count, All, length-take, length-filter-le,
}
use rcs_bulk_messaging_syste.Contacts.{
  ContactRow, of_audience, insert, sort, is_after, rest_of, last_of, stream_from, stream_contacts,
  concat,
}
use rcs_bulk_messaging_syste.Contacts.Streaming.{HasKey, count-sort, count-filter}
use rcs_bulk_messaging_syste.Contacts.Pages.{take-drop, rest-page, length-drop-le}

pages_of : ℕ → ℕ → ℕ → Option ℕ → List ContactRow → List ContactRow → List (List ContactRow)
pages_of fuel n audience last_id rows [] = []
pages_of fuel n audience last_id rows (r ∷ page) =
    (r ∷ page) ∷ stream_from fuel n audience (some (last_of r page)) rows

stream_from-pages :
    (fuel n audience : ℕ) (last_id : Option ℕ) (rows : List ContactRow)
    → stream_from (suc fuel) n audience last_id rows
      ≡ pages_of fuel n audience last_id rows (take n (rest_of audience last_id rows))
unfolding stream_from
stream_from-pages fuel n audience last_id rows = go (take n (rest_of audience last_id rows))
  where
    go :
        (page : List ContactRow)
        → (elim page as (λ x. List (List ContactRow)) [
          | [] ↦ []
          | r ∷ page ↦ (r ∷ page) ∷ stream_from fuel n audience (some (last_of r page)) rows
        ])
          ≡ pages_of fuel n audience last_id rows page
    go [] = unfold pages_of in refl
    go (r ∷ page) = unfold pages_of in refl

-- One page, given that the stream behind it is complete.
concat-pages_of :
    (fuel n audience : ℕ) (last_id : Option ℕ) (rows rest : List ContactRow)
    → HasKey rows
    → ((z : Option ℕ)
        → length (rest_of audience z rows) < fuel
        → concat (stream_from fuel (suc n) audience z rows) ≡ rest_of audience z rows)
    → rest_of audience last_id rows ≡ rest
    → length rest < suc fuel
    → concat (pages_of fuel (suc n) audience last_id rows (take (suc n) rest)) ≡ rest
unfolding pages_of concat
concat-pages_of fuel n audience last_id rows [] h ih e k = refl
concat-pages_of fuel n audience last_id rows (r ∷ qs) h ih e k =
    let f = rest-page n audience last_id rows r qs h e in
    let d : length (drop n qs) < fuel = omega (arith, k, length-drop-le n qs) in
    let s = subst (λ x. length x < fuel) (sym f) d in
    let i = ih (some (last_of r (take n qs))) s in
    ap (λ x. r ∷ (take n qs ++ x)) (i ∙ f) ∙ ap (λ x. r ∷ x) (take-drop n qs)

stream_from-rest :
    (fuel n audience : ℕ) (last_id : Option ℕ) (rows : List ContactRow)
    → HasKey rows
    → length (rest_of audience last_id rows) < fuel
    → concat (stream_from fuel (suc n) audience last_id rows) ≡ rest_of audience last_id rows
stream_from-rest zero n audience last_id rows h l = ground (arith, l)
stream_from-rest (suc fuel) n audience last_id rows h l =
    ap concat (stream_from-pages fuel (suc n) audience last_id rows)
    ∙ concat-pages_of fuel n audience last_id rows (rest_of audience last_id rows) h
        (λ z. stream_from-rest fuel n audience z rows h) refl l

length-insert :
    (r : ContactRow) (rows : List ContactRow) → length (insert r rows) ≡ suc (length rows)
unfolding insert
length-insert r [] = refl
length-insert r (q ∷ qs) = ground (arith, length-insert r qs)

length-sort : (rows : List ContactRow) → length (sort rows) ≡ length rows
unfolding sort
length-sort [] = refl
length-sort (r ∷ rows) = length-insert r (sort rows) ∙ ap suc (length-sort rows)

length-rest_of-le :
    (audience : ℕ) (rows : List ContactRow) → length (rest_of audience none rows) ≤ length rows
unfolding rest_of
length-rest_of-le audience rows = omega (
  arith,
  length-filter-le (is_after none) (filter (of_audience audience) (sort rows)),
  length-filter-le (of_audience audience) (sort rows),
  length-sort rows,
)

filter-is_after-none : (rows : List ContactRow) → filter (is_after none) rows ≡ rows
filter-is_after-none [] = refl
filter-is_after-none (r ∷ rows) = ap (λ x. r ∷ x) (filter-is_after-none rows)

-- The stream, put together, is the rows of the audience in the order of their identifiers, whatever the size
-- of a page is. The table has no identifier twice.
pub concat-stream_contacts :
    (n audience : ℕ) (rows : List ContactRow)
    → HasKey rows
    → concat (stream_contacts (suc n) audience rows) ≡ filter (of_audience audience) (sort rows)
unfolding stream_contacts
concat-stream_contacts n audience rows h =
    let k : length (rest_of audience none rows) < suc (length rows) =
      omega (arith, length-rest_of-le audience rows) in
    stream_from-rest (suc (length rows)) n audience none rows h k
    ∙ unfold rest_of in filter-is_after-none (filter (of_audience audience) (sort rows))

pub IsPage : ℕ → List ContactRow → Type 0
IsPage n page = (1 ≤ length page) × (length page ≤ n)

pages_of-IsPage :
    (fuel n audience : ℕ) (last_id : Option ℕ) (rows page : List ContactRow)
    → ((z : Option ℕ) → All (IsPage n) (stream_from fuel n audience z rows))
    → length page ≤ n
    → All (IsPage n) (pages_of fuel n audience last_id rows page)
unfolding pages_of IsPage
pages_of-IsPage fuel n audience last_id rows [] h k = tt
pages_of-IsPage fuel n audience last_id rows (r ∷ page) h k = ((omega arith, k), h _)

stream_from-IsPage :
    (fuel n audience : ℕ) (last_id : Option ℕ) (rows : List ContactRow)
    → All (IsPage n) (stream_from fuel n audience last_id rows)
stream_from-IsPage zero n audience last_id rows = unfold stream_from in tt
stream_from-IsPage (suc fuel) n audience last_id rows =
    subst (All (IsPage n)) (sym (stream_from-pages fuel n audience last_id rows)) (
      pages_of-IsPage fuel n audience last_id rows (take n (rest_of audience last_id rows))
        (λ z. stream_from-IsPage fuel n audience z rows)
        (omega (arith, length-take n (rest_of audience last_id rows))))

-- The stream yields each contact of the audience exactly once, and no other, however the contacts are told
-- apart by a test; and no page is empty or has more rows than a page may have. The table has no identifier
-- twice, and a page has room for one row at least.
pub count-stream_contacts :
    (p : ContactRow → Bool) (n audience : ℕ) (rows : List ContactRow)
    → HasKey rows
    → 1 ≤ n
    → (count p (concat (stream_contacts n audience rows))
        ≡ count (λ r. of_audience audience r && p r) rows)
      × All (IsPage n) (stream_contacts n audience rows)
count-stream_contacts p zero audience rows h l = ground (arith, l)
count-stream_contacts p (suc n) audience rows h l = (
  ap (count p) (concat-stream_contacts n audience rows h)
      ∙ count-filter p (of_audience audience) (sort rows)
      ∙ count-sort (λ r. of_audience audience r && p r) rows,
  unfold stream_contacts in stream_from-IsPage (suc (length rows)) (suc n) audience none rows,
)
