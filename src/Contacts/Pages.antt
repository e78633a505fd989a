-- ===== src/Contacts/Pages.antt =====
-- The pages of the stream, put together.
use rcs_bulk_messaging_syste.Prelude.{
  ℕ, zero, suc, ◌≤◌, ◌<◌, ◌≡◌, refl, sym, ap, ◌∙◌, subst, true, false, Option, none, some, List, [],
  ◌∷◌, ◌++◌, arith, ltb, length, take, drop, filter, All,
}
use rcs_bulk_messaging_syste.Contacts.{ContactRow, of_audience, sort, is_after, rest_of, last_of}
use rcs_bulk_messaging_syste.Contacts.Streaming.{
  IsAscending, HasKey, filter-IsAscending, sort-IsAscending,
}

is_after_mono :
    (last_id : Option ℕ) (r q : ContactRow) (z : ℕ)
    → is_after last_id r ≡ true
    → r.id ≤ z
    → z < q.id
    → is_after last_id q ≡ true
is_after_mono none r q z h k l = refl
is_after_mono (some i) r q z h k l = ground (arith, h, k, l)

filter-after :
    (last_id : Option ℕ) (r : ContactRow) (z : ℕ) (rows : List ContactRow)
    → is_after last_id r ≡ true
    → r.id ≤ z
    → filter (is_after (some z)) (filter (is_after last_id) rows) ≡ filter (is_after (some z)) rows
filter-after last_id r z [] h k = refl
filter-after last_id r z (q ∷ rows) h k =
    ground (arith, is_after_mono last_id r q z h k, filter-after last_id r z rows h k)

filter-above :
    (i : ℕ) (rows : List ContactRow)
    → All (λ q. i < q.id) rows
    → filter (is_after (some i)) rows ≡ rows
filter-above i [] h = refl
filter-above i (r ∷ rows) h = ground (arith, h.0, filter-above i rows h.1)

last_of-above :
    (r : ContactRow) (rows : List ContactRow) (n : ℕ)
    → IsAscending (r ∷ rows)
    → r.id ≤ last_of r (take n rows)
unfolding last_of IsAscending
last_of-above r rows zero h = omega arith
last_of-above r [] (suc n) h = omega arith
last_of-above r (q ∷ rows) (suc n) h =
    let k = last_of-above q rows n h.1 in let l = h.0.0 in ground (arith, k, l)

-- What is behind a page is what the page leaves.
filter-page :
    (n : ℕ) (r : ContactRow) (rows : List ContactRow)
    → IsAscending (r ∷ rows)
    → filter (is_after (some (last_of r (take n rows)))) (r ∷ rows) ≡ drop n rows
unfolding last_of IsAscending
filter-page zero r rows h = ground (arith, filter-above r.id rows h.0)
filter-page (suc n) r [] h = ground arith
filter-page (suc n) r (q ∷ rows) h =
    let k = filter-page n q rows h.1 in
    let l = h.0.0 in
    let m = last_of-above q rows n h.1 in
    let o : ltb (last_of q (take n rows)) r.id ≡ false = ground (arith, l, m) in rw o k

pub take-drop : (n : ℕ) (rows : List ContactRow) → take n rows ++ drop n rows ≡ rows
take-drop zero rows = refl
take-drop (suc n) [] = refl
take-drop (suc n) (r ∷ rows) = ap (λ q. r ∷ q) (take-drop n rows)

pub length-drop-le : (n : ℕ) (rows : List ContactRow) → length (drop n rows) ≤ length rows
length-drop-le zero rows = omega arith
length-drop-le (suc n) [] = omega arith
length-drop-le (suc n) (r ∷ rows) = omega (arith, length-drop-le n rows)

first-after :
    (last_id : Option ℕ) (rows qs : List ContactRow) (r : ContactRow)
    → filter (is_after last_id) rows ≡ r ∷ qs
    → is_after last_id r ≡ true
first-after last_id [] qs r h = ground arith
first-after last_id (q ∷ rows) qs r h = ground (arith, h, first-after last_id rows qs r)

pub rest-page :
    (n audience : ℕ) (last_id : Option ℕ) (rows : List ContactRow) (r : ContactRow)
    (qs : List ContactRow)
    → HasKey rows
    → rest_of audience last_id rows ≡ r ∷ qs
    → rest_of audience (some (last_of r (take n qs))) rows ≡ drop n qs
unfolding rest_of
rest-page n audience last_id rows r qs h e =
    let a = filter-IsAscending (of_audience audience) (sort rows) (sort-IsAscending rows h) in
    let b = filter-IsAscending (is_after last_id) (filter (of_audience audience) (sort rows)) a in
    let c = subst IsAscending e b in
    let f = first-after last_id (filter (of_audience audience) (sort rows)) qs r e in
    sym (
      filter-after last_id r (last_of r (take n qs)) (filter (of_audience audience) (sort rows)) f
        (last_of-above r qs n c))
    ∙ ap (filter (is_after (some (last_of r (take n qs))))) e
    ∙ filter-page n r qs c
