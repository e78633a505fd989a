-- ===== src/Contacts/Streaming.antt =====
-- Streaming yields every contact of the audience once, in pages of bounded length.
use rcs_bulk_messaging_syste.Prelude.{
  ℕ, ◌+◌, ◌<◌, ◌≡◌, refl, ◌∙◌, inl, inr, Bool, false, ◌&&◌, ◌||◌, List, [], ◌∷◌, arith, leb, ◌==◌,
  if◌then◌else◌, Bool-cases, filter, any, count, All,
}
use rcs_bulk_messaging_syste.Contacts.{ContactRow, insert, sort}
use rcs_bulk_messaging_syste.Prelude.{
  ℕ, ◌+◌, ◌<◌, ◌≡◌, refl, ◌∙◌, inl, inr, Bool, false, ◌&&◌, ◌||◌, List, [], ◌∷◌, arith, leb, ◌==◌,
  if◌then◌else◌, Bool-cases, filter, any, count, All,
}

-- Strictly ascending identifiers.
unfoldable pub IsAscending : List ContactRow → Type 0
IsAscending [] = Unit
IsAscending (r ∷ rows) = All (λ q. r.id < q.id) rows × IsAscending rows

-- The primary key.
unfoldable pub HasKey : List ContactRow → Type 0
HasKey [] = Unit
HasKey (r ∷ rows) = (any (λ q. q.id == r.id) rows ≡ false) × HasKey rows

All-filter {κ} :
    (P : ContactRow → Type κ) (p : ContactRow → Bool) (rows : List ContactRow)
    → All P rows
    → All P (filter p rows)
All-filter P p [] h = tt
All-filter P p (r ∷ rows) h = elim (Bool-cases (p r)) [
  | inl e ↦ rw e (h.0, All-filter P p rows h.1)
  | inr e ↦ rw e (All-filter P p rows h.1)
]

pub filter-IsAscending :
    (p : ContactRow → Bool) (rows : List ContactRow)
    → IsAscending rows
    → IsAscending (filter p rows)
unfolding IsAscending
filter-IsAscending p [] h = tt
filter-IsAscending p (r ∷ rows) h = elim (Bool-cases (p r)) [
  | inl e ↦ rw e (All-filter _ p rows h.0, filter-IsAscending p rows h.1)
  | inr e ↦ rw e (filter-IsAscending p rows h.1)
]

-- Sorting.
any-insert :
    (i : ℕ) (r : ContactRow) (rows : List ContactRow)
    → any (λ q. q.id == i) (insert r rows) ≡ ((r.id == i) || any (λ q. q.id == i) rows)
unfolding insert
any-insert i r [] = refl
any-insert i r (q ∷ qs) = ground (arith, any-insert i r qs)

any-sort :
    (i : ℕ) (rows : List ContactRow) → any (λ q. q.id == i) (sort rows) ≡ any (λ q. q.id == i) rows
unfolding sort
any-sort i [] = refl
any-sort i (r ∷ rows) = any-insert i r (sort rows) ∙ rw (any-sort i rows) refl

All-insert {κ} :
    (P : ContactRow → Type κ) (r : ContactRow) (rows : List ContactRow)
    → P r
    → All P rows
    → All P (insert r rows)
unfolding insert
All-insert P r [] h k = (h, tt)
All-insert P r (q ∷ qs) h k = elim (Bool-cases (leb r.id q.id)) [
  | inl e ↦ rw e (h, k)
  | inr e ↦ rw e (k.0, All-insert P r qs h k.1)
]

All-above :
    (i j : ℕ) (rows : List ContactRow) → i < j → All (λ q. j < q.id) rows → All (λ q. i < q.id) rows
All-above i j [] h k = tt
All-above i j (r ∷ rows) h k = (ground (arith, h, k.0), All-above i j rows h k.1)

insert-IsAscending :
    (r : ContactRow) (rows : List ContactRow)
    → any (λ q. q.id == r.id) rows ≡ false
    → IsAscending rows
    → IsAscending (insert r rows)
unfolding insert IsAscending
insert-IsAscending r [] h k = (tt, tt)
insert-IsAscending r (q ∷ qs) h k = elim (Bool-cases (leb r.id q.id)) [
  | inl e ↦
      let l : r.id < q.id = ground (arith, h, e) in rw e ((l, All-above r.id q.id qs l k.0), k)
  | inr e ↦
      let l : q.id < r.id = ground (arith, e) in
      let n : any (λ x. x.id == r.id) qs ≡ false = ground (arith, h) in
      rw e (All-insert (λ x. q.id < x.id) r qs l k.0, insert-IsAscending r qs n k.1)
]

pub sort-IsAscending : (rows : List ContactRow) → HasKey rows → IsAscending (sort rows)
unfolding sort HasKey IsAscending
sort-IsAscending [] h = tt
sort-IsAscending (r ∷ rows) h =
    insert-IsAscending r (sort rows) (any-sort r.id rows ∙ h.0) (sort-IsAscending rows h.1)

count-insert :
    (p : ContactRow → Bool) (r : ContactRow) (rows : List ContactRow)
    → count p (insert r rows) ≡ (if p r then 1 else 0) + count p rows
unfolding insert
count-insert p r [] = refl
count-insert p r (q ∷ qs) = ground (arith, count-insert p r qs)

pub count-sort :
    (p : ContactRow → Bool) (rows : List ContactRow) → count p (sort rows) ≡ count p rows
unfolding sort
count-sort p [] = refl
count-sort p (r ∷ rows) = ground (arith, count-insert p r (sort rows), count-sort p rows)

pub count-filter :
    (p q : ContactRow → Bool) (rows : List ContactRow)
    → count p (filter q rows) ≡ count (λ r. q r && p r) rows
count-filter p q [] = refl
count-filter p q (r ∷ rows) = ground (arith, count-filter p q rows)
