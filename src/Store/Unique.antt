-- ===== src/Store/Unique.antt =====
-- The identifiers of the rows are a primary key, and stay one.
use rcs_bulk_messaging_syste.Prelude.{
  ℕ, ◌≡◌, refl, subst, ◌≢◌, inl, inr, Bool, false, none, some, List, [], ◌∷◌, arith, ◌==◌,
  Bool-cases, filter,
}
use rcs_bulk_messaging_syste.Prelude.Results.{ok}
use rcs_bulk_messaging_syste.Message.Types.{Message}
use rcs_bulk_messaging_syste.Prelude.Text.{Text}
use rcs_bulk_messaging_syste.Store.Rows.{MessageRow, save, get_by_external_id}
use rcs_bulk_messaging_syste.Store.Rows.{
  find_row, to_model, update_row, to_domain, is_external, one_or_none,
}
use rcs_bulk_messaging_syste.Store.Status.{row_status}
use rcs_bulk_messaging_syste.Prelude.{◌≢◌}

abbrev pub AreUnique : List MessageRow → Type 0
AreUnique [] = Unit
AreUnique (r ∷ rows) = (row_status r.id rows ≡ none) × AreUnique rows

absent-save :
    (now i : ℕ) (m : Message) (rows : List MessageRow)
    → (m.id ≢ i)
    → row_status i rows ≡ none
    → row_status i (save now m rows) ≡ none
unfolding row_status find_row save to_model update_row
absent-save now i m [] n h = ground arith
absent-save now i m (r ∷ rows) n h = ground (arith, absent-save now i m rows n)

pub save-AreUnique :
    (now : ℕ) (m : Message) (rows : List MessageRow) → AreUnique rows → AreUnique (save now m rows)
unfolding save to_model update_row
save-AreUnique now m [] h = (unfold row_status find_row in refl, tt)
save-AreUnique now m (r ∷ rows) h = elim (Bool-cases (r.id == m.id)) [
  | inl e ↦ rw e h
  | inr e ↦
      rw e (absent-save now r.id m rows (λ k. different k e) h.0, save-AreUnique now m rows h.1)
]
  where
    different : m.id ≡ r.id → (r.id == m.id) ≡ false → ⊥
    different k e = ground arith

only-row_status :
    (p : MessageRow → Bool) (rows : List MessageRow) (r : MessageRow)
    → AreUnique rows
    → filter p rows ≡ r ∷ []
    → row_status r.id rows ≡ some r.status
unfolding row_status find_row
only-row_status p [] r u h = cc
only-row_status p (s ∷ rows) r u h = elim (Bool-cases (p s)) [
  | inl e ↦ first (rw e at h)
  | inr e ↦ later (only-row_status p rows r u.1 (rw e at h)) u.0
]
  where
    first : (s ∷ filter p rows) ≡ r ∷ [] → row_status r.id (s ∷ rows) ≡ some r.status
    first k = ground arith

    later :
        row_status r.id rows ≡ some r.status
        → row_status s.id rows ≡ none
        → row_status r.id (s ∷ rows) ≡ some r.status
    later a b = ground arith

to_domain-row_status :
    (r : MessageRow) (m : Message) (rows : List MessageRow)
    → to_domain r ≡ m
    → row_status r.id rows ≡ some r.status
    → row_status m.id rows ≡ some m.status
unfolding to_domain
to_domain-row_status r m rows e h = subst (λ z. row_status z.id rows ≡ some z.status) e h

-- The message that a report names is the one that a job would load.
pub get_by_external_id-row_status :
    (x : Text) (rows : List MessageRow) {m : Message}
    → AreUnique rows
    → get_by_external_id x rows ≡ ok (some m)
    → row_status m.id rows ≡ some m.status
unfolding get_by_external_id one_or_none
get_by_external_id-row_status x rows {m} u h = found (filter p rows) refl h
  where
    p : MessageRow → Bool
    p r = is_external x r.external_id

    found :
        (l : List MessageRow)
        → filter p rows ≡ l
        → one_or_none l ≡ ok (some m)
        → row_status m.id rows ≡ some m.status
    found [] e k = cc
    found (r ∷ []) e k = to_domain-row_status r m rows (cc k) (only-row_status p rows r u e)
    found (r ∷ (s ∷ l)) e k = cc
