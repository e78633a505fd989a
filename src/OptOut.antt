-- ===== src/OptOut.antt =====
-- Opt-outs: the table `opt_ins` of apps/adapters/db/models.py, whose key is the tenant and the number,
-- and apps/adapters/db/repositories/opt_out_repo.py over it. The consent history is left out: whether
-- the list that the code changes in place reaches the table is up to the ORM.
mod Laws
mod Refinement
mod Tests
use rcs_bulk_messaging_syste.Prelude.{
  ℕ, zero, suc, ◌+◌, ◌-◌, ◌*◌, ◌≤◌, ◌<◌, ◌≡◌, refl, sym, ap, ◌∙◌, subst, ◌≢◌, ◌↔◌, ◌⊎◌, inl, inr,
  Bool, true, false, ◌&&◌, ◌||◌, not, Option, none, some, List, [], ◌∷◌, ◌++◌, map, arith, ltb, leb,
  ◌==◌, if◌then◌else◌, ltb→lt, leb→le, ==_iff, Bool-cases, Option-cases, is_some, or_else, length,
  take, drop, filter, any, count, All, length-append, length-take, length-filter-le, All-append,
}
use rcs_bulk_messaging_syste.Prelude.Text.{
  Text, codes, is_empty, text_eq, text_eq_iff, text_eq_refl, starts_with, is_in, lower, is_digit,
  strip, join, length-strip-le,
}

pub data ConsentStatus : Type 0 where
  opted_in opted_out consent_pending consent_expired : ConsentStatus

pub record OptInRow : Type 0 where
  pub id : ℕ
  pub tenant_id : ℕ
  pub phone_number : Text
  pub promotional_status : ConsentStatus
  pub opted_in_at : Option ℕ
  pub opted_out_at : Option ℕ
  pub updated_at : ℕ

abbrev pub is_opted_out_status : ConsentStatus → Bool
is_opted_out_status opted_out = true
is_opted_out_status _ = false

unfoldable pub is_for : ℕ → Text → OptInRow → Bool
is_for tenant phone r = (r.tenant_id == tenant) && text_eq r.phone_number phone

-- The row of the tenant and the number.
unfoldable pub find_opt_in : ℕ → Text → List OptInRow → Option OptInRow
find_opt_in tenant phone [] = none
find_opt_in tenant phone (r ∷ rows) =
    if is_for tenant phone r then some r else find_opt_in tenant phone rows

abbrev pub says_opted_out : Option OptInRow → Bool
says_opted_out none = false
says_opted_out (some r) = is_opted_out_status r.promotional_status

-- No row counts as not opted out.
unfoldable pub is_opted_out : ℕ → Text → List OptInRow → Bool
is_opted_out tenant phone rows = says_opted_out (find_opt_in tenant phone rows)

new_row : ℕ → ℕ → Text → ConsentStatus → Option ℕ → Option ℕ → ℕ → OptInRow
new_row id tenant phone s opted_in_at opted_out_at now = record {
  id = id;
  tenant_id = tenant;
  phone_number = phone;
  promotional_status = s;
  opted_in_at = opted_in_at;
  opted_out_at = opted_out_at;
  updated_at = now;
}

-- `opt_out` and `opt_in`: the row is changed, or a new one with the identifier `id` is added.
unfoldable pub opt_out : ℕ → ℕ → ℕ → Text → List OptInRow → List OptInRow
unfolding new_row
opt_out now id tenant phone [] = new_row id tenant phone opted_out none (some now) now ∷ []
opt_out now id tenant phone (r ∷ rows) =
    if is_for tenant phone r
    then record r { promotional_status = opted_out; opted_out_at = some now; updated_at = now }
      ∷ rows
    else r ∷ opt_out now id tenant phone rows

unfoldable pub opt_in : ℕ → ℕ → ℕ → Text → List OptInRow → List OptInRow
unfolding new_row
opt_in now id tenant phone [] = new_row id tenant phone opted_in (some now) none now ∷ []
opt_in now id tenant phone (r ∷ rows) =
    if is_for tenant phone r
    then record r { promotional_status = opted_in; opted_in_at = some now; updated_at = now } ∷ rows
    else r ∷ opt_in now id tenant phone rows
