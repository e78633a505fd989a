-- ===== src/Prelude/Results.antt =====
-- Calls that return or raise, and what they raise.
use mathlib.Core.Path.{◌≡◌, refl}
use mathlib.Core.Logic.{◌⊎◌, inl, inr}
use mathlib.Core.Bool.{Bool, true, false}
use mathlib.Core.Option.{Option}
use Prim.Native.Nat.{ℕ}
use rcs_bulk_messaging_syste.Prelude.Text.{Text}

-- The exceptions, each with the text that `str(e)` gives.
pub data Exn : Type 0 where
  value_error : Text → Exn
  invalid_state_transition : Text → Exn
  not_implemented : Text → Exn
  attribute_error : Text → Exn
  type_error : Text → Exn
  queue_exception : Text → Exn
  aggregator_exception : Text → Option Text → Option ℕ → Exn
  rate_limit_exception : Text → Option Text → Option ℕ → Exn
  circuit_open : Text → Exn
  database_error : Text → Exn
  key_error : Text → Exn
  http_status_error : ℕ → Text → Exn

pub data Result {ℓ} (A : Type ℓ) : Type ℓ where
  ok : A → Result A
  err : Exn → Result A

infixl 5 ◌>>=◌ ◌>>◌
abbrev pub ◌>>=◌ {ℓ κ} : {A : Type ℓ} {B : Type κ} → Result A → (A → Result B) → Result B
err e >>= next = err e
ok a >>= next = next a

abbrev pub ◌>>◌ {ℓ} : {B : Type ℓ} → Result (Unit {0}) → Result B → Result B
err e >> after = err e
ok _ >> after = after

-- `if c: raise e`
abbrev pub raise_if : Bool → Exn → Result (Unit {0})
raise_if true e = err e
raise_if false e = ok tt

pub Result-cases {ℓ} :
    {A : Type ℓ} (r : Result A) → ((a : A) × (r ≡ ok a)) ⊎ ((e : Exn) × (r ≡ err e))
Result-cases (ok a) = inl (a, refl)
Result-cases (err e) = inr (e, refl)

pub ok_injective {ℓ} : {A : Type ℓ} {a b : A} → ok a ≡ ok b → a ≡ b
ok_injective h = cc

-- The call returned.
abbrev pub is_ok {ℓ} : {A : Type ℓ} → Result A → Bool
is_ok (ok a) = true
is_ok (err e) = false
