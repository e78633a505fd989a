-- ===== src/OptOut/Tests.antt =====
-- One number that opts out, in again and out.
use rcs_bulk_messaging_syste.Prelude.{◌≡◌, refl, true, false, List, [], ◌∷◌}
use rcs_bulk_messaging_syste.Prelude.Text.{Text, codes, text_eq}
use rcs_bulk_messaging_syste.OptOut.{is_opted_out, opt_out, opt_in, find_opt_in, is_for}
use rcs_bulk_messaging_syste.OptOut.Refinement.{
  Call, opts_out, opts_in, run, view, replay, run-refines,
}

abbrev number : Text
number = codes "+919876543210"

abbrev other : Text
other = codes "+919876543211"

abbrev calls : List Call
calls = opts_out 100 1 3 number ∷ opts_in 110 2 3 number ∷ opts_out 120 3 3 other ∷ []

run-calls : (view (run calls []) 3 number ≡ false) × (view (run calls []) 3 other ≡ true)
unfolding run is_opted_out opt_out opt_in find_opt_in is_for text_eq
run-calls = (refl, refl)

run-refines_example : view (run calls []) ≡ replay calls (view [])
run-refines_example = run-refines calls []
