-- ===== src/OptOut/Refinement.antt =====
-- The table of opt-outs against what it stands for: which tenant has which number opted out.
use rcs_bulk_messaging_syste.Prelude.{
  ℕ, ◌≡◌, refl, ap, ◌∙◌, Bool, true, false, List, [], ◌∷◌, if◌then◌else◌,
}
use rcs_bulk_messaging_syste.Prelude.Text.{Text}
use rcs_bulk_messaging_syste.OptOut.{OptInRow, is_opted_out, opt_out, opt_in}
use rcs_bulk_messaging_syste.OptOut.Laws.{same_key, is_opted_out-opt_out, is_opted_out-opt_in}

-- A call on the repository, with the clock and the identifier that it would draw.
pub data Call : Type 0 where
  opts_out opts_in : ℕ → ℕ → ℕ → Text → Call

unfoldable pub run : List Call → List OptInRow → List OptInRow
run [] rows = rows
run (opts_out now id t p ∷ cs) rows = run cs (opt_out now id t p rows)
run (opts_in now id t p ∷ cs) rows = run cs (opt_in now id t p rows)

-- The abstract view: a Boolean for each tenant and number. It has no rows, no times and no identifiers.
abbrev pub View : Type 0
View = ℕ → Text → Bool

abbrev pub view : List OptInRow → View
view rows t p = is_opted_out t p rows

abbrev pub update : ℕ → Text → Bool → View → View
update t p b v t' p' = if same_key t p t' p' then b else v t' p'

unfoldable pub replay : List Call → View → View
replay [] v = v
replay (opts_out now id t p ∷ cs) v = replay cs (update t p true v)
replay (opts_in now id t p ∷ cs) v = replay cs (update t p false v)

-- Whatever is called, in whatever order, the repository answers as the function from tenants and numbers
-- that each opt-out sets to true and each opt-in to false, at its own tenant and number alone.
pub run-refines :
    (cs : List Call) (rows : List OptInRow) → view (run cs rows) ≡ replay cs (view rows)
unfolding run replay
run-refines [] rows = refl
run-refines (opts_out now id t p ∷ cs) rows =
    run-refines cs (opt_out now id t p rows)
    ∙ ap (replay cs) (λ i t' p'. is_opted_out-opt_out now id t p t' p' rows i)
run-refines (opts_in now id t p ∷ cs) rows =
    run-refines cs (opt_in now id t p rows)
    ∙ ap (replay cs) (λ i t' p'. is_opted_out-opt_in now id t p t' p' rows i)
