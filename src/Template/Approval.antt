-- ===== src/Template/Approval.antt =====
-- The approval states, and what may change in them.
use rcs_bulk_messaging_syste.Prelude.{ℕ, ◌≡◌, refl, ◌∙◌, Bool, true, false, List, [], ◌∷◌, arith}
use rcs_bulk_messaging_syste.Prelude.Text.{text_eq}
use rcs_bulk_messaging_syste.Template.Types.{draft, pending_approval, approved, Template, is_status}
use rcs_bulk_messaging_syste.Template.Lifecycle.{
  add_variable, set_rich_card, add_suggestion, submit_for_approval, approve, approve_template,
  reject, archive,
}
use rcs_bulk_messaging_syste.Template.Invariant.{
  Call, approves, approves_directly, apply, kept, run,
}

-- What a template says: all that a call may change only in a draft.
pub SameText : Template → Template → Type 0
SameText t u =
    (u.content ≡ t.content)
    × (u.variables ≡ t.variables)
    × (u.rich_card_template ≡ t.rich_card_template)
    × (u.suggestions_template ≡ t.suggestions_template)

apply-frozen :
    (now : ℕ) (c : Call) (t : Template)
    → is_status draft t ≡ false
    → (is_status draft (kept t (apply now c t)) ≡ false) × SameText t (kept t (apply now c t))
unfolding apply add_variable set_rich_card add_suggestion submit_for_approval approve
    approve_template reject archive SameText text_eq
apply-frozen now c t h = ground (arith, h)

-- A template that is not a draft never becomes one again, and whatever is called, its content, variables,
-- card and suggestions stay what they were: what was submitted is what is approved, and what is sent.
pub run-frozen :
    (cs : List (ℕ × Call)) (t : Template)
    → is_status draft t ≡ false
    → (is_status draft (run cs t) ≡ false) × SameText t (run cs t)
unfolding run SameText
run-frozen [] t h = (h, (refl, refl, refl, refl))
run-frozen ((now, c) ∷ cs) t h =
    let a = apply-frozen now c t h in
    let k = run-frozen cs (kept t (apply now c t)) a.0 in
    let a' = a.1 in let k' = k.1 in (k.0, (k'.0 ∙ a'.0, k'.1 ∙ a'.1, k'.2 ∙ a'.2, k'.3 ∙ a'.3))

-- The calls that approve: `approve` on a pending template, and `approve_template`.
unfoldable pub is_approval : Call → Template → Bool
is_approval approves t = is_status pending_approval t
is_approval (approves_directly external_template_id rcs_type) t = true
is_approval _ t = false

-- A template becomes approved in two ways: by `approve` while it is pending, and by `approve_template` in any
-- state, also as a draft that was never submitted, or after it was rejected.
pub apply-approved :
    (now : ℕ) (c : Call) (t : Template)
    → is_status approved t ≡ false
    → is_status approved (kept t (apply now c t)) ≡ is_approval c t
unfolding apply add_variable set_rich_card add_suggestion submit_for_approval approve
    approve_template reject archive text_eq is_approval
apply-approved now c t h = ground (arith, h)
