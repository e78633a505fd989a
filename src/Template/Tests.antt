-- ===== src/Template/Tests.antt =====
-- An order confirmation with two variables.
use rcs_bulk_messaging_syste.Prelude.{
  ℕ, ◌≡◌, refl, Bool, true, false, none, some, List, [], ◌∷◌, ◌==◌, if◌then◌else◌, All,
}
use rcs_bulk_messaging_syste.Prelude.Text.{Text, codes, text_eq, starts_with}
use rcs_bulk_messaging_syste.Prelude.Results.{Result, ok}
use rcs_bulk_messaging_syste.Prelude.Dict.{Dict, get_item}
use rcs_bulk_messaging_syste.Template.Types.{
  draft, pending_approval, TemplateVariable, Template, is_status,
}
use rcs_bulk_messaging_syste.Template.Placeholders.{
  word_of, after_word, placeholder_at, find_from, find_all, as_set,
}
use rcs_bulk_messaging_syste.Template.Lifecycle.{
  extract_variables, undeclared, validate_template, new,
}
use rcs_bulk_messaging_syste.Template.Render.{
  is_missing, value_of, render_suggestions, validate, render,
}
use rcs_bulk_messaging_syste.Template.Replacing.{avoids, Piece, literal, slot, print, AllPlain}
use rcs_bulk_messaging_syste.Template.Invariant.{
  IsValid, Call, approves, adds, run, new-run-IsValid,
}
use rcs_bulk_messaging_syste.Template.Approval.{SameText, run-frozen}
use rcs_bulk_messaging_syste.Template.Rendering.{find_variable, fill_all, IsGiven, render-fill_all}
use rcs_bulk_messaging_syste.Template.Store.{find_row, get_by_id, save}
use rcs_bulk_messaging_syste.Template.Store.RoundTrip.{saved, load-save}

abbrev name_variable : TemplateVariable
name_variable = record {
  name = codes "name";
  description = none;
  required = true;
  default_value = none;
  validation_regex = none;
}

abbrev order_variable : TemplateVariable
order_variable = record name_variable {
  name = codes "order";
  required = false;
  default_value = some (codes "?");
}

abbrev pieces : List Piece
pieces =
    literal (codes "Thanks ")
    ∷ slot (codes "name")
    ∷ literal (codes "! Order ")
    ∷ slot (codes "order")
    ∷ literal (codes " confirmed.")
    ∷ []

abbrev content : Text
content = codes "Thanks {{name}}! Order {{order}} confirmed."

abbrev template : Template
template = record {
  id = 7;
  tenant_id = 3;
  name = codes "Order";
  content = content;
  status = pending_approval;
  variables = name_variable ∷ order_variable ∷ [];
  rich_card_template = none;
  suggestions_template = [];
  created_at = 10;
  updated_at = 10;
  external_template_id = none;
  rcs_type = codes "BASIC";
  description = none;
  category = none;
  language = codes "en";
  usage_count = 0;
  last_used_at = none;
}

found : find_all content ≡ codes "name" ∷ codes "order" ∷ []
unfolding find_from placeholder_at starts_with word_of after_word
found = refl

made :
    new 7 3
      (codes "Order")
      content
      pending_approval
      (name_variable ∷ order_variable ∷ [])
      none
      []
      10
      10
    ≡ ok template
unfolding new validate_template undeclared extract_variables as_set find_from placeholder_at
    starts_with word_of after_word text_eq
made = refl

abbrev calls : List (ℕ × Call)
calls = (20, approves) ∷ (30, adds (codes "extra") (codes "") true none) ∷ []

new-run-IsValid_example :
    ((run calls template).content ≡ content)
    × IsValid (run calls template).content (run calls template).variables
new-run-IsValid_example =
    new-run-IsValid 7 3 (codes "Order") content pending_approval
      (name_variable ∷ order_variable ∷ []) none [] 10 10 template calls made

not_draft : is_status draft template ≡ false
unfolding text_eq
not_draft = refl

run-frozen_example :
    (is_status draft (run calls template) ≡ false) × SameText template (run calls template)
run-frozen_example = run-frozen calls template not_draft

abbrev values : Dict Text
values = (codes "name", codes "Alice") ∷ []

-- A `re.match` that takes everything.
abbrev any_text : Text → Text → Result Bool
any_text pattern s = ok true

all_plain : AllPlain pieces
unfolding avoids
all_plain = (refl, (refl, (refl, (refl, (refl, tt)))))

variables-IsGiven : All (IsGiven values any_text) template.variables
unfolding avoids value_of is_missing validate get_item text_eq
variables-IsGiven = ((refl, refl, refl, refl), ((refl, refl, refl, refl), tt))

printed : template.content ≡ print pieces
unfolding print
printed = refl

filled : fill_all values template.variables pieces ≡ codes "Thanks Alice! Order ? confirmed."
unfolding fill_all find_variable value_of get_item text_eq
filled = refl

no_suggestions : render_suggestions values [] ≡ ok []
unfolding render_suggestions
no_suggestions = refl

render-fill_all_example :
    render any_text 40 values template
    ≡ ok (
      record {
        text = fill_all values template.variables pieces;
        rich_card = none;
        suggestions = [];
        template_id = none;
        variables = [];
        rcs_type = codes "BASIC";
      },
      record template { usage_count = 1; last_used_at = some 40 },
    )
render-fill_all_example =
    render-fill_all values any_text 40 template pieces none [] printed all_plain variables-IsGiven
      refl no_suggestions

abbrev no_calls : List (ℕ × Call)
no_calls = []

valid : IsValid template.content template.variables
unfolding run
valid =
    (new-run-IsValid 7 3 (codes "Order") content pending_approval
      (name_variable ∷ order_variable ∷ []) none [] 10 10 template no_calls made).1

load-save_example :
    get_by_id 7 (save 50 template [])
    ≡ (if template.id == 7 then ok (some (saved 50 template (find_row 7 []))) else get_by_id 7 [])
load-save_example = load-save 50 7 template [] valid
