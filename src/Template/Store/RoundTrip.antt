-- ===== src/Template/Store/RoundTrip.antt =====
-- Loading a template that was saved.
use rcs_bulk_messaging_syste.Prelude.{
  ℕ, ◌≡◌, refl, ◌∙◌, inl, inr, true, false, Option, none, some, List, [], ◌∷◌, arith, ◌==◌,
  if◌then◌else◌, ==_iff, Bool-cases,
}
use rcs_bulk_messaging_syste.Prelude.Text.{Text, codes}
use rcs_bulk_messaging_syste.Prelude.Results.{ok}
use rcs_bulk_messaging_syste.Template.Types.{
  TemplateVariable, CardTemplate, SuggestionTemplate, Template,
}
use rcs_bulk_messaging_syste.Template.Lifecycle.{new}
use rcs_bulk_messaging_syste.Template.Store.{
  TemplateRow, or_basic, to_domain, to_model, written_suggestions, update_row, find_row, load,
  get_by_id, save,
}
use rcs_bulk_messaging_syste.Template.Invariant.{IsValid, validate_template_iff}

-- What `get_by_id` gives after a save: the template, at the time of the update where there was a row, whose tenant and
-- time of creation stay, and its suggestions if it has any.
abbrev pub saved : ℕ → Template → Option TemplateRow → Template
saved now t none = record t { rcs_type = or_basic t.rcs_type }
saved now t (some r) = record t {
  tenant_id = r.tenant_id;
  created_at = r.created_at;
  updated_at = now;
  rcs_type = or_basic t.rcs_type;
  suggestions_template = written_suggestions r.suggestions_template t.suggestions_template;
}

new-valid :
    (id tenant : ℕ) (name content status : Text) (variables : List TemplateVariable)
    (card : Option CardTemplate) (suggestions : List SuggestionTemplate) (created_at updated_at : ℕ)
    → IsValid content variables
    → new id tenant name content status variables card suggestions created_at updated_at
      ≡ ok record {
        id = id;
        tenant_id = tenant;
        name = name;
        content = content;
        status = status;
        variables = variables;
        rich_card_template = card;
        suggestions_template = suggestions;
        created_at = created_at;
        updated_at = updated_at;
        external_template_id = none;
        rcs_type = codes "BASIC";
        description = none;
        category = none;
        language = codes "en";
        usage_count = 0;
        last_used_at = none;
      }
unfolding new
new-valid id tenant name content status variables card suggestions created_at updated_at h =
    ground (arith, (validate_template_iff content variables).1 h)

to_domain-to_model :
    (t : Template) → IsValid t.content t.variables → to_domain (to_model t) ≡ ok (saved 0 t none)
unfolding to_domain to_model
to_domain-to_model t h = rw (new-valid _ _ _ _ _ _ _ _ _ _ h) refl

to_domain-update_row :
    (now : ℕ) (t : Template) (r : TemplateRow)
    → IsValid t.content t.variables
    → r.id ≡ t.id
    → to_domain (update_row now r t) ≡ ok (saved now t (some r))
unfolding to_domain update_row
to_domain-update_row now t r h e = rw (new-valid _ _ _ _ _ _ _ _ _ _ h, e) refl

loaded-inserted :
    (i : ℕ) (t : Template)
    → IsValid t.content t.variables
    → (t.id == i) ≡ true
    → load (if (to_model t).id == i then some (to_model t) else none) ≡ ok (some (saved 0 t none))
loaded-inserted i t h e =
    let k : ((to_model t).id == i) ≡ true = unfold to_model in e in
    rw k (rw (to_domain-to_model t h) refl)

loaded-updated :
    (now i : ℕ) (t : Template) (r : TemplateRow) (o : Option TemplateRow)
    → IsValid t.content t.variables
    → r.id ≡ t.id
    → (r.id == i) ≡ true
    → load (if (update_row now r t).id == i then some (update_row now r t) else o)
      ≡ ok (some (saved now t (some r)))
loaded-updated now i t r o h k e =
    let f : ((update_row now r t).id == i) ≡ true = unfold update_row in e in
    rw f (rw (to_domain-update_row now t r h k) refl)

passed-updated :
    (now i : ℕ) (t : Template) (r : TemplateRow) (o : Option TemplateRow)
    → (r.id == i) ≡ false
    → load (if (update_row now r t).id == i then some (update_row now r t) else o) ≡ load o
passed-updated now i t r o e =
    let f : ((update_row now r t).id == i) ≡ false = unfold update_row in e in rw f refl

-- A valid template that is saved is loaded again with every field that it has, but for the time of the update
-- and, where its row was there before, the tenant and the time of creation, which an update does not write, and
-- the suggestions, which stay those of the row if it has any: what was appended to them is lost. An empty type is
-- loaded as BASIC. Every other template stays as it was. A template whose row is there has been loaded from it in
-- the same session.
pub load-save :
    (now i : ℕ) (t : Template) (rows : List TemplateRow)
    → IsValid t.content t.variables
    → get_by_id i (save now t rows)
      ≡ (if t.id == i then ok (some (saved now t (find_row i rows))) else get_by_id i rows)
unfolding get_by_id save find_row
load-save now i t [] h = elim (Bool-cases (t.id == i)) [
  | inl e ↦ rw e (loaded-inserted i t h e)
  | inr e ↦ rw e (unfold to_model in rw e refl)
]
load-save now i t (r ∷ rows) h = elim (Bool-cases (r.id == t.id)) [
  | inl k ↦ rw k (elim (Bool-cases (r.id == i)) [
    | inl e ↦
        let f : (t.id == i) ≡ true = ground (arith, k, e) in
        loaded-updated now i t r (find_row i rows) h ((==_iff r.id t.id).0 k) e ∙ rw (f, e) refl
    | inr e ↦
        let f : (t.id == i) ≡ false = ground (arith, k, e) in
        passed-updated now i t r (find_row i rows) e ∙ rw (f, e) refl
  ])
  | inr k ↦ rw k (elim (Bool-cases (r.id == i)) [
    | inl e ↦ let f : (t.id == i) ≡ false = ground (arith, k, e) in rw (f, e) refl
    | inr e ↦ rw e (load-save now i t rows h)
  ])
]
