-- ===== src/Template/Routes/Loading.antt =====
-- `get_template_or_404` of apps/api/routes/v1/templates.py, which loads a template past the repository.
use rcs_bulk_messaging_syste.Prelude.{
  ℕ, ◌&&◌, Option, none, some, List, [], ◌∷◌, ◌==◌, if◌then◌else◌,
}
use rcs_bulk_messaging_syste.Prelude.Text.{codes}
use rcs_bulk_messaging_syste.Prelude.Dict.{get_item}
use rcs_bulk_messaging_syste.Prelude.Results.{type_error, key_error}
use rcs_bulk_messaging_syste.Template.Types.{
  CardTemplate, card_dict, card_object, SuggestionTemplate, suggestion_dict, suggestion_object,
  Template,
}
use rcs_bulk_messaging_syste.Template.Lifecycle.{new}
use rcs_bulk_messaging_syste.Template.Render.{get_or_none}
use rcs_bulk_messaging_syste.Template.Store.{TemplateRow}
use rcs_bulk_messaging_syste.Template.Routes.{Outcome, responds, http_error, raises, ◌>>=◌, lift}

-- The row of the template and the tenant.
unfoldable pub find_of_tenant : ℕ → ℕ → List TemplateRow → Option TemplateRow
find_of_tenant i tenant [] = none
find_of_tenant i tenant (r ∷ rows) =
    if r.id == i && r.tenant_id == tenant then some r else find_of_tenant i tenant rows

abbrev pub row_or_404 : Option TemplateRow → Outcome TemplateRow
row_or_404 none = http_error 404 (codes "Template not found")
row_or_404 (some r) = responds r

-- `model.rich_card_template["title"]` and so on.
unfoldable pub card_of_row : Option CardTemplate → Outcome (Option CardTemplate)
card_of_row none = responds none
card_of_row (some (card_object c)) =
    raises (type_error (codes "'RichCard' object is not subscriptable"))
card_of_row (some (card_dict [])) = responds none
card_of_row (some (card_dict (e ∷ d))) = elim (get_item (codes "title") (e ∷ d)) [
  | none ↦ raises (key_error (codes "'title'"))
  | some title ↦ responds (
      some (
        card_object record {
          title = title;
          description = get_or_none (codes "description") (e ∷ d);
          media_url = get_or_none (codes "media_url") (e ∷ d);
          media_type = get_or_none (codes "media_type") (e ∷ d);
          media_height = codes "MEDIUM";
          suggestions = [];
        }))
]

unfoldable pub suggestions_of_row : List SuggestionTemplate → Outcome (List SuggestionTemplate)
suggestions_of_row [] = responds []
suggestions_of_row (suggestion_object a ∷ ss) =
    raises (type_error (codes "'SuggestedAction' object is not subscriptable"))
suggestions_of_row (suggestion_dict kind text kwargs ∷ ss) = do
  rest ← suggestions_of_row ss
  responds (
      suggestion_object record {
        kind = kind;
        text = text;
        postback_data = get_or_none (codes "postback_data") kwargs;
        url = get_or_none (codes "url") kwargs;
        phone_number = get_or_none (codes "phone_number") kwargs;
      }
      ∷ rest)

-- The constructor is called, and validates, before the variables are set.
unfoldable pub get_template_or_404 : ℕ → ℕ → List TemplateRow → Outcome Template
get_template_or_404 i tenant rows = do
  r ← row_or_404 (find_of_tenant i tenant rows)
  t ← lift (new r.id r.tenant_id r.name r.content r.status [] none [] r.created_at r.updated_at)
  card ← card_of_row r.rich_card_template
  suggestions ← suggestions_of_row r.suggestions_template
  responds (record t {
    description = r.description;
    category = r.category;
    language = r.language;
    usage_count = r.usage_count;
    last_used_at = r.last_used_at;
    variables = r.variables;
    rich_card_template = card;
    suggestions_template = suggestions;
  })
