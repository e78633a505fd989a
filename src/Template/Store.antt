-- ===== src/Template/Store.antt =====
-- The table `templates` of apps/adapters/db/models.py and apps/adapters/db/repositories/template_repo.py over
-- it. A row holds its JSON columns as the template does; the tags are left out, and so is that a JSON column
-- refuses an object in place of a dictionary, since no caller saves such a template here. `last_used_at` is an
-- instant, which a time without a zone gives to the driver where the host's zone is UTC.
pub mod RoundTrip
use rcs_bulk_messaging_syste.Prelude.{
  ℕ, zero, suc, ◌+◌, ◌-◌, ◌*◌, ◌≤◌, ◌<◌, ◌≡◌, refl, sym, ap, ◌∙◌, subst, ◌≢◌, ◌↔◌, ◌⊎◌, inl, inr,
  Bool, true, false, ◌&&◌, ◌||◌, not, Option, none, some, List, [], ◌∷◌, ◌++◌, map, arith, ltb, leb,
  ◌==◌, if◌then◌else◌, ltb→lt, leb→le, ==_iff, Bool-cases, Option-cases, is_some, or_else, length,
  take, drop, filter, any, count, All, length-append, length-take, length-filter-le, All-append,
}
use rcs_bulk_messaging_syste.Prelude.Text.{
  Text, codes, is_empty, text_eq, text_eq_iff, text_eq_refl, starts_with, is_in, lower, is_digit,
  strip, join, length-strip-le,
}
use rcs_bulk_messaging_syste.Prelude.Results.{
  Exn, value_error, invalid_state_transition, not_implemented, attribute_error, type_error,
  queue_exception, aggregator_exception, rate_limit_exception, circuit_open, database_error, Result,
  ok, err, ◌>>=◌, ◌>>◌, raise_if, is_ok, Result-cases, ok_injective,
}
use rcs_bulk_messaging_syste.Prelude.Dict.{
  Dict, get_item, set_item, get_item-set_item, get_item-set_item_self,
}
use rcs_bulk_messaging_syste.Message.Types.{SuggestedAction, RichCard, MessageContent}
use rcs_bulk_messaging_syste.Template.Types.{
  draft, pending_approval, approved, rejected, archived, TemplateVariable, CardTemplate, card_dict,
  card_object, SuggestionTemplate, suggestion_dict, suggestion_object, Template, is_status,
}
use rcs_bulk_messaging_syste.Template.Placeholders.{
  is_word, opening, closing, placeholder, word_of, after_word, placeholder_at, find_from, find_all,
  replace_from, replace, as_set, is_member,
}
use rcs_bulk_messaging_syste.Template.Lifecycle.{
  names, extract_variables, undeclared, is_nil, validate_template, new, required_variable, create,
  add_variable, set_rich_card, add_suggestion, submit_for_approval, approve, approve_template,
  reject, archive, is_approved,
}
use rcs_bulk_messaging_syste.Prelude.{
  ℕ, zero, suc, ◌+◌, ◌-◌, ◌*◌, ◌≤◌, ◌<◌, ◌≡◌, refl, sym, ap, ◌∙◌, subst, ◌≢◌, ◌↔◌, ◌⊎◌, inl, inr,
  Bool, true, false, ◌&&◌, ◌||◌, not, Option, none, some, List, [], ◌∷◌, ◌++◌, map, arith, ltb, leb,
  ◌==◌, if◌then◌else◌, ltb→lt, leb→le, ==_iff, Bool-cases, Option-cases, is_some, or_else, length,
  take, drop, filter, any, count, All, length-append, length-take, length-filter-le, All-append,
}
use rcs_bulk_messaging_syste.Prelude.Text.{
  Text, codes, is_empty, text_eq, text_eq_iff, text_eq_refl, starts_with, is_in, lower, is_digit,
  strip, join, length-strip-le,
}

pub record TemplateRow : Type 0 where
  pub id : ℕ
  pub tenant_id : ℕ
  pub name : Text
  pub status : Text
  pub content : Text
  pub external_template_id : Option Text
  pub rcs_type : Text
  pub variables : List TemplateVariable
  pub rich_card_template : Option CardTemplate
  pub suggestions_template : List SuggestionTemplate
  pub description : Option Text
  pub category : Option Text
  pub language : Text
  pub usage_count : ℕ
  pub last_used_at : Option ℕ
  pub created_at : ℕ
  pub updated_at : ℕ

-- `model.rcs_type or "BASIC"`
abbrev pub or_basic : Text → Text
or_basic s = if is_empty s then codes "BASIC" else s

-- `_to_domain`: the constructor validates the row.
unfoldable pub to_domain : TemplateRow → Result Template
to_domain r = do
  t ←
      new r.id r.tenant_id r.name r.content r.status r.variables r.rich_card_template
        r.suggestions_template r.created_at r.updated_at
  ok (record t {
    description = r.description;
    category = r.category;
    language = r.language;
    usage_count = r.usage_count;
    last_used_at = r.last_used_at;
    external_template_id = r.external_template_id;
    rcs_type = or_basic r.rcs_type;
  })

-- `_to_model`
unfoldable pub to_model : Template → TemplateRow
to_model t = record {
  id = t.id;
  tenant_id = t.tenant_id;
  name = t.name;
  status = t.status;
  content = t.content;
  external_template_id = t.external_template_id;
  rcs_type = t.rcs_type;
  variables = t.variables;
  rich_card_template = t.rich_card_template;
  suggestions_template = t.suggestions_template;
  description = t.description;
  category = t.category;
  language = t.language;
  usage_count = t.usage_count;
  last_used_at = t.last_used_at;
  created_at = t.created_at;
  updated_at = t.updated_at;
}

-- The suggestions that an update writes. The template has been loaded from its row in the same session, with the very
-- list of the row unless that is empty, and `add_suggestion` appends to it in place, which the ORM does not see.
unfoldable pub written_suggestions :
    List SuggestionTemplate → List SuggestionTemplate → List SuggestionTemplate
written_suggestions [] new = new
written_suggestions (s ∷ l) new = s ∷ l

-- `_update_from_domain`
unfoldable pub update_row : ℕ → TemplateRow → Template → TemplateRow
update_row now r t = record r {
  name = t.name;
  content = t.content;
  status = t.status;
  variables = t.variables;
  rich_card_template = t.rich_card_template;
  suggestions_template = written_suggestions r.suggestions_template t.suggestions_template;
  description = t.description;
  category = t.category;
  language = t.language;
  usage_count = t.usage_count;
  last_used_at = t.last_used_at;
  external_template_id = t.external_template_id;
  rcs_type = t.rcs_type;
  updated_at = now;
}

-- `scalar_one_or_none` of a `select` by primary key.
unfoldable pub find_row : ℕ → List TemplateRow → Option TemplateRow
find_row i [] = none
find_row i (r ∷ rows) = if r.id == i then some r else find_row i rows

-- `None` for no row; a row that is not valid raises.
abbrev pub load : Option TemplateRow → Result (Option Template)
load none = ok none
load (some r) = do t ← to_domain r; ok (some t)

unfoldable pub get_by_id : ℕ → List TemplateRow → Result (Option Template)
get_by_id i rows = load (find_row i rows)

abbrev pub is_external : Text → Option Text → Bool
is_external x none = false
is_external x (some y) = text_eq y x

-- `scalar_one_or_none` refuses several rows.
unfoldable pub one_or_none : List TemplateRow → Result (Option TemplateRow)
one_or_none [] = ok none
one_or_none (r ∷ []) = ok (some r)
one_or_none (r ∷ (s ∷ rows)) =
    err (database_error (codes "Multiple rows were found when one or none was required"))

unfoldable pub get_by_external_id : Text → List TemplateRow → Result (Option Template)
get_by_external_id x rows = do
  r ← one_or_none (filter (λ r. is_external x r.external_template_id) rows)
  load r

unfoldable pub exists : ℕ → List TemplateRow → Bool
exists i rows = is_some (find_row i rows)

unfoldable pub save : ℕ → Template → List TemplateRow → List TemplateRow
save now t [] = to_model t ∷ []
save now t (r ∷ rows) = if r.id == t.id then update_row now r t ∷ rows else r ∷ save now t rows

-- The rows without the deleted one, and whether there was one.
unfoldable pub delete : ℕ → List TemplateRow → List TemplateRow × Bool
delete i rows = (filter (λ r. not (r.id == i)) rows, exists i rows)
