-- ===== src/Template/Routes.antt =====
-- Requests, responses and conversions of the routes of apps/api/routes/v1/templates.py. The tags are
-- left out.
pub mod Loading
pub mod Handlers
pub mod Statuses
pub mod Unloaded
mod Tests
use rcs_bulk_messaging_syste.Prelude.{
  ℕ, zero, suc, ◌+◌, ◌-◌, ◌*◌, ◌≤◌, ◌<◌, ◌≡◌, refl, sym, ap, ◌∙◌, subst, ◌≢◌, ◌↔◌, ◌⊎◌, inl, inr,
  Bool, true, false, ◌&&◌, ◌||◌, not, Option, none, some, List, [], ◌∷◌, ◌++◌, map, arith, ltb, leb,
  ◌==◌, if◌then◌else◌, ltb→lt, leb→le, ==_iff, Bool-cases, Option-cases, is_some, or_else, length,
  take, drop, filter, any, count, All, length-append, length-take, length-filter-le, All-append,
}
use rcs_bulk_messaging_syste.Prelude.Text.{
  Text, codes, is_empty, text_eq, text_eq_iff, text_eq_refl, starts_with, is_in, lower, is_digit,
  strip, join, length-strip-le,
}
use rcs_bulk_messaging_syste.Prelude.Dict.{
  Dict, get_item, set_item, get_item-set_item, get_item-set_item_self,
}
use rcs_bulk_messaging_syste.Prelude.Results.{
  Exn, value_error, attribute_error, type_error, key_error, Result, ok, err, is_ok,
}
use rcs_bulk_messaging_syste.Message.Types.{SuggestedAction, RichCard, MessageContent}
use rcs_bulk_messaging_syste.Template.Types.{
  draft, pending_approval, approved, rejected, archived, TemplateVariable, CardTemplate, card_dict,
  card_object, SuggestionTemplate, suggestion_dict, suggestion_object, Template, is_status,
}
use rcs_bulk_messaging_syste.Template.Placeholders.{find_all}
use rcs_bulk_messaging_syste.Template.Lifecycle.{
  names, validate_template, new, required_variable, create, add_variable, set_rich_card,
  add_suggestion, submit_for_approval, approve, approve_template, reject, archive, is_approved,
}
use rcs_bulk_messaging_syste.Template.Render.{get_or_none, render}
use rcs_bulk_messaging_syste.Template.Store.{
  TemplateRow, or_basic, to_domain, to_model, update_row, find_row,
}

-- What a route comes to: a response, an `HTTPException`, or another exception, which is the status 500.
pub data Outcome {ℓ} (A : Type ℓ) : Type ℓ where
  responds : A → Outcome A
  http_error : ℕ → Text → Outcome A
  raises : Exn → Outcome A

infixl 5 ◌>>=◌
abbrev pub ◌>>=◌ {ℓ κ} : {A : Type ℓ} {B : Type κ} → Outcome A → (A → Outcome B) → Outcome B
responds a >>= next = next a
http_error code detail >>= next = http_error code detail
raises e >>= next = raises e

abbrev pub lift {ℓ} : {A : Type ℓ} → Result A → Outcome A
lift (ok a) = responds a
lift (err e) = raises e

pub record TemplateVariableRequest : Type 0 where
  pub name : Text
  pub description : Option Text
  pub required : Bool
  pub default_value : Option Text
  pub validation_regex : Option Text

pub record RichCardRequest : Type 0 where
  pub title : Text
  pub description : Option Text
  pub media_url : Option Text
  pub media_type : Option Text

pub record SuggestedActionRequest : Type 0 where
  pub kind : Text
  pub text : Text
  pub postback_data : Option Text
  pub url : Option Text
  pub phone_number : Option Text

pub record CreateTemplateRequest : Type 0 where
  pub name : Text
  pub content : Text
  pub description : Option Text
  pub category : Option Text
  pub language : Text
  pub variables : List TemplateVariableRequest
  pub rich_card : Option RichCardRequest
  pub suggestions : List SuggestedActionRequest

pub record UpdateTemplateRequest : Type 0 where
  pub name : Option Text
  pub content : Option Text
  pub description : Option Text
  pub category : Option Text
  pub language : Option Text
  pub variables : Option (List TemplateVariableRequest)
  pub rich_card : Option RichCardRequest
  pub suggestions : Option (List SuggestedActionRequest)

pub record TemplateResponse : Type 0 where
  pub id : ℕ
  pub tenant_id : ℕ
  pub name : Text
  pub status : Text
  pub content : Text
  pub description : Option Text
  pub category : Option Text
  pub language : Text
  pub variables : List TemplateVariable
  pub rich_card : Option CardTemplate
  pub suggestions : List SuggestionTemplate
  pub usage_count : ℕ
  pub last_used_at : Option ℕ
  pub created_at : ℕ
  pub updated_at : ℕ

-- `.value` of a status, which is a `str` and has none.
unfoldable pub value_attribute : Text → Outcome Text
value_attribute s = raises (attribute_error (codes "'str' object has no attribute 'value'"))

-- `rich_card_to_dict`, of a card or of the dictionary that stands in its place.
unfoldable pub rich_card_to_dict : CardTemplate → Outcome CardTemplate
rich_card_to_dict (card_dict d) =
    raises (attribute_error (codes "'dict' object has no attribute 'title'"))
rich_card_to_dict (card_object c) = responds (
    card_dict (
      (codes "title", c.title)
      ∷ (codes "description", c.description)
      ∷ (codes "media_url", c.media_url)
      ∷ (codes "media_type", c.media_type)
      ∷ []))

-- An empty dictionary is as none.
abbrev pub card_or_none : Option CardTemplate → Outcome (Option CardTemplate)
card_or_none none = responds none
card_or_none (some (card_dict [])) = responds none
card_or_none (some (card_dict (e ∷ d))) = do
  c ← rich_card_to_dict (card_dict (e ∷ d))
  responds (some c)
card_or_none (some (card_object o)) = do c ← rich_card_to_dict (card_object o); responds (some c)

unfoldable pub suggestion_to_dict : SuggestionTemplate → Outcome SuggestionTemplate
suggestion_to_dict (suggestion_dict kind text kwargs) =
    raises (attribute_error (codes "'dict' object has no attribute 'type'"))
suggestion_to_dict (suggestion_object a) = responds (
    suggestion_dict a.kind a.text (
      (codes "postback_data", a.postback_data)
      ∷ (codes "url", a.url)
      ∷ (codes "phone_number", a.phone_number)
      ∷ []))

unfoldable pub suggestions_to_dicts : List SuggestionTemplate → Outcome (List SuggestionTemplate)
suggestions_to_dicts [] = responds []
suggestions_to_dicts (s ∷ ss) = do
  d ← suggestion_to_dict s
  ds ← suggestions_to_dicts ss
  responds (d ∷ ds)

-- The response that the routes build from a template.
unfoldable pub response_of : Template → Outcome TemplateResponse
response_of t = do
  status ← value_attribute t.status
  card ← card_or_none t.rich_card_template
  suggestions ← suggestions_to_dicts t.suggestions_template
  responds record {
    id = t.id;
    tenant_id = t.tenant_id;
    name = t.name;
    status = status;
    content = t.content;
    description = t.description;
    category = t.category;
    language = t.language;
    variables = t.variables;
    rich_card = card;
    suggestions = suggestions;
    usage_count = t.usage_count;
    last_used_at = t.last_used_at;
    created_at = t.created_at;
    updated_at = t.updated_at;
  }

abbrev pub variable_of : TemplateVariableRequest → TemplateVariable
variable_of v = record {
  name = v.name;
  description = v.description;
  required = v.required;
  default_value = v.default_value;
  validation_regex = v.validation_regex;
}
