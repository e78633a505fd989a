-- ===== src/Template/Types.antt =====
-- The template and its variables. A status is a plain `str` in the code, since `TemplateStatus` is a
-- subclass of `str` and not an enumeration. The tags are left out.
use rcs_bulk_messaging_syste.Prelude.{ℕ, Bool, Option, List}
use rcs_bulk_messaging_syste.Prelude.Text.{Text, codes, text_eq}
use rcs_bulk_messaging_syste.Prelude.Dict.{Dict}
use rcs_bulk_messaging_syste.Message.Types.{SuggestedAction, RichCard}

-- The constants of `TemplateStatus`.
abbrev pub draft : Text
draft = codes "draft"

abbrev pub pending_approval : Text
pending_approval = codes "pending_approval"

abbrev pub approved : Text
approved = codes "approved"

abbrev pub rejected : Text
rejected = codes "rejected"

abbrev pub archived : Text
archived = codes "archived"

pub record TemplateVariable : Type 0 where
  pub name : Text
  pub description : Option Text
  pub required : Bool
  pub default_value : Option Text
  pub validation_regex : Option Text

-- The field `rich_card_template` holds a dictionary, but the routes put a `RichCard` there.
pub data CardTemplate : Type 0 where
  card_dict : Dict (Option Text) → CardTemplate
  card_object : RichCard → CardTemplate

-- In the same way for an entry of `suggestions_template`. A dictionary has a type and a text, and further
-- keys whose values are texts or None.
pub data SuggestionTemplate : Type 0 where
  suggestion_dict : Text → Text → Dict (Option Text) → SuggestionTemplate
  suggestion_object : SuggestedAction → SuggestionTemplate

pub record Template : Type 0 where
  pub id : ℕ
  pub tenant_id : ℕ
  pub name : Text
  pub content : Text
  pub status : Text
  pub variables : List TemplateVariable
  pub rich_card_template : Option CardTemplate
  pub suggestions_template : List SuggestionTemplate
  pub created_at : ℕ
  pub updated_at : ℕ
  pub external_template_id : Option Text
  pub rcs_type : Text
  pub description : Option Text
  pub category : Option Text
  pub language : Text
  pub usage_count : ℕ
  pub last_used_at : Option ℕ

-- `self.status == s`
abbrev pub is_status : Text → Template → Bool
is_status s t = text_eq t.status s
