-- ===== src/Template/Render.antt =====
-- Rendering: `render` and its helpers. `re.match`, which also refuses a pattern that is none, is a parameter.
use rcs_bulk_messaging_syste.Prelude.{
  ℕ, ◌+◌, Bool, true, ◌&&◌, ◌||◌, not, Option, none, some, List, [], ◌∷◌, ◌++◌, if◌then◌else◌,
  is_some, or_else, any,
}
use rcs_bulk_messaging_syste.Prelude.Text.{Text, codes, is_empty, text_eq}
use rcs_bulk_messaging_syste.Prelude.Results.{
  value_error, attribute_error, type_error, Result, ok, err, ◌>>=◌, ◌>>◌, raise_if,
}
use rcs_bulk_messaging_syste.Prelude.Dict.{Dict, get_item}
use rcs_bulk_messaging_syste.Message.Types.{SuggestedAction, RichCard, MessageContent}
use rcs_bulk_messaging_syste.Template.Types.{
  TemplateVariable, CardTemplate, card_dict, card_object, SuggestionTemplate, suggestion_dict,
  suggestion_object, Template,
}
use rcs_bulk_messaging_syste.Template.Placeholders.{placeholder, replace}

-- `var.required and var.name not in variable_values`, and no default.
unfoldable pub is_missing : Dict Text → TemplateVariable → Bool
is_missing values v =
    v.required && not (is_some (get_item v.name values)) && not (is_some v.default_value)

unfoldable pub validate_variables : Dict Text → List TemplateVariable → Result (Unit {0})
validate_variables values [] = ok tt
validate_variables values (v ∷ vs) =
    raise_if (is_missing values v)
      (value_error (codes "Required variable '" ++ v.name ++ codes "' not provided"))
    >> validate_variables values vs

-- `variable_values.get(var.name, var.default_value or "")`
unfoldable pub value_of : Dict Text → TemplateVariable → Text
value_of values v = or_else (get_item v.name values) (or_else v.default_value [])

-- The texts of a card and of the suggestions: every value is put in, in the order of the dictionary.
unfoldable pub put_values : Dict Text → Text → Text
put_values [] s = s
put_values ((name, value) ∷ values) s = put_values values (replace (placeholder name) value s)

-- `substitute`
abbrev pub substitute : Dict Text → Option Text → Option Text
substitute values none = none
substitute values (some s) = if is_empty s then none else some (put_values values s)

-- `d.get(k)`
abbrev pub get_or_none : Text → Dict (Option Text) → Option Text
get_or_none k d = or_else (get_item k d) none

-- `_render_rich_card`; an empty dictionary is as none.
unfoldable pub render_rich_card : Dict Text → CardTemplate → Result (Option RichCard)
render_rich_card values (card_object c) =
    err (attribute_error (codes "'RichCard' object has no attribute 'get'"))
render_rich_card values (card_dict []) = ok none
render_rich_card values (card_dict (e ∷ d)) = ok (
    some record {
      title = substitute values (get_or_none (codes "title") (e ∷ d));
      description = substitute values (get_or_none (codes "description") (e ∷ d));
      media_url = substitute values (get_or_none (codes "media_url") (e ∷ d));
      media_type = none;
      media_height = codes "MEDIUM";
      suggestions = [];
    })

abbrev pub render_card : Dict Text → Option CardTemplate → Result (Option RichCard)
render_card values none = ok none
render_card values (some c) = render_rich_card values c

-- The optional fields of `SuggestedAction`.
abbrev pub is_field : Text → Bool
is_field k =
    text_eq k (codes "postback_data") || text_eq k (codes "url") || text_eq k (codes "phone_number")

abbrev pub put_value : Dict Text → Option Text → Option Text
put_value values none = none
put_value values (some s) = some (put_values values s)

-- `SuggestedAction(**suggestion_data)`
unfoldable pub render_suggestion : Dict Text → SuggestionTemplate → Result SuggestedAction
render_suggestion values (suggestion_object a) =
    err (attribute_error (codes "'SuggestedAction' object has no attribute 'items'"))
render_suggestion values (suggestion_dict kind text kwargs) =
    raise_if (any (λ e. not (is_field e.0)) kwargs)
      (type_error (codes "SuggestedAction got an unexpected keyword argument"))
    >> ok record {
      kind = put_values values kind;
      text = put_values values text;
      postback_data = put_value values (get_or_none (codes "postback_data") kwargs);
      url = put_value values (get_or_none (codes "url") kwargs);
      phone_number = put_value values (get_or_none (codes "phone_number") kwargs);
    }

unfoldable pub render_suggestions :
    Dict Text → List SuggestionTemplate → Result (List SuggestedAction)
render_suggestions values [] = ok []
render_suggestions values (s ∷ ss) = do
  a ← render_suggestion values s
  rest ← render_suggestions values ss
  ok (a ∷ rest)

module _ (re_match : Text → Text → Result Bool) where
  -- `var.validate(value)`
  unfoldable pub validate : Option Text → Text → Result Bool
  validate none value = ok true
  validate (some []) value = ok true
  validate (some (c ∷ pattern)) value = re_match (c ∷ pattern) value

  -- The loop over the variables.
  unfoldable pub substitute_variables : Dict Text → List TemplateVariable → Text → Result Text
  substitute_variables values [] text = ok text
  substitute_variables values (v ∷ vs) text = do
    valid ← validate v.validation_regex (value_of values v)
    raise_if (not valid) (
        value_error
          (codes "Invalid value for variable '" ++ v.name ++ codes "': " ++ value_of values v))
    substitute_variables values vs (replace (placeholder v.name) (value_of values v) text)

  -- The message content, and the template with its usage counted.
  unfoldable pub render : ℕ → Dict Text → Template → Result (MessageContent × Template)
  render now values t = do
    validate_variables values t.variables
    text ← substitute_variables values t.variables t.content
    rich_card ← render_card values t.rich_card_template
    suggestions ← render_suggestions values t.suggestions_template
    ok (
      record {
        text = text;
        rich_card = rich_card;
        suggestions = suggestions;
        template_id = none;
        variables = [];
        rcs_type = codes "BASIC";
      },
      record t { usage_count = t.usage_count + 1; last_used_at = some now },
    )
