-- ===== src/Template/Lifecycle.antt =====
-- The constructor of a template, its changes and its approval states, with the clock and the fresh
-- identifier for arguments.
use rcs_bulk_messaging_syste.Prelude.{
  ℕ, Bool, true, false, not, Option, none, some, List, [], ◌∷◌, ◌++◌, map, ltb, if◌then◌else◌,
  length, filter, any,
}
use rcs_bulk_messaging_syste.Prelude.Text.{Text, codes, is_empty, text_eq, strip, join}
use rcs_bulk_messaging_syste.Prelude.Results.{Exn, value_error, Result, ok, ◌>>=◌, ◌>>◌, raise_if}
use rcs_bulk_messaging_syste.Prelude.Dict.{Dict}
use rcs_bulk_messaging_syste.Template.Types.{
  draft, pending_approval, approved, rejected, archived, TemplateVariable, CardTemplate, card_dict,
  SuggestionTemplate, suggestion_dict, Template, is_status,
}
use rcs_bulk_messaging_syste.Template.Placeholders.{find_all, as_set, is_member}

abbrev pub names : List TemplateVariable → List Text
names = map (λ v. v.name)

unfoldable pub extract_variables : Text → List Text
extract_variables content = as_set (find_all content)

-- `content_vars - declared_vars`
unfoldable pub undeclared : Text → List TemplateVariable → List Text
undeclared content variables =
    filter (λ n. not (is_member n (names variables))) (extract_variables content)

abbrev pub is_nil : List Text → Bool
is_nil [] = true
is_nil (x ∷ xs) = false

unfoldable pub validate_template : Text → List TemplateVariable → Result (Unit {0})
validate_template content variables =
    raise_if (ltb 1024 (length content))
      (value_error (codes "Template content exceeds 1024 characters"))
    >> raise_if (not (is_nil (undeclared content variables))) (
        value_error (
          codes "Undeclared variables in content: "
          ++ join (codes ", ") (undeclared content variables)))

-- `__init__`, which validates the template.
unfoldable pub new :
    ℕ
    → ℕ
    → Text
    → Text
    → Text
    → List TemplateVariable
    → Option CardTemplate
    → List SuggestionTemplate
    → ℕ
    → ℕ
    → Result Template
new id tenant name content status variables card suggestions created_at updated_at =
    validate_template content variables
    >> ok record {
      id = id;
      tenant_id = tenant;
      name = name;
      content = content;
      status = status;
      variables = variables;
      rich_card_template = card;
      suggestions_template = suggestions;
      created_at = created_at;
      updated_at = updated_at;
      external_template_id = none;
      rcs_type = codes "BASIC";
      description = none;
      category = none;
      language = codes "en";
      usage_count = 0;
      last_used_at = none;
    }

unfoldable pub required_variable : Text → TemplateVariable
required_variable name = record {
  name = name;
  description = some (codes "Variable: " ++ name);
  required = true;
  default_value = none;
  validation_regex = none;
}

-- `if description:`
abbrev pub unless_empty : Option Text → Option Text
unless_empty none = none
unless_empty (some s) = if is_empty s then none else some s

unfoldable pub create : ℕ → ℕ → ℕ → Text → Text → List Text → Option Text → Result Template
create now id tenant name content variables description = do
  t ←
      new id tenant (strip name) (strip content) draft (map required_variable variables) none [] now
        now
  ok (record t { description = unless_empty description })

abbrev pub not_draft : Exn
not_draft = value_error (codes "Cannot modify approved template")

unfoldable pub add_variable : ℕ → Text → Text → Bool → Option Text → Template → Result Template
add_variable now name description required default_value t =
    raise_if (not (is_status draft t)) not_draft
    >> raise_if (any (λ v. text_eq v.name name) t.variables)
        (value_error (codes "Variable '" ++ name ++ codes "' already exists"))
    >> ok (record t {
      variables =
          t.variables
          ++ (record {
            name = name;
            description = some description;
            required = required;
            default_value = default_value;
            validation_regex = none;
          }
              ∷ []);
      updated_at = now;
    })

unfoldable pub set_rich_card :
    ℕ → Option Text → Option Text → Option Text → Option Text → Template → Result Template
set_rich_card now title description media_url media_type t =
    raise_if (not (is_status draft t)) not_draft
    >> ok (record t {
      rich_card_template = some (
          card_dict (
            (codes "title", title)
            ∷ (codes "description", description)
            ∷ (codes "media_url", media_url)
            ∷ (codes "media_type", media_type)
            ∷ []));
      updated_at = now;
    })

-- The keywords `kwargs` are others than `type`, which no caller that is taken passes, and `text`, which is a
-- parameter.
unfoldable pub add_suggestion : ℕ → Text → Text → Dict (Option Text) → Template → Result Template
add_suggestion now suggestion_type text kwargs t =
    raise_if (not (is_status draft t)) not_draft
    >> ok (record t {
      suggestions_template =
          t.suggestions_template ++ (suggestion_dict suggestion_type text kwargs ∷ []);
      updated_at = now;
    })

unfoldable pub submit_for_approval : ℕ → Template → Result Template
submit_for_approval now t =
    raise_if (not (is_status draft t)) (value_error (codes "Template is not in draft status"))
    >> validate_template t.content t.variables
    >> ok (record t { status = pending_approval; updated_at = now })

abbrev pub not_pending : Exn
not_pending = value_error (codes "Template is not pending approval")

unfoldable pub approve : ℕ → Template → Result Template
approve now t =
    raise_if (not (is_status pending_approval t)) not_pending
    >> ok (record t { status = approved; updated_at = now })

unfoldable pub approve_template : ℕ → Text → Text → Template → Template
approve_template now external_template_id rcs_type t = record t {
  external_template_id = some external_template_id;
  rcs_type = rcs_type;
  status = approved;
  updated_at = now;
}

unfoldable pub reject : ℕ → Text → Template → Result Template
reject now reason t =
    raise_if (not (is_status pending_approval t)) not_pending
    >> ok (record t { status = rejected; updated_at = now })

unfoldable pub archive : ℕ → Template → Template
archive now t = record t { status = archived; updated_at = now }

unfoldable pub is_approved : Template → Bool
is_approved t = is_status approved t
