-- ===== src/Template/Routes/Handlers.antt =====
-- The routes of apps/api/routes/v1/templates.py. A request is one that its model has let through. A route takes
-- the table and gives the response and the table; where it raises, nothing was committed. Not modelled: the
-- list, which is sorted and cut by the database.
use rcs_bulk_messaging_syste.Prelude.{
  ℕ, Bool, not, Option, none, some, List, [], ◌∷◌, ◌++◌, map, ◌==◌, if◌then◌else◌, or_else, filter,
}
use rcs_bulk_messaging_syste.Prelude.Text.{Text, codes, text_eq}
use rcs_bulk_messaging_syste.Prelude.Dict.{Dict}
use rcs_bulk_messaging_syste.Prelude.Results.{value_error, type_error, Result, ok, err}
use rcs_bulk_messaging_syste.Message.Types.{RichCard, MessageContent}
use rcs_bulk_messaging_syste.Template.Types.{
  draft, CardTemplate, card_dict, card_object, SuggestionTemplate, suggestion_dict,
  suggestion_object, Template, is_status,
}
use rcs_bulk_messaging_syste.Template.Lifecycle.{
  create, set_rich_card, submit_for_approval, approve_template, reject,
}
use rcs_bulk_messaging_syste.Template.Render.{render}
use rcs_bulk_messaging_syste.Template.Store.{TemplateRow}
use rcs_bulk_messaging_syste.Store.Rows.{map_option}
use rcs_bulk_messaging_syste.Template.Routes.{
  Outcome, responds, http_error, raises, ◌>>=◌, lift, RichCardRequest, SuggestedActionRequest,
  CreateTemplateRequest, UpdateTemplateRequest, TemplateResponse, value_attribute,
  rich_card_to_dict, card_or_none, suggestions_to_dicts, response_of, variable_of,
}
use rcs_bulk_messaging_syste.Template.Routes.Loading.{
  find_of_tenant, row_or_404, get_template_or_404,
}

-- `add_suggestion` is called without its first argument, so it raises on the first suggestion.
unfoldable pub add_requested : List SuggestedActionRequest → Template → Outcome Template
add_requested [] t = responds t
add_requested (s ∷ ss) t =
    raises (type_error (codes "missing 1 required positional argument: 'suggestion_type'"))

abbrev pub set_requested : ℕ → Option RichCardRequest → Template → Outcome Template
set_requested now none t = responds t
set_requested now (some c) t =
    lift (set_rich_card now (some c.title) c.description c.media_url c.media_type t)

unfoldable pub create_template :
    ℕ
    → ℕ
    → CreateTemplateRequest
    → ℕ
    → List TemplateRow
    → Outcome (TemplateResponse × List TemplateRow)
create_template now id request tenant rows = do
  t ←
      lift (
        create now id tenant request.name request.content (map (λ v. v.name) request.variables)
          none)
  t₁ ← set_requested now request.rich_card (record t {
    description = request.description;
    category = request.category;
    language = request.language;
    variables = map variable_of request.variables;
  })
  t₂ ← add_requested request.suggestions t₁
  status ← value_attribute t₂.status
  card ← card_or_none t₂.rich_card_template
  suggestions ← suggestions_to_dicts t₂.suggestions_template
  response ← response_of t₂
  responds (
    response,
    rows
        ++ (record {
          id = t₂.id;
          tenant_id = t₂.tenant_id;
          name = t₂.name;
          status = status;
          content = t₂.content;
          external_template_id = none;
          rcs_type = codes "BASIC";
          variables = t₂.variables;
          rich_card_template = card;
          suggestions_template = suggestions;
          description = t₂.description;
          category = t₂.category;
          language = t₂.language;
          usage_count = 0;
          last_used_at = none;
          created_at = t₂.created_at;
          updated_at = t₂.updated_at;
        }
            ∷ []),
  )

unfoldable pub get_template :
    ℕ → ℕ → List TemplateRow → Outcome (TemplateResponse × List TemplateRow)
get_template i tenant rows = do
  t ← get_template_or_404 i tenant rows
  response ← response_of t
  responds (response, rows)

-- `update(TemplateModel).where(TemplateModel.id == id)`
abbrev pub update_where : ℕ → (TemplateRow → TemplateRow) → List TemplateRow → List TemplateRow
update_where i f = map (λ r. if r.id == i then f r else r)

abbrev pub card_of_request : RichCardRequest → CardTemplate
card_of_request c = card_dict (
    (codes "title", some c.title)
    ∷ (codes "description", c.description)
    ∷ (codes "media_url", c.media_url)
    ∷ (codes "media_type", c.media_type)
    ∷ [])

abbrev pub suggestion_of_request : SuggestedActionRequest → SuggestionTemplate
suggestion_of_request s = suggestion_dict s.kind s.text (
    (codes "postback_data", s.postback_data)
    ∷ (codes "url", s.url)
    ∷ (codes "phone_number", s.phone_number)
    ∷ [])

abbrev pub given : Option Text → Option Text → Option Text
given none s = s
given (some t) s = some t

abbrev pub some_card : Option RichCardRequest → Option CardTemplate → Option CardTemplate
some_card none card = card
some_card (some c) card = some (card_of_request c)

-- The columns that are given.
unfoldable pub updated_row : ℕ → UpdateTemplateRequest → TemplateRow → TemplateRow
updated_row now request r = record r {
  name = or_else request.name r.name;
  content = or_else request.content r.content;
  description = given request.description r.description;
  category = given request.category r.category;
  language = or_else request.language r.language;
  variables = or_else (map_option (map variable_of) request.variables) r.variables;
  rich_card_template = some_card request.rich_card r.rich_card_template;
  suggestions_template =
      or_else (map_option (map suggestion_of_request) request.suggestions) r.suggestions_template;
  updated_at = now;
}

abbrev pub response_of_row : TemplateRow → TemplateResponse
response_of_row r = record {
  id = r.id;
  tenant_id = r.tenant_id;
  name = r.name;
  status = r.status;
  content = r.content;
  description = r.description;
  category = r.category;
  language = r.language;
  variables = r.variables;
  rich_card = r.rich_card_template;
  suggestions = r.suggestions_template;
  usage_count = r.usage_count;
  last_used_at = r.last_used_at;
  created_at = r.created_at;
  updated_at = r.updated_at;
}

-- A draft is updated, and is not validated.
unfoldable pub update_template :
    ℕ
    → ℕ
    → UpdateTemplateRequest
    → ℕ
    → List TemplateRow
    → Outcome (TemplateResponse × List TemplateRow)
update_template now i request tenant rows = do
  r ← row_or_404 (find_of_tenant i tenant rows)
  (if text_eq r.status draft
      then responds (
        response_of_row (updated_row now request r),
        update_where i (updated_row now request) rows,
      )
      else http_error 400 (codes "Only draft templates can be updated"))

unfoldable pub submit_route :
    ℕ → ℕ → ℕ → List TemplateRow → Outcome (TemplateResponse × List TemplateRow)
submit_route now i tenant rows = do
  t ← get_template_or_404 i tenant rows
  t' ← lift (submit_for_approval now t)
  status ← value_attribute t'.status
  response ← response_of t'
  responds (response, update_where i (λ r. record r { status = status; updated_at = now }) rows)

unfoldable pub approve_route :
    ℕ → ℕ → Text → Text → ℕ → List TemplateRow → Outcome (TemplateResponse × List TemplateRow)
approve_route now i external_template_id rcs_type tenant rows = do
  t ← get_template_or_404 i tenant rows
  let t' = approve_template now external_template_id rcs_type t
  status ← value_attribute t'.status
  response ← response_of t'
  responds (
    response,
    update_where i
        (λ r. record r {
          status = status;
          external_template_id = t'.external_template_id;
          rcs_type = t'.rcs_type;
          updated_at = now;
        })
        rows,
  )

unfoldable pub reject_route :
    ℕ → ℕ → Text → ℕ → List TemplateRow → Outcome (TemplateResponse × List TemplateRow)
reject_route now i reason tenant rows = do
  t ← get_template_or_404 i tenant rows
  t' ← lift (reject now reason t)
  status ← value_attribute t'.status
  response ← response_of t'
  responds (response, update_where i (λ r. record r { status = status; updated_at = now }) rows)

pub record PreviewResponse : Type 0 where
  pub text : Text
  pub rich_card : Option CardTemplate
  pub suggestions : List SuggestionTemplate

-- `except ValueError`
unfoldable pub bad_request :
    Result (MessageContent × Template) → Outcome (MessageContent × Template)
bad_request (ok x) = responds x
bad_request (err (value_error s)) = http_error 400 s
bad_request (err e) = raises e

abbrev pub rendered_card : Option RichCard → Outcome (Option CardTemplate)
rendered_card none = responds none
rendered_card (some c) = do d ← rich_card_to_dict (card_object c); responds (some d)

unfoldable pub preview_template :
    (Text → Text → Result Bool) → ℕ → ℕ → Dict Text → ℕ → List TemplateRow → Outcome PreviewResponse
preview_template re_match now i values tenant rows = do
  t ← get_template_or_404 i tenant rows
  rendered ← bad_request (render re_match now values t)
  card ← rendered_card rendered.0.rich_card
  suggestions ← suggestions_to_dicts (map suggestion_object rendered.0.suggestions)
  responds record { text = rendered.0.text; rich_card = card; suggestions = suggestions }

unfoldable pub delete_template : ℕ → ℕ → List TemplateRow → Outcome (List TemplateRow)
delete_template i tenant rows = do
  t ← get_template_or_404 i tenant rows
  (if is_status draft t
      then responds (filter (λ r. not (r.id == i)) rows)
      else http_error 400 (codes "Only draft templates can be deleted"))
