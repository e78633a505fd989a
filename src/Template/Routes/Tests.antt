-- ===== src/Template/Routes/Tests.antt =====
-- A draft with a placeholder, and the requests for it.
use rcs_bulk_messaging_syste.Prelude.{ℕ, ◌≡◌, refl, Bool, true, not, none, some, List, [], ◌∷◌, All}
use rcs_bulk_messaging_syste.Prelude.Text.{Text, codes, text_eq, starts_with}
use rcs_bulk_messaging_syste.Prelude.Results.{Result, ok}
use rcs_bulk_messaging_syste.Template.Types.{draft, approved}
use rcs_bulk_messaging_syste.Template.Placeholders.{
  find_all, is_member, find_from, placeholder_at, word_of, after_word,
}
use rcs_bulk_messaging_syste.Template.Store.{TemplateRow}
use rcs_bulk_messaging_syste.Template.Routes.{UpdateTemplateRequest}
use rcs_bulk_messaging_syste.Template.Routes.Loading.{find_of_tenant}
use rcs_bulk_messaging_syste.Template.Routes.Statuses.{
  serve_all, Request, updates, submits, approves, serve_all-AllPass,
}
use rcs_bulk_messaging_syste.Prelude.{ℕ, ◌≡◌, refl, Bool, true, not, none, some, List, [], ◌∷◌, All}
use rcs_bulk_messaging_syste.Prelude.Text.{Text, codes, text_eq, starts_with}

abbrev row : TemplateRow
row = record {
  id = 7;
  tenant_id = 3;
  name = codes "Order";
  status = draft;
  content = codes "Thanks {{name}}!";
  external_template_id = none;
  rcs_type = codes "BASIC";
  variables = [];
  rich_card_template = none;
  suggestions_template = [];
  description = none;
  category = none;
  language = codes "en";
  usage_count = 0;
  last_used_at = none;
  created_at = 10;
  updated_at = 10;
}

abbrev renamed : UpdateTemplateRequest
renamed = record {
  name = some (codes "Order 2");
  content = none;
  description = none;
  category = none;
  language = none;
  variables = none;
  rich_card = none;
  suggestions = none;
}

abbrev requests : List (ℕ × ℕ × Request)
requests =
    (20, 3, updates 7 renamed)
    ∷ (30, 3, submits 7)
    ∷ (40, 3, approves 7 (codes "X1") (codes "BASIC"))
    ∷ []

-- Not approved.
abbrev test : ℕ → Text → Bool
test i s = not (text_eq s approved)

passed : All (λ r. test r.id r.status ≡ true) (row ∷ [])
unfolding text_eq
passed = (refl, tt)

serve_all-AllPass_example : All (λ r. test r.id r.status ≡ true) (serve_all requests (row ∷ []))
serve_all-AllPass_example = serve_all-AllPass test requests (row ∷ []) passed

abbrev any_text : Text → Text → Result Bool
any_text pattern s = ok true

found : find_of_tenant 7 3 (row ∷ []) ≡ some row
unfolding find_of_tenant
found = refl

has_name : is_member (codes "name") (find_all row.content) ≡ true
unfolding find_from placeholder_at starts_with word_of after_word text_eq
has_name = refl
