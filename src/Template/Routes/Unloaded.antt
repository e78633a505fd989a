-- ===== src/Template/Routes/Unloaded.antt =====
-- The templates that the routes cannot load.
use rcs_bulk_messaging_syste.Prelude.{
  ℕ, ◌≡◌, inl, inr, Bool, true, false, none, some, List, [], arith, Bool-cases,
}
use rcs_bulk_messaging_syste.Prelude.Text.{Text}
use rcs_bulk_messaging_syste.Prelude.Dict.{Dict}
use rcs_bulk_messaging_syste.Prelude.Results.{Result, is_ok}
use rcs_bulk_messaging_syste.Template.Placeholders.{find_all, is_member}
use rcs_bulk_messaging_syste.Template.Lifecycle.{validate_template, new}
use rcs_bulk_messaging_syste.Template.Store.{TemplateRow}
use rcs_bulk_messaging_syste.Template.Routes.Loading.{find_of_tenant, get_template_or_404}
use rcs_bulk_messaging_syste.Template.Routes.Handlers.{preview_template, delete_template}
use rcs_bulk_messaging_syste.Template.Routes.Statuses.{responded}
use rcs_bulk_messaging_syste.Template.Invariant.{IsValid, validate_template_iff}

-- A content with a placeholder is not valid without variables.
undeclared-placeholder :
    (content n : Text)
    → is_member n (find_all content) ≡ true
    → is_ok (validate_template content []) ≡ false
unfolding IsValid
undeclared-placeholder content n h = elim (Bool-cases (is_ok (validate_template content []))) [
  | inl e ↦ ground (arith, ((validate_template_iff content []).0 e).1 n h)
  | inr e ↦ e
]

new-placeholder :
    (id tenant : ℕ) (name content status n : Text) (created_at updated_at : ℕ)
    → is_member n (find_all content) ≡ true
    → is_ok (new id tenant name content status [] none [] created_at updated_at) ≡ false
unfolding new
new-placeholder id tenant name content status n created_at updated_at h =
    ground (arith, undeclared-placeholder content n h)

-- A template whose content has a placeholder is never loaded by the routes, since the constructor validates the
-- content before the variables are set: it is neither previewed nor deleted.
pub get_template_or_404-placeholder :
    (re_match : Text → Text → Result Bool) (now i tenant : ℕ) (values : Dict Text)
    (rows : List TemplateRow) (r : TemplateRow) (n : Text)
    → find_of_tenant i tenant rows ≡ some r
    → is_member n (find_all r.content) ≡ true
    → (responded (get_template_or_404 i tenant rows) ≡ false)
      × (responded (preview_template re_match now i values tenant rows) ≡ false)
      × (responded (delete_template i tenant rows) ≡ false)
unfolding get_template_or_404 preview_template delete_template
get_template_or_404-placeholder re_match now i tenant values rows r n h k =
    let e =
      new-placeholder r.id r.tenant_id r.name r.content r.status n r.created_at r.updated_at k in
    rw h (ground (arith, e))
