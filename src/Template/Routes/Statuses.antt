-- ===== src/Template/Routes/Statuses.antt =====
-- What the routes do to the table, over any number of requests.
use rcs_bulk_messaging_syste.Prelude.{
  ℕ, ◌≡◌, inl, inr, Bool, true, false, not, List, [], ◌∷◌, arith, ◌==◌, Bool-cases, filter, All,
}
use rcs_bulk_messaging_syste.Prelude.Text.{Text}
use rcs_bulk_messaging_syste.Template.Store.{TemplateRow}
use rcs_bulk_messaging_syste.Template.Routes.{
  Outcome, responds, http_error, raises, CreateTemplateRequest, UpdateTemplateRequest,
  value_attribute, response_of,
}
use rcs_bulk_messaging_syste.Template.Routes.Handlers.{
  create_template, get_template, update_where, updated_row, update_template, submit_route,
  approve_route, reject_route, delete_template,
}

abbrev pub responded {ℓ} : {A : Type ℓ} → Outcome A → Bool
responded (responds a) = true
responded (http_error code detail) = false
responded (raises e) = false

create_template-raises :
    (now id : ℕ) (request : CreateTemplateRequest) (tenant : ℕ) (rows : List TemplateRow)
    → responded (create_template now id request tenant rows) ≡ false
unfolding create_template value_attribute
create_template-raises now id request tenant rows = ground arith

get_template-raises :
    (i tenant : ℕ) (rows : List TemplateRow) → responded (get_template i tenant rows) ≡ false
unfolding get_template response_of value_attribute
get_template-raises i tenant rows = ground arith

submit_route-raises :
    (now i tenant : ℕ) (rows : List TemplateRow)
    → responded (submit_route now i tenant rows) ≡ false
unfolding submit_route value_attribute
submit_route-raises now i tenant rows = ground arith

approve_route-raises :
    (now i : ℕ) (e rcs_type : Text) (tenant : ℕ) (rows : List TemplateRow)
    → responded (approve_route now i e rcs_type tenant rows) ≡ false
unfolding approve_route value_attribute
approve_route-raises now i e rcs_type tenant rows = ground arith

reject_route-raises :
    (now i : ℕ) (reason : Text) (tenant : ℕ) (rows : List TemplateRow)
    → responded (reject_route now i reason tenant rows) ≡ false
unfolding reject_route value_attribute
reject_route-raises now i reason tenant rows = ground arith

-- A request, with the tenant that makes it and the clock.
pub data Request : Type 0 where
  creates : ℕ → CreateTemplateRequest → Request
  gets : ℕ → Request
  updates : ℕ → UpdateTemplateRequest → Request
  submits : ℕ → Request
  approves : ℕ → Text → Text → Request
  rejects : ℕ → Text → Request
  deletes : ℕ → Request

-- The table after a route: what it was, where the route does not respond.
abbrev pub table_after {ℓ} :
    {A : Type ℓ} → List TemplateRow → Outcome (A × List TemplateRow) → List TemplateRow
table_after rows (responds (a, rows')) = rows'
table_after rows (http_error code detail) = rows
table_after rows (raises e) = rows

abbrev pub left_after : List TemplateRow → Outcome (List TemplateRow) → List TemplateRow
left_after rows (responds rows') = rows'
left_after rows (http_error code detail) = rows
left_after rows (raises e) = rows

unfoldable pub serve : ℕ → ℕ → Request → List TemplateRow → List TemplateRow
serve now tenant (creates id request) rows =
    table_after rows (create_template now id request tenant rows)
serve now tenant (gets i) rows = table_after rows (get_template i tenant rows)
serve now tenant (updates i request) rows =
    table_after rows (update_template now i request tenant rows)
serve now tenant (submits i) rows = table_after rows (submit_route now i tenant rows)
serve now tenant (approves i external_template_id rcs_type) rows =
    table_after rows (approve_route now i external_template_id rcs_type tenant rows)
serve now tenant (rejects i reason) rows = table_after rows (reject_route now i reason tenant rows)
serve now tenant (deletes i) rows = left_after rows (delete_template i tenant rows)

unfoldable pub serve_all : List (ℕ × ℕ × Request) → List TemplateRow → List TemplateRow
serve_all [] rows = rows
serve_all ((now, tenant, q) ∷ qs) rows = serve_all qs (serve now tenant q rows)

-- Every row has an identifier and a status that pass a test.
abbrev pub AllPass : (ℕ → Text → Bool) → List TemplateRow → Type 0
AllPass test = All (λ r. test r.id r.status ≡ true)

unanswered-AllPass {ℓ} :
    {A : Type ℓ} (test : ℕ → Text → Bool) (rows : List TemplateRow)
    (o : Outcome (A × List TemplateRow))
    → responded o ≡ false
    → AllPass test rows
    → AllPass test (table_after rows o)
unanswered-AllPass test rows (responds a) h k = ground arith
unanswered-AllPass test rows (http_error code detail) h k = k
unanswered-AllPass test rows (raises e) h k = k

update_where-AllPass :
    (test : ℕ → Text → Bool) (now i : ℕ) (request : UpdateTemplateRequest) (rows : List TemplateRow)
    → AllPass test rows
    → AllPass test (update_where i (updated_row now request) rows)
unfolding updated_row
update_where-AllPass test now i request [] h = tt
update_where-AllPass test now i request (r ∷ rows) h =
    (ground (arith, h.0), update_where-AllPass test now i request rows h.1)

filter-AllPass :
    (test : ℕ → Text → Bool) (i : ℕ) (rows : List TemplateRow)
    → AllPass test rows
    → AllPass test (filter (λ r. not (r.id == i)) rows)
filter-AllPass test i [] h = tt
filter-AllPass test i (r ∷ rows) h = elim (Bool-cases (r.id == i)) [
  | inl e ↦ rw e (filter-AllPass test i rows h.1)
  | inr e ↦ rw e (h.0, filter-AllPass test i rows h.1)
]

update_template-AllPass :
    (test : ℕ → Text → Bool) (now i : ℕ) (request : UpdateTemplateRequest) (tenant : ℕ)
    (rows : List TemplateRow)
    → AllPass test rows
    → AllPass test (table_after rows (update_template now i request tenant rows))
unfolding update_template
update_template-AllPass test now i request tenant rows h =
    ground (arith, h, update_where-AllPass test now i request rows h)

delete_template-AllPass :
    (test : ℕ → Text → Bool) (i tenant : ℕ) (rows : List TemplateRow)
    → AllPass test rows
    → AllPass test (left_after rows (delete_template i tenant rows))
unfolding delete_template
delete_template-AllPass test i tenant rows h = ground (arith, h, filter-AllPass test i rows h)

serve-AllPass :
    (test : ℕ → Text → Bool) (now tenant : ℕ) (q : Request) (rows : List TemplateRow)
    → AllPass test rows
    → AllPass test (serve now tenant q rows)
unfolding serve
serve-AllPass test now tenant (creates id request) rows h =
    unanswered-AllPass test rows _ (create_template-raises now id request tenant rows) h
serve-AllPass test now tenant (gets i) rows h =
    unanswered-AllPass test rows _ (get_template-raises i tenant rows) h
serve-AllPass test now tenant (updates i request) rows h =
    update_template-AllPass test now i request tenant rows h
serve-AllPass test now tenant (submits i) rows h =
    unanswered-AllPass test rows _ (submit_route-raises now i tenant rows) h
serve-AllPass test now tenant (approves i e rcs_type) rows h =
    unanswered-AllPass test rows _ (approve_route-raises now i e rcs_type tenant rows) h
serve-AllPass test now tenant (rejects i reason) rows h =
    unanswered-AllPass test rows _ (reject_route-raises now i reason tenant rows) h
serve-AllPass test now tenant (deletes i) rows h = delete_template-AllPass test i tenant rows h

-- Whatever is asked of the routes, by whatever tenants, they add no template and change no status: what is
-- true of the identifiers and statuses of all rows stays true. The routes that create, submit, approve or
-- reject ask a status for its `value` before they commit, and raise.
pub serve_all-AllPass :
    (test : ℕ → Text → Bool) (qs : List (ℕ × ℕ × Request)) (rows : List TemplateRow)
    → All (λ r. test r.id r.status ≡ true) rows
    → All (λ r. test r.id r.status ≡ true) (serve_all qs rows)
unfolding serve_all
serve_all-AllPass test [] rows h = h
serve_all-AllPass test ((now, tenant, q) ∷ qs) rows h =
    serve_all-AllPass test qs (serve now tenant q rows) (serve-AllPass test now tenant q rows h)
