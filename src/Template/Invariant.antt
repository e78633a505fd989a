-- ===== src/Template/Invariant.antt =====
-- What the constructor of a template checks, and that every call keeps it.
use rcs_bulk_messaging_syste.Prelude.{
  ℕ, ◌≤◌, ◌≡◌, refl, sym, ◌∙◌, subst, ◌↔◌, inl, inr, Bool, true, not, Option, none, some, List, [],
  ◌∷◌, ◌++◌, arith, length, filter,
}
use rcs_bulk_messaging_syste.Prelude.Text.{Text, text_eq_iff, text_eq_refl}
use rcs_bulk_messaging_syste.Prelude.Results.{Result, ok, err, is_ok, Result-cases}
use rcs_bulk_messaging_syste.Prelude.Dict.{Dict}
use rcs_bulk_messaging_syste.Template.Types.{
  TemplateVariable, CardTemplate, SuggestionTemplate, Template,
}
use rcs_bulk_messaging_syste.Template.Placeholders.{find_all, as_set, is_member}
use rcs_bulk_messaging_syste.Template.Lifecycle.{
  names, extract_variables, undeclared, is_nil, validate_template, new, add_variable, set_rich_card,
  add_suggestion, submit_for_approval, approve, approve_template, reject, archive,
}

-- The content is short enough, and each of its placeholders has a variable of its name.
unfoldable pub IsValid : Text → List TemplateVariable → Type 0
IsValid content variables =
    (length content ≤ 1024)
    × ((n : Text) → is_member n (find_all content) ≡ true → is_member n (names variables) ≡ true)

is_member-as_set : (n : Text) (xs : List Text) → is_member n (as_set xs) ≡ is_member n xs
unfolding as_set
is_member-as_set n [] = refl
is_member-as_set n (x ∷ xs) =
    ground (arith, is_member-as_set n xs, is_member-as_set x xs, text_eq_iff n x)

is_nil-filter :
    (p : Text → Bool) (n : Text) (ys : List Text)
    → is_nil (filter (λ y. not (p y)) ys) ≡ true
    → is_member n ys ≡ true
    → p n ≡ true
is_nil-filter p n [] h k = ground arith
is_nil-filter p n (y ∷ ys) h k = ground (arith, is_nil-filter p n ys, text_eq_iff n y)

filter-is_nil :
    (p : Text → Bool) (ys : List Text)
    → ((n : Text) → is_member n ys ≡ true → p n ≡ true)
    → is_nil (filter (λ y. not (p y)) ys) ≡ true
filter-is_nil p [] h = refl
filter-is_nil p (y ∷ ys) h =
    ground (arith, h y, text_eq_refl y, filter-is_nil p ys (λ n k. h n (ground (arith, k))))

is_nil-nil : (xs : List Text) → is_nil xs ≡ true → xs ≡ []
is_nil-nil [] h = refl
is_nil-nil (x ∷ xs) h = ground arith

-- The validation passes exactly on the valid.
pub validate_template_iff :
    (content : Text) (variables : List TemplateVariable)
    → (is_ok (validate_template content variables) ≡ true) ↔ IsValid content variables
unfolding validate_template undeclared extract_variables IsValid
validate_template_iff c vs = (
  λ h. (
    ground (arith, h),
    λ n k.
        is_nil-filter (λ m. is_member m (names vs)) n (as_set (find_all c)) (ground (arith, h))
          (is_member-as_set n (find_all c) ∙ k),
  ),
  λ h. ground (
    arith,
    h.0,
    filter-is_nil (λ m. is_member m (names vs)) (as_set (find_all c))
        (λ n k. h.1 n (sym (is_member-as_set n (find_all c)) ∙ k)),
  ),
)

-- The calls that change a template.
pub data Call : Type 0 where
  adds : Text → Text → Bool → Option Text → Call
  sets : Option Text → Option Text → Option Text → Option Text → Call
  suggests : Text → Text → Dict (Option Text) → Call
  submits : Call
  approves : Call
  approves_directly : Text → Text → Call
  rejects : Text → Call
  archives : Call

unfoldable pub apply : ℕ → Call → Template → Result Template
apply now (adds name description required default_value) t =
    add_variable now name description required default_value t
apply now (sets title description media_url media_type) t =
    set_rich_card now title description media_url media_type t
apply now (suggests suggestion_type text kwargs) t =
    add_suggestion now suggestion_type text kwargs t
apply now submits t = submit_for_approval now t
apply now approves t = approve now t
apply now (approves_directly external_template_id rcs_type) t =
    ok (approve_template now external_template_id rcs_type t)
apply now (rejects reason) t = reject now reason t
apply now archives t = ok (archive now t)

-- A call that raises leaves the template as it was: every check stands before the first assignment.
abbrev pub kept : Template → Result Template → Template
kept t (ok t') = t'
kept t (err e) = t

unfoldable pub run : List (ℕ × Call) → Template → Template
run [] t = t
run ((now, c) ∷ cs) t = run cs (kept t (apply now c t))

is_member-append :
    (n : Text) (vs ws : List TemplateVariable)
    → is_member n (names vs) ≡ true
    → is_member n (names (vs ++ ws)) ≡ true
is_member-append n [] ws h = ground (arith, h)
is_member-append n (v ∷ vs) ws h = ground (arith, h, is_member-append n vs ws)

apply-content :
    (now : ℕ) (c : Call) (t : Template)
    → ((kept t (apply now c t)).content ≡ t.content)
      × ((n : Text)
          → is_member n (names t.variables) ≡ true
          → is_member n (names (kept t (apply now c t)).variables) ≡ true)
unfolding apply add_variable set_rich_card add_suggestion submit_for_approval approve
    approve_template reject archive
apply-content now (adds name description required default_value) t = (
  ground arith,
  λ n k. ground (
    arith,
    k,
    is_member-append n t.variables
        (record {
          name = name;
          description = some description;
          required = required;
          default_value = default_value;
          validation_regex = none;
        }
          ∷ [])
        k,
  ),
)
apply-content now c t = (ground arith, λ n k. ground (arith, k))

run-content :
    (cs : List (ℕ × Call)) (t : Template)
    → ((run cs t).content ≡ t.content)
      × ((n : Text)
          → is_member n (names t.variables) ≡ true
          → is_member n (names (run cs t).variables) ≡ true)
unfolding run
run-content [] t = (refl, λ n k. k)
run-content ((now, c) ∷ cs) t =
    let t' = kept t (apply now c t) in
    let h = apply-content now c t in
    let k = run-content cs t' in (k.0 ∙ h.0, λ n m. k.1 n (h.1 n m))

IsValid-more :
    (content : Text) (vs ws : List TemplateVariable)
    → ((n : Text) → is_member n (names vs) ≡ true → is_member n (names ws) ≡ true)
    → IsValid content vs
    → IsValid content ws
unfolding IsValid
IsValid-more content vs ws h v = (v.0, λ n k. h n (v.1 n k))

new-checked :
    (id tenant : ℕ) (name content status : Text) (variables : List TemplateVariable)
    (card : Option CardTemplate) (suggestions : List SuggestionTemplate) (created_at updated_at : ℕ)
    (t : Template)
    → new id tenant name content status variables card suggestions created_at updated_at ≡ ok t
    → (is_ok (validate_template content variables) ≡ true)
      × (t.content ≡ content)
      × (t.variables ≡ variables)
unfolding new
new-checked id tenant name content status variables card suggestions created_at updated_at t h =
    elim (Result-cases (validate_template content variables)) [
      | inl (u, e) ↦ ground (arith, h, e)
      | inr (x, e) ↦ ground (arith, h, e)
    ]

-- A template that the constructor returns has the content that it was given, of at most 1024 characters, and
-- keeps it over any calls; and each placeholder in it has a variable of its name all the while.
pub new-run-IsValid :
    (id tenant : ℕ) (name content status : Text) (variables : List TemplateVariable)
    (card : Option CardTemplate) (suggestions : List SuggestionTemplate) (created_at updated_at : ℕ)
    (t : Template) (cs : List (ℕ × Call))
    → new id tenant name content status variables card suggestions created_at updated_at ≡ ok t
    → ((run cs t).content ≡ content) × IsValid (run cs t).content (run cs t).variables
new-run-IsValid id tenant name content status variables card suggestions created_at updated_at t cs
      h =
    let k =
      new-checked id tenant name content status variables card suggestions created_at updated_at t
        h in
    let r = run-content cs t in
    let v = (validate_template_iff content variables).0 k.0 in
    let w = subst (λ x. IsValid x variables) (sym k.1) v in
    let z = subst (λ x. IsValid t.content x) (sym k.2) w in
    let m = IsValid-more t.content t.variables (run cs t).variables r.1 z in
    (r.0 ∙ k.1, subst (λ x. IsValid x (run cs t).variables) (sym r.0) m)
