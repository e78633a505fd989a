-- ===== src/Template/Rendering.antt =====
-- Rendering against its specification: the content, with each placeholder replaced by its value.
use rcs_bulk_messaging_syste.Prelude.{
  ℕ, ◌+◌, ◌≡◌, refl, ap, ◌∙◌, inl, inr, Bool, true, false, Option, none, some, List, [], ◌∷◌, ◌++◌,
  map, if◌then◌else◌, Bool-cases, All,
}
use rcs_bulk_messaging_syste.Prelude.Text.{Text, codes, text_eq}
use rcs_bulk_messaging_syste.Prelude.Results.{Result, ok}
use rcs_bulk_messaging_syste.Prelude.Dict.{Dict}
use rcs_bulk_messaging_syste.Message.Types.{SuggestedAction, RichCard}
use rcs_bulk_messaging_syste.Template.Types.{TemplateVariable, Template}
use rcs_bulk_messaging_syste.Template.Placeholders.{placeholder}
use rcs_bulk_messaging_syste.Template.Render.{
  is_missing, validate_variables, value_of, render_card, render_suggestions, validate,
  substitute_variables, render,
}
use rcs_bulk_messaging_syste.Template.Replacing.{
  is_plain, Piece, literal, slot, print_piece, print, AllPlain, put, replace-print, AllPlain-put,
}

module _ (values : Dict Text) where
  unfoldable pub find_variable : Text → List TemplateVariable → Option TemplateVariable
  find_variable n [] = none
  find_variable n (v ∷ vs) = if text_eq v.name n then some v else find_variable n vs

  abbrev pub value_or_placeholder : Text → Option TemplateVariable → Text
  value_or_placeholder n none = placeholder n
  value_or_placeholder n (some v) = value_of values v

  -- A placeholder becomes the value of the first variable of its name.
  abbrev pub fill : List TemplateVariable → Piece → Text
  fill vs (literal s) = s
  fill vs (slot n) = value_or_placeholder n (find_variable n vs)

  -- The content as it should be rendered, all at once.
  unfoldable pub fill_all : List TemplateVariable → List Piece → Text
  fill_all vs [] = []
  fill_all vs (p ∷ ps) = fill vs p ++ fill_all vs ps

  -- The loop over the variables, on one piece.
  puts : List TemplateVariable → Piece → Piece
  puts [] p = p
  puts (v ∷ vs) p = puts vs (put v.name (value_of values v) p)

  puts-literal : (vs : List TemplateVariable) (s : Text) → puts vs (literal s) ≡ literal s
  unfolding puts put
  puts-literal [] s = refl
  puts-literal (v ∷ vs) s = puts-literal vs s

  puts-fill : (vs : List TemplateVariable) (p : Piece) → print_piece (puts vs p) ≡ fill vs p
  unfolding puts put find_variable
  puts-fill vs (literal s) = ap print_piece (puts-literal vs s)
  puts-fill [] (slot n) = refl
  puts-fill (v ∷ vs) (slot n) = elim (Bool-cases (text_eq v.name n)) [
    | inl e ↦ rw e (ap print_piece (puts-literal vs (value_of values v)))
    | inr e ↦ rw e (puts-fill vs (slot n))
  ]

  print-fill_all :
      (vs : List TemplateVariable) (ps : List Piece) → print (map (puts vs) ps) ≡ fill_all vs ps
  unfolding print fill_all
  print-fill_all vs [] = refl
  print-fill_all vs (p ∷ ps) = rw (puts-fill vs p, print-fill_all vs ps) refl

  map-puts_nil : (ps : List Piece) → ps ≡ map (puts []) ps
  unfolding puts
  map-puts_nil [] = refl
  map-puts_nil (p ∷ ps) = ap (λ r. p ∷ r) (map-puts_nil ps)

  map-puts :
      (v : TemplateVariable) (vs : List TemplateVariable) (ps : List Piece)
      → map (puts vs) (map (put v.name (value_of values v)) ps) ≡ map (puts (v ∷ vs)) ps
  unfolding puts
  map-puts v vs [] = refl
  map-puts v vs (p ∷ ps) =
      ap (λ r. puts vs (put v.name (value_of values v) p) ∷ r) (map-puts v vs ps)

  module _ (re_match : Text → Text → Result Bool) where
    -- A variable whose value is given, or defaulted, passes its check, and has no braces.
    abbrev pub IsGiven : TemplateVariable → Type 0
    IsGiven v =
        (is_plain v.name ≡ true)
        × (is_plain (value_of values v) ≡ true)
        × (is_missing values v ≡ false)
        × (validate re_match v.validation_regex (value_of values v) ≡ ok true)

    substitute_variables-puts :
        (vs : List TemplateVariable) (ps : List Piece)
        → All IsGiven vs
        → AllPlain ps
        → substitute_variables re_match values vs (print ps) ≡ ok (print (map (puts vs) ps))
    unfolding substitute_variables
    substitute_variables-puts [] ps g h = ap (λ r. ok (print r)) (map-puts_nil ps)
    substitute_variables-puts (v ∷ vs) ps g h =
        let k = replace-print v.name (value_of values v) ps g.0.0 h in
        rw (g.0.3, k)
          (substitute_variables-puts vs (map (put v.name (value_of values v)) ps) g.1
              (AllPlain-put v.name (value_of values v) ps g.0.1 h)
            ∙ ap (λ r. ok (print r)) (map-puts v vs ps))

    validate_variables-given :
        (vs : List TemplateVariable) → All IsGiven vs → validate_variables values vs ≡ ok tt
    unfolding validate_variables
    validate_variables-given [] g = refl
    validate_variables-given (v ∷ vs) g = rw (g.0.2) (validate_variables-given vs g.1)

    -- A content of literal pieces and placeholders, without further braces, is rendered by putting each value
    -- in its place, all at once, though the code replaces one variable after the other: the values have no
    -- braces and pass their checks, none that is required is missing, and the card and the suggestions are
    -- rendered. The usage is counted, and nothing else of the template is changed.
    pub render-fill_all :
        (now : ℕ) (t : Template) (ps : List Piece) (card : Option RichCard)
        (suggestions : List SuggestedAction)
        → t.content ≡ print ps
        → AllPlain ps
        → All IsGiven t.variables
        → render_card values t.rich_card_template ≡ ok card
        → render_suggestions values t.suggestions_template ≡ ok suggestions
        → render re_match now values t
          ≡ ok (
            record {
              text = fill_all t.variables ps;
              rich_card = card;
              suggestions = suggestions;
              template_id = none;
              variables = [];
              rcs_type = codes "BASIC";
            },
            record t { usage_count = t.usage_count + 1; last_used_at = some now },
          )
    unfolding render
    render-fill_all now t ps card suggestions e h g c s =
        let v = validate_variables-given t.variables g in
        let k = substitute_variables-puts t.variables ps g h in
        let x = print-fill_all t.variables ps in rw (v, e, k, x, c, s) refl
