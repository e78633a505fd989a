-- ===== src/Template/Replacing.antt =====
-- `str.replace` of a placeholder, on a text that is made of literal pieces and placeholders.
use rcs_bulk_messaging_syste.Prelude.{
  ℕ, suc, ◌-◌, ◌≡◌, refl, sym, ap, ◌∙◌, inl, inr, Bool, true, false, ◌&&◌, not, List, [], ◌∷◌, ◌++◌,
  map, arith, ◌==◌, if◌then◌else◌, Bool-cases, length, All,
}
use rcs_bulk_messaging_syste.Prelude.Text.{Text, text_eq, text_eq_iff, starts_with}
use rcs_bulk_messaging_syste.Template.Placeholders.{closing, placeholder, replace_from, replace}

-- A text without the character `d`.
unfoldable pub avoids : ℕ → Text → Bool
avoids d [] = true
avoids d (c ∷ s) = not (c == d) && avoids d s

-- A text with no brace.
abbrev pub is_plain : Text → Bool
is_plain s = avoids 123 s && avoids 125 s

-- The pieces of a content, each literal text and each name without braces.
pub data Piece : Type 0 where
  literal slot : Text → Piece

abbrev pub print_piece : Piece → Text
print_piece (literal s) = s
print_piece (slot n) = placeholder n

unfoldable pub print : List Piece → Text
print [] = []
print (p ∷ ps) = print_piece p ++ print ps

abbrev pub text_of : Piece → Text
text_of (literal s) = s
text_of (slot n) = n

abbrev pub AllPlain : List Piece → Type 0
AllPlain = All (λ p. is_plain (text_of p) ≡ true)

-- The value in the slots of a name.
unfoldable pub put : Text → Text → Piece → Piece
put n v (literal s) = literal s
put n v (slot m) = if text_eq n m then literal v else slot m

starts_with-append : (s t : Text) → starts_with s (s ++ t) ≡ true
unfolding starts_with
starts_with-append [] t = refl
starts_with-append (c ∷ s) t = ground (arith, starts_with-append s t)

replace_from-skip :
    (old v p s : Text) → replace_from (length p) old v (p ++ s) ≡ replace_from 0 old v s
unfolding replace_from
replace_from-skip old v [] s = refl
replace_from-skip old v (c ∷ p) s = replace_from-skip old v p s

replace-step :
    (o v : Text) (c : ℕ) (s : Text)
    → starts_with (c ∷ o) (c ∷ s) ≡ true
    → replace (c ∷ o) v (c ∷ s) ≡ v ++ replace_from (length o) (c ∷ o) v s
unfolding replace_from
replace-step o v c s h =
    let e : suc (length o) - 1 ≡ length o = omega arith in
    rw (replace_from, h) (ap (λ k. v ++ replace_from k (c ∷ o) v s) e)

replace-pass :
    (old v : Text) (c : ℕ) (s : Text)
    → starts_with old (c ∷ s) ≡ false
    → replace old v (c ∷ s) ≡ c ∷ replace old v s
unfolding replace_from
replace-pass old v c s h = rw (replace_from, h) refl

-- What is replaced begins with an opening brace, so a text without one is passed over.
replace-avoids :
    (o v p s : Text)
    → avoids 123 p ≡ true
    → replace (123 ∷ o) v (p ++ s) ≡ p ++ replace (123 ∷ o) v s
unfolding avoids starts_with
replace-avoids o v [] s h = refl
replace-avoids o v (c ∷ p) s h =
    replace-pass (123 ∷ o) v c (p ++ s) (ground (arith, h))
    ∙ ap (λ r. c ∷ r) (replace-avoids o v p s (ground (arith, h)))

replace-match :
    (n v s : Text)
    → replace (placeholder n) v (placeholder n ++ s) ≡ v ++ replace (placeholder n) v s
replace-match n v s =
    replace-step (123 ∷ (n ++ closing)) v 123 (123 ∷ (n ++ closing ++ s))
      (starts_with-append (placeholder n) s)
    ∙ ap (λ r. v ++ r) (replace_from-skip (placeholder n) v (123 ∷ (n ++ closing)) s)

starts_with-closing :
    (n m s : Text)
    → avoids 125 n ≡ true
    → avoids 125 m ≡ true
    → starts_with (n ++ closing) (m ++ closing ++ s) ≡ text_eq n m
unfolding starts_with avoids text_eq
starts_with-closing [] [] s h k = refl
starts_with-closing [] (y ∷ m) s h k = ground (arith, h, k)
starts_with-closing (x ∷ n) [] s h k = ground (arith, h, k)
starts_with-closing (x ∷ n) (y ∷ m) s h k = ground (arith, h, k, starts_with-closing n m s)

avoids-append : (d : ℕ) (s t : Text) → avoids d (s ++ t) ≡ (avoids d s && avoids d t)
unfolding avoids
avoids-append d [] t = refl
avoids-append d (c ∷ s) t = ground (arith, avoids-append d s t)

-- A text without an opening brace does not begin with a placeholder, with one brace taken away.
starts_with-second :
    (o p s : Text)
    → avoids 123 p ≡ true
    → starts_with (123 ∷ 123 ∷ o) (123 ∷ (p ++ closing ++ s)) ≡ false
unfolding starts_with avoids
starts_with-second o [] s h = refl
starts_with-second o (c ∷ p) s h = ground (arith, h)

replace-other :
    (n m v s : Text)
    → is_plain n ≡ true
    → is_plain m ≡ true
    → text_eq n m ≡ false
    → replace (placeholder n) v (placeholder m ++ s) ≡ placeholder m ++ replace (placeholder n) v s
unfolding starts_with
replace-other n m v s h k e =
    let a = starts_with-closing n m s (ground (arith, h)) (ground (arith, k)) in
    let b = starts_with-second (n ++ closing) m s (ground (arith, k)) in
    let c = avoids-append 123 m closing in
    replace-pass (placeholder n) v 123 (123 ∷ (m ++ closing ++ s)) (a ∙ e)
    ∙ ap (λ r. 123 ∷ r)
        (replace-pass (placeholder n) v 123 (m ++ closing ++ s) b
          ∙ ap (λ r. 123 ∷ r)
              (replace-avoids (123 ∷ (n ++ closing)) v (m ++ closing) s
                (c ∙ unfold avoids in ground (arith, k))))

replace-piece :
    (n v s : Text) (p : Piece)
    → is_plain n ≡ true
    → is_plain (text_of p) ≡ true
    → replace (placeholder n) v (print_piece p ++ s)
      ≡ print_piece (put n v p) ++ replace (placeholder n) v s
unfolding put
replace-piece n v s (literal t) h k =
    replace-avoids (123 ∷ (n ++ closing)) v t s (ground (arith, k))
replace-piece n v s (slot m) h k = elim (Bool-cases (text_eq n m)) [
  | inl e ↦ rw e (
      ap (λ x. replace (placeholder n) v (placeholder x ++ s)) (sym ((text_eq_iff n m).0 e))
      ∙ replace-match n v s)
  | inr e ↦ rw e (replace-other n m v s h k e)
]

-- Replacing a placeholder in a content that is made of pieces puts the value in the slots of the name.
pub replace-print :
    (n v : Text) (ps : List Piece)
    → is_plain n ≡ true
    → AllPlain ps
    → replace (placeholder n) v (print ps) ≡ print (map (put n v) ps)
unfolding print replace_from
replace-print n v [] h k = refl
replace-print n v (p ∷ ps) h k =
    replace-piece n v (print ps) p h k.0
    ∙ ap (λ r. print_piece (put n v p) ++ r) (replace-print n v ps h k.1)

pub AllPlain-put :
    (n v : Text) (ps : List Piece) → is_plain v ≡ true → AllPlain ps → AllPlain (map (put n v) ps)
unfolding put
AllPlain-put n v [] h k = tt
AllPlain-put n v (literal s ∷ ps) h k = (k.0, AllPlain-put n v ps h k.1)
AllPlain-put n v (slot m ∷ ps) h k = (ground (arith, h, k.0), AllPlain-put n v ps h k.1)
