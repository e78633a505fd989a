-- ===== src/Template/Placeholders.antt =====
-- `str.replace`, and `re.findall` with the pattern of `extract_variables`. The class `\w` is that of ASCII text.
use rcs_bulk_messaging_syste.Prelude.{
  ℕ, zero, suc, ◌+◌, ◌-◌, Bool, true, false, ◌&&◌, ◌||◌, not, Option, none, some, List, [], ◌∷◌,
  ◌++◌, leb, ◌==◌, if◌then◌else◌, length, drop, any,
}
use rcs_bulk_messaging_syste.Prelude.Text.{Text, is_empty, text_eq, starts_with}

-- `\w`
abbrev pub is_word : ℕ → Bool
is_word c =
    (leb b'a' c && leb c b'z')
    || (leb b'A' c && leb c b'Z')
    || (leb b'0' c && leb c b'9')
    || c == 95

abbrev pub opening : Text
opening = 123 ∷ 123 ∷ []

abbrev pub closing : Text
closing = 125 ∷ 125 ∷ []

-- `f"{{{{{name}}}}}"`, the name in two pairs of braces.
abbrev pub placeholder : Text → Text
placeholder name = opening ++ name ++ closing

-- The longest prefix of word characters, and the rest.
unfoldable pub word_of : Text → Text
word_of [] = []
word_of (c ∷ s) = if is_word c then c ∷ word_of s else []

unfoldable pub after_word : Text → Text
after_word [] = []
after_word (c ∷ s) = if is_word c then after_word s else c ∷ s

-- The name of a placeholder that stands at the beginning.
unfoldable pub placeholder_at : Text → Option Text
unfolding word_of after_word
placeholder_at s =
    if starts_with opening s
      && not (is_empty (word_of (drop 2 s)))
      && starts_with closing (after_word (drop 2 s))
    then some (word_of (drop 2 s))
    else none

-- `re.findall(r'\{\{(\w+)\}\}', s)`, with the number of characters that the last match still covers.
unfoldable pub find_from : ℕ → Text → List Text
unfolding placeholder_at
find_from skip [] = []
find_from (suc skip) (c ∷ s) = find_from skip s
find_from zero (c ∷ s) = elim (placeholder_at (c ∷ s)) [
  | none ↦ find_from 0 s
  | some name ↦ name ∷ find_from (length name + 3) s
]

abbrev pub find_all : Text → List Text
find_all s = find_from 0 s

-- `s.replace(old, new)` for an `old` that is not empty, with the number of characters that the last match
-- still covers.
unfoldable pub replace_from : ℕ → Text → Text → Text → Text
replace_from skip old new [] = []
replace_from (suc skip) old new (c ∷ s) = replace_from skip old new s
replace_from zero old new (c ∷ s) = elim (starts_with old (c ∷ s)) [
  | true ↦ new ++ replace_from (length old - 1) old new s
  | false ↦ c ∷ replace_from 0 old new s
]

abbrev pub replace : Text → Text → Text → Text
replace old new s = replace_from 0 old new s

abbrev pub is_member : Text → List Text → Bool
is_member x ys = any (text_eq x) ys

-- `set(xs)`, each element once, in the order of the last occurrences.
unfoldable pub as_set : List Text → List Text
as_set [] = []
as_set (x ∷ xs) = let rest = as_set xs in if is_member x rest then rest else x ∷ rest
