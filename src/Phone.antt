-- ===== src/Phone.antt =====
-- Phone numbers: `_normalize_phone` of the message and consent aggregates
-- (apps/core/domain/message.py, apps/core/domain/opt_in.py), and the other one of the audience
-- aggregate (apps/core/domain/audience.py).
pub mod Laws
mod Tests
use rcs_bulk_messaging_syste.Prelude.{
  Bool, true, false, ◌++◌, filter, length, ◌==◌, if◌then◌else◌, List, [], ◌∷◌, ℕ, not, ◌||◌,
}
use rcs_bulk_messaging_syste.Prelude.Text.{Text, codes, starts_with, is_digit}

abbrev pub plus : Text
plus = codes "+"

abbrev pub india : Text
india = codes "+91"

-- `''.join(filter(str.isdigit, phone))`
abbrev pub digits : Text → Text
digits = filter is_digit

unfoldable pub normalize_phone : Text → Text
normalize_phone phone =
    if not (starts_with plus phone)
    then (if length (digits phone) == 10 then india ++ digits phone else plus ++ digits phone)
    else phone

-- `phone.replace(' ', '').replace('-', '').replace('(', '').replace(')', '')`
abbrev pub is_separator : ℕ → Bool
is_separator c = c == 32 || c == b'-' || c == 40 || c == 41

abbrev pub without_separators : Text → Text
without_separators = filter (λ c. not (is_separator c))

add_country : Text → Text
add_country phone =
    if not (starts_with plus phone)
    then (if length phone == 10 then india ++ phone else plus ++ phone)
    else phone

-- `Audience._normalize_phone`
unfoldable pub normalize_contact : Text → Text
unfolding add_country
normalize_contact phone = add_country (without_separators phone)
