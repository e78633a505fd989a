-- ===== src/Prelude/Json.antt =====
-- What `json.loads` gives; the only numbers are natural ones. `get` and truth are those of Python.
use rcs_bulk_messaging_syste.Prelude.Tests.{◌==◌, if◌then◌else◌}
use Prim.Native.Nat.{ℕ}
use mathlib.Core.Bool.{Bool, true, false, not}
use mathlib.Core.List.{[], ◌∷◌}
use rcs_bulk_messaging_syste.Prelude.Text.{Text, codes, text_eq}
use rcs_bulk_messaging_syste.Prelude.Results.{
  attribute_error, key_error, type_error, Exn, Result, ok, err,
}

mutual
  pub data Json : Type 0 where
    null : Json
    boolean : Bool → Json
    number : ℕ → Json
    string : Text → Json
    array : Items → Json
    object : Fields → Json

  pub data Items : Type 0 where
    no_items : Items
    item : Json → Items → Items

  pub data Fields : Type 0 where
    no_fields : Fields
    field : Text → Json → Fields → Fields

-- `bool(j)`
unfoldable pub is_true : Json → Bool
is_true null = false
is_true (boolean b) = b
is_true (number n) = not (n == 0)
is_true (string []) = false
is_true (string (c ∷ s)) = true
is_true (array no_items) = false
is_true (array (item j js)) = true
is_true (object no_fields) = false
is_true (object (field k j fs)) = true

unfoldable pub lookup : Text → Json → Fields → Json
lookup k d no_fields = d
lookup k d (field i j fs) = if text_eq i k then j else lookup k d fs

abbrev pub no_get : Exn
no_get = attribute_error (codes "object has no attribute 'get'")

-- `j.get(k, d)`
unfoldable pub get_or : Text → Json → Json → Result Json
get_or k d (object fs) = ok (lookup k d fs)
get_or k d _ = err no_get

-- `j[0]`; the keys of an object are texts. An `IndexError` is put with the `KeyError`s.
unfoldable pub first_item : Json → Result Json
first_item (array (item j js)) = ok j
first_item (array no_items) = err (key_error (codes "list index out of range"))
first_item (string (c ∷ s)) = ok (string (c ∷ []))
first_item (string []) = err (key_error (codes "string index out of range"))
first_item (object fs) = err (key_error (codes "0"))
first_item _ = err (type_error (codes "object is not subscriptable"))

-- `str(j)`, with what it prints of anything but a text.
unfoldable pub str_of : (Json → Text) → Json → Text
str_of show (string t) = t
str_of show j = show j
