-- ===== src/Prelude/Dict.antt =====
-- A Python dict with texts for keys, in insertion order.
use rcs_bulk_messaging_syste.Prelude.{
  ◌≡◌, refl, ◌∙◌, Option, none, some, List, [], ◌∷◌, arith, if◌then◌else◌,
}
use rcs_bulk_messaging_syste.Prelude.Text.{Text, text_eq, text_eq_iff, text_eq_refl}

abbrev pub Dict {ℓ} : Type ℓ → Type ℓ
Dict V = List (Text × V)

module _ {ℓ} {V : Type ℓ} where
  -- `d.get(k)`
  unfoldable pub get_item : Text → Dict V → Option V
  get_item k [] = none
  get_item k ((j, v) ∷ d) = if text_eq j k then some v else get_item k d

  -- `d[k] = v`
  unfoldable pub set_item : Text → V → Dict V → Dict V
  set_item k v [] = (k, v) ∷ []
  set_item k v ((j, w) ∷ d) = if text_eq j k then (j, v) ∷ d else (j, w) ∷ set_item k v d

  pub get_item-set_item :
      (k j : Text) (v : V) (d : Dict V)
      → get_item j (set_item k v d) ≡ (if text_eq k j then some v else get_item j d)
  unfolding get_item set_item
  get_item-set_item k j v [] = refl
  get_item-set_item k j v ((i, w) ∷ d) =
      ground (arith, text_eq_iff k j, text_eq_iff i k, text_eq_iff i j, get_item-set_item k j v d)

  pub get_item-set_item_self :
      (k : Text) (v : V) (d : Dict V) → get_item k (set_item k v d) ≡ some v
  get_item-set_item_self k v d = get_item-set_item k k v d ∙ rw (text_eq_refl k)
