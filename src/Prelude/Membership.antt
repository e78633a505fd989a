-- ===== src/Prelude/Membership.antt =====
-- Membership in a list, and what it says of `any`, `filter` and `count`.
use rcs_bulk_messaging_syste.Prelude.{
  ◌≤◌, ◌≡◌, refl, sym, ap, subst, inl, inr, Bool, true, false, ◌&&◌, List, [], ◌∷◌, map, arith,
  Bool-cases, filter, any, count,
}

pub data In {ℓ} {A : Type ℓ} (x : A) : List A → Type ℓ where
  first : {y : A} {ys : List A} → x ≡ y → In x (y ∷ ys)
  later : {y : A} {ys : List A} → In x ys → In x (y ∷ ys)

module _ {ℓ} {A : Type ℓ} where
  pub any-intro : (p : A → Bool) (x : A) {xs : List A} → In x xs → p x ≡ true → any p xs ≡ true
  any-intro p x (first {y = y} e) h = rw (subst (λ z. p z ≡ true) e h)
  any-intro p x (later {y = y} i) h = elim (Bool-cases (p y)) [
    | inl t ↦ rw t
    | inr t ↦ rw t (any-intro p x i h)
  ]

  pub any-elim : (p : A → Bool) (xs : List A) → any p xs ≡ true → (x : A) × In x xs × (p x ≡ true)
  any-elim p [] h = cc
  any-elim p (y ∷ ys) h = elim (Bool-cases (p y)) [
    | inl t ↦ (y, first refl, t)
    | inr t ↦ let (x, i, e) = any-elim p ys (rw t at h) in (x, later i, e)
  ]

  pub In-filter : (p : A → Bool) (x : A) {xs : List A} → In x xs → p x ≡ true → In x (filter p xs)
  In-filter p x (first {y = y} e) h = rw (subst (λ z. p z ≡ true) e h) (first e)
  In-filter p x (later {y = y} i) h = elim (Bool-cases (p y)) [
    | inl t ↦ rw t (later (In-filter p x i h))
    | inr t ↦ rw t (In-filter p x i h)
  ]

  pub filter-In : (p : A → Bool) (x : A) (xs : List A) → In x (filter p xs) → In x xs × (p x ≡ true)
  filter-In p x [] i = elim i [ ]
  filter-In p x (y ∷ ys) i = elim (Bool-cases (p y)) [
    | inl t ↦ kept t (filter-In p x ys) (rw t at i)
    | inr t ↦ let r = filter-In p x ys (rw t at i) in (later r.0, r.1)
  ]
    where
      kept :
          p y ≡ true
          → (In x (filter p ys) → In x ys × (p x ≡ true))
          → In x (y ∷ filter p ys)
          → In x (y ∷ ys) × (p x ≡ true)
      kept t ih (first e) = (first e, subst (λ z. p z ≡ true) (sym e) t)
      kept t ih (later j) = let r = ih j in (later r.0, r.1)

  -- An implication between tests carries over to `any` and to `count`.
  pub any_mono :
      (p q : A → Bool) (xs : List A)
      → ((x : A) → p x ≡ true → q x ≡ true)
      → any p xs ≡ true
      → any q xs ≡ true
  any_mono p q [] f h = h
  any_mono p q (x ∷ xs) f h = ground (arith, f x, any_mono p q xs f)

  pub count_mono :
      (p q : A → Bool) (xs : List A) → ((x : A) → p x ≡ true → q x ≡ true) → count p xs ≤ count q xs
  count_mono p q [] f = omega arith
  count_mono p q (x ∷ xs) f = ground (arith, f x, count_mono p q xs f)

  pub any-filter : (p q : A → Bool) (xs : List A) → any q (filter p xs) ≡ any (λ x. p x && q x) xs
  any-filter p q [] = refl
  any-filter p q (x ∷ xs) = ground (arith, any-filter p q xs)

pub In-map {ℓ κ} :
    {A : Type ℓ} {B : Type κ} (f : A → B) (x : A) {xs : List A} → In x xs → In (f x) (map f xs)
In-map f x (first e) = first (ap f e)
In-map f x (later i) = later (In-map f x i)

-- Two truth values that imply one another.
pub Bool-eq : (a b : Bool) → (a ≡ true → b ≡ true) → (b ≡ true → a ≡ true) → a ≡ b
Bool-eq true b f g = sym (f refl)
Bool-eq false true f g = g refl
Bool-eq false false f g = refl
