-- ===== src/OptOut/Laws.antt =====
-- That an opt-out and an opt-in are seen at once, and by nobody else.
use rcs_bulk_messaging_syste.Prelude.{
  ℕ, ◌≡◌, refl, sym, ap, ◌∙◌, subst, inl, inr, Bool, true, false, ◌&&◌, Option, none, some, List,
  [], ◌∷◌, arith, ◌==◌, if◌then◌else◌, Bool-cases,
}
use rcs_bulk_messaging_syste.Prelude.Text.{Text, text_eq, text_eq_iff}
use rcs_bulk_messaging_syste.OptOut.{
  opted_in, opted_out, OptInRow, is_for, find_opt_in, says_opted_out, is_opted_out_status,
  is_opted_out, opt_out, opt_in,
}

-- One tenant and one number.
abbrev pub same_key : ℕ → Text → ℕ → Text → Bool
same_key t p t' p' = (t == t') && text_eq p p'

is_for-same :
    (t : ℕ) (p : Text) (t' : ℕ) (p' : Text) (r : OptInRow)
    → is_for t p r ≡ true
    → is_for t' p' r ≡ same_key t p t' p'
unfolding is_for
is_for-same t p t' p' r h =
    let e : r.tenant_id ≡ t = ground arith in
    let q : r.phone_number ≡ p = (text_eq_iff r.phone_number p).0 (ground arith) in
    subst (λ z. same_key r.tenant_id r.phone_number t' p' ≡ same_key z r.phone_number t' p') e refl
    ∙ ap (λ z. same_key t z t' p') q

-- What a row written for a number answers for another.
written :
    (t : ℕ) (p : Text) (t' : ℕ) (p' : Text) (o : Option OptInRow) (r : OptInRow) (b : Bool)
    → is_for t' p' r ≡ same_key t p t' p'
    → is_opted_out_status r.promotional_status ≡ b
    → says_opted_out (if is_for t' p' r then some r else o)
      ≡ (if same_key t p t' p' then b else says_opted_out o)
written t p t' p' o r b h k = elim (Bool-cases (same_key t p t' p')) [
  | inl e ↦ rw (h, e) k
  | inr e ↦ rw (h, e) refl
]

same_key-is_for :
    (t : ℕ) (p : Text) (t' : ℕ) (p' : Text) (r : OptInRow)
    → same_key t p t' p' ≡ true
    → is_for t' p' r ≡ is_for t p r
same_key-is_for t p t' p' r h =
    let e : t ≡ t' = ground arith in
    let q : p ≡ p' = (text_eq_iff p p').0 (ground arith) in
    ap (λ z. is_for z p' r) (sym e) ∙ ap (λ z. is_for t z r) (sym q)

abbrev answer_for : ℕ → Text → ℕ → Text → Bool → Option OptInRow → Bool
answer_for t p t' p' b o = if same_key t p t' p' then b else says_opted_out o

-- A row of another key stands before the one that is written, or a row of the key is covered by it.
passed :
    (t : ℕ) (p : Text) (t' : ℕ) (p' : Text) (r : OptInRow) (o o' : Option OptInRow) (b : Bool)
    → says_opted_out o' ≡ answer_for t p t' p' b o
    → is_for t p r ≡ false
    → says_opted_out (if is_for t' p' r then some r else o')
      ≡ answer_for t p t' p' b (if is_for t' p' r then some r else o)
passed t p t' p' r o o' b h e = elim (Bool-cases (same_key t p t' p')) [
  | inl k ↦ rw (k, same_key-is_for t p t' p' r k, e) (h ∙ rw k refl)
  | inr k ↦
      rw k (elim (Bool-cases (is_for t' p' r)) [ inl f ↦ rw f refl | inr f ↦ rw f (h ∙ rw k refl) ])
]

covered :
    (t : ℕ) (p : Text) (t' : ℕ) (p' : Text) (r : OptInRow) (o : Option OptInRow) (b : Bool)
    → is_for t p r ≡ true
    → answer_for t p t' p' b o ≡ answer_for t p t' p' b (if is_for t' p' r then some r else o)
covered t p t' p' r o b e = ground (arith, is_for-same t p t' p' r e)

-- An opt-out is seen at once for its tenant and number, and changes what no other tenant or number sees.
pub is_opted_out-opt_out :
    (now id tenant : ℕ) (phone : Text) (tenant' : ℕ) (phone' : Text) (rows : List OptInRow)
    → is_opted_out tenant' phone' (opt_out now id tenant phone rows)
      ≡ (if same_key tenant phone tenant' phone' then true else is_opted_out tenant' phone' rows)
unfolding is_opted_out find_opt_in opt_out
is_opted_out-opt_out now id t p t' p' [] =
    written t p t' p' none _ true (unfold is_for in refl) refl
is_opted_out-opt_out now id t p t' p' (r ∷ rows) = elim (Bool-cases (is_for t p r)) [
  | inr e ↦ rw e (passed t p t' p' r _ _ true (is_opted_out-opt_out now id t p t' p' rows) e)
  | inl e ↦ rw e (
      written t p t' p' (find_opt_in t' p' rows)
        (record r { promotional_status = opted_out; opted_out_at = some now; updated_at = now })
        true (unfold is_for in is_for-same t p t' p' r e) refl
      ∙ covered t p t' p' r _ true e)
]

-- An opt-in is seen at once for its tenant and number, and changes what no other tenant or number sees.
pub is_opted_out-opt_in :
    (now id tenant : ℕ) (phone : Text) (tenant' : ℕ) (phone' : Text) (rows : List OptInRow)
    → is_opted_out tenant' phone' (opt_in now id tenant phone rows)
      ≡ (if same_key tenant phone tenant' phone' then false else is_opted_out tenant' phone' rows)
unfolding is_opted_out find_opt_in opt_in
is_opted_out-opt_in now id t p t' p' [] =
    written t p t' p' none _ false (unfold is_for in refl) refl
is_opted_out-opt_in now id t p t' p' (r ∷ rows) = elim (Bool-cases (is_for t p r)) [
  | inr e ↦ rw e (passed t p t' p' r _ _ false (is_opted_out-opt_in now id t p t' p' rows) e)
  | inl e ↦ rw e (
      written t p t' p' (find_opt_in t' p' rows)
        (record r { promotional_status = opted_in; opted_in_at = some now; updated_at = now }) false
        (unfold is_for in is_for-same t p t' p' r e) refl
      ∙ covered t p t' p' r _ false e)
]
