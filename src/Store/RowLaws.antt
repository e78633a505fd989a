-- ===== src/Store/RowLaws.antt =====
-- What survives the database: loading what was saved.
use rcs_bulk_messaging_syste.Prelude.{
  ℕ, ◌≡◌, refl, sym, ap, ◌∙◌, subst, inl, inr, Bool, true, false, none, some, List, [], ◌∷◌, arith,
  ◌==◌, if◌then◌else◌, Option-cases,
}
use rcs_bulk_messaging_syste.Prelude.Text.{starts_with}
use rcs_bulk_messaging_syste.Phone.{plus}
use rcs_bulk_messaging_syste.Message.Types.{MessageContent, Message}
use rcs_bulk_messaging_syste.Message.Lifecycle.{
  queue, mark_sent, mark_delivered, mark_read, mark_failed, mark_expired, increment_retry,
}
use rcs_bulk_messaging_syste.Message.Steps.{
  Step, queues, sends, delivers, reads, fails, expires, retries, Reach, here, next,
}
use rcs_bulk_messaging_syste.Store.Rows.{
  map_option, MessageRow, to_content_row, of_content_row, to_model, to_domain, update_row, find_row,
  get_by_id, save,
}
use rcs_bulk_messaging_syste.Phone.Laws.{normalize_phone-fixed}

-- The part of a message that has a column: no error code, no error text, no list of attempts, and a
-- rich card without its suggestions.
abbrev pub stored_content : MessageContent → MessageContent
stored_content c = of_content_row (to_content_row c)

abbrev pub stored : Message → Message
stored m = record m {
  content = stored_content m.content;
  error_code = none;
  error_message = none;
  delivery_attempts = [];
}

-- A message that is inserted is loaded as it was, but for what has no column.
pub to_domain-to_model :
    (m : Message) → starts_with plus m.recipient_phone ≡ true → to_domain (to_model m) ≡ stored m
unfolding to_domain to_model
to_domain-to_model m h = rw (normalize_phone-fixed m.recipient_phone h) refl

-- The fields that an update does not write.
pub record SameBase (m m' : Message) : Type 0 where
  pub id : m'.id ≡ m.id
  pub campaign_id : m'.campaign_id ≡ m.campaign_id
  pub tenant_id : m'.tenant_id ≡ m.tenant_id
  pub recipient_phone : m'.recipient_phone ≡ m.recipient_phone
  pub content : m'.content ≡ m.content
  pub priority : m'.priority ≡ m.priority
  pub created_at : m'.created_at ≡ m.created_at
  pub expires_at : m'.expires_at ≡ m.expires_at
  pub max_retries : m'.max_retries ≡ m.max_retries
  pub fallback_enabled : m'.fallback_enabled ≡ m.fallback_enabled

Step-SameBase : {m m' : Message} → Step m m' → SameBase m m'
unfolding queue mark_sent mark_delivered mark_read mark_failed mark_expired increment_retry
Step-SameBase (queues now h) = ground arith
Step-SameBase (sends now g x h) = ground arith
Step-SameBase (delivers now h) = ground arith
Step-SameBase (reads now h) = ground arith
Step-SameBase (fails now reason code message h) = ground arith
Step-SameBase (expires now h) = ground arith
Step-SameBase (retries now s h) = ground arith

pub Reach-SameBase : {m m' : Message} → Reach m m' → SameBase m m'
Reach-SameBase here = ground arith
Reach-SameBase (next r s) = let a = Reach-SameBase r in let b = Step-SameBase s in ground arith

content-update_row :
    (now : ℕ) (r : MessageRow) (m : Message)
    → m.content ≡ of_content_row r.content
    → of_content_row (update_row now r m).content ≡ stored_content m.content
unfolding update_row of_content_row to_content_row
content-update_row now r m h = ground arith

to_domain-update_row :
    (now : ℕ) (r : MessageRow) (m : Message)
    → SameBase (to_domain r) m
    → to_domain (update_row now r m) ≡ record (stored m) { updated_at = now }
unfolding to_domain update_row
to_domain-update_row now r m b = ground (arith, content-update_row now r m b.content)

find_row-save :
    (now : ℕ) (m : Message) (j : ℕ) (rows : List MessageRow) (r : MessageRow)
    → find_row m.id rows ≡ some r
    → find_row j (save now m rows)
      ≡ (if m.id == j then some (update_row now r m) else find_row j rows)
unfolding find_row save update_row
find_row-save now m j [] r h = cc
find_row-save now m j (s ∷ rows) r h = ground (arith, find_row-save now m j rows r)

pub find_row-id :
    (i : ℕ) (rows : List MessageRow) (r : MessageRow) → find_row i rows ≡ some r → r.id ≡ i
unfolding find_row
find_row-id i [] r h = cc
find_row-id i (s ∷ rows) r h = ground (arith, find_row-id i rows r)

-- `get_by_id` finds a row and reads it.
pub get_by_id-row :
    (i : ℕ) (rows : List MessageRow) {m : Message}
    → get_by_id i rows ≡ some m
    → (r : MessageRow) × (find_row i rows ≡ some r) × (to_domain r ≡ m) × (m.id ≡ i)
unfolding get_by_id
get_by_id-row i rows {m} h = elim (Option-cases (find_row i rows)) [
  | inl e ↦ cc (rw e at h)
  | inr (row, e) ↦
      let same : to_domain row ≡ m = cc (rw e at h) in
      (row, e, same, sym (ap (λ z. z.id) same) ∙ row_id row ∙ find_row-id i rows row e)
]
  where
    row_id : (r : MessageRow) → (to_domain r).id ≡ r.id
    row_id r = unfold to_domain in refl

either :
    (now j : ℕ) (rows : List MessageRow) (r : MessageRow) (m : Message)
    → SameBase (to_domain r) m
    → (b : Bool)
    → map_option to_domain (if b then some (update_row now r m) else find_row j rows)
      ≡ (if b then some (record (stored m) { updated_at = now }) else get_by_id j rows)
unfolding get_by_id
either now j rows r m base true = ap some (to_domain-update_row now r m base)
either now j rows r m base false = refl

save-SameBase :
    (now j : ℕ) (rows : List MessageRow) (r : MessageRow) (m : Message)
    → find_row m.id rows ≡ some r
    → SameBase (to_domain r) m
    → get_by_id j (save now m rows)
      ≡ (if m.id == j then some (record (stored m) { updated_at = now }) else get_by_id j rows)
unfolding get_by_id
save-SameBase now j rows r m e b =
    ap (map_option to_domain) (find_row-save now m j rows r e) ∙ either now j rows r m b (m.id == j)

-- A message that is loaded, taken through any calls and saved is loaded again as those calls left
-- it, but for the time of the update and what has no column; every other message stays as it was.
pub get_by_id-save :
    (now i j : ℕ) (rows : List MessageRow) {m m' : Message}
    → get_by_id i rows ≡ some m
    → Reach m m'
    → get_by_id j (save now m' rows)
      ≡ (if i == j then some (record (stored m') { updated_at = now }) else get_by_id j rows)
get_by_id-save now i j rows {m} {m'} h r =
    let (row, e, same, own) = get_by_id-row i rows h in
    let b = Reach-SameBase r in
    let mine : m'.id ≡ i = b.id ∙ own in
    subst
      (λ k.
        get_by_id j (save now m' rows)
        ≡ (if k == j then some (record (stored m') { updated_at = now }) else get_by_id j rows))
      mine
      (save-SameBase now j rows row m' (subst (λ k. find_row k rows ≡ some row) (sym mine) e)
        (subst (λ z. SameBase z m') (sym same) b))
