-- ===== src/Orchestrator/Batches.antt =====
-- That the batches do not matter: streaming, creating and queueing in batches is doing it all at once.
use rcs_bulk_messaging_syste.Prelude.{
  ℕ, suc, ◌+◌, ◌≡◌, refl, sym, ap, ◌∙◌, inl, inr, Bool, true, List, [], ◌∷◌, ◌++◌, arith,
  Bool-cases, length, filter,
}
use rcs_bulk_messaging_syste.Prelude.Text.{is_empty}
use rcs_bulk_messaging_syste.Prelude.Results.{ok}
use mathlib.Core.List.{append-nil, append_assoc}
use rcs_bulk_messaging_syste.Campaign.Types.{Campaign}
use rcs_bulk_messaging_syste.Template.Types.{Template}
use rcs_bulk_messaging_syste.Queue.{QueueMessage, Broker, enqueue_batch}
use rcs_bulk_messaging_syste.Contacts.{ContactRow, stream_contacts, concat, of_audience, sort}
use rcs_bulk_messaging_syste.Contacts.Streaming.{HasKey}
use rcs_bulk_messaging_syste.Contacts.Complete.{concat-stream_contacts}
use rcs_bulk_messaging_syste.Orchestrator.Recipients.{
  Recipient, batch_of, add_batch, batches_of, stream_audiences, create_messages,
}

-- The recipients of the audiences, all at once.
unfoldable pub recipients_of : List ℕ → List ContactRow → List Recipient
recipients_of [] contacts = []
recipients_of (a ∷ ids) contacts =
    batch_of (filter (of_audience a) (sort contacts)) ++ recipients_of ids contacts

batch_of-append : (xs ys : List ContactRow) → batch_of (xs ++ ys) ≡ batch_of xs ++ batch_of ys
unfolding batch_of
batch_of-append [] ys = refl
batch_of-append (r ∷ xs) ys = elim (Bool-cases (is_empty r.phone_number)) [
  | inl e ↦ rw e (batch_of-append xs ys)
  | inr e ↦ rw (e, batch_of-append xs ys) refl
]

module _ {ℓ} {A : Type ℓ} where
  concat-append : (xs ys : List (List A)) → concat (xs ++ ys) ≡ concat xs ++ concat ys
  unfolding concat
  concat-append [] ys = refl
  concat-append (x ∷ xs) ys =
      ap (λ z. x ++ z) (concat-append xs ys) ∙ sym (append_assoc x (concat xs) (concat ys))

concat-add_batch :
    (batch : List Recipient) (batches : List (List Recipient))
    → concat (add_batch batch batches) ≡ batch ++ concat batches
unfolding add_batch concat
concat-add_batch [] batches = refl
concat-add_batch (r ∷ batch) batches = refl

concat-batches_of :
    (pages : List (List ContactRow)) → concat (batches_of pages) ≡ batch_of (concat pages)
unfolding concat batches_of
concat-batches_of [] = unfold batch_of in refl
concat-batches_of (page ∷ pages) =
    concat-add_batch (batch_of page) (batches_of pages)
    ∙ ap (λ z. batch_of page ++ z) (concat-batches_of pages)
    ∙ sym (batch_of-append page (concat pages))

-- The batches, put together, are the recipients of the audiences.
pub concat-stream_audiences :
    (ids : List ℕ) (contacts : List ContactRow)
    → HasKey contacts
    → concat (stream_audiences ids contacts) ≡ recipients_of ids contacts
unfolding stream_audiences recipients_of
concat-stream_audiences [] contacts h = unfold concat in refl
concat-stream_audiences (a ∷ ids) contacts h =
    concat-append (batches_of (stream_contacts 1000 a contacts)) (stream_audiences ids contacts)
    ∙ rw
        (
          concat-batches_of (stream_contacts 1000 a contacts),
          concat-stream_contacts 999 a contacts h,
          concat-stream_audiences ids contacts h,
        )
        refl

pub create_messages-append :
    (now : ℕ) (draw : ℕ → ℕ) (c : Campaign) (t : Template) (k : ℕ) (xs ys : List Recipient)
    → create_messages now draw c t k (xs ++ ys)
      ≡ create_messages now draw c t k xs ++ create_messages now draw c t (k + length xs) ys
unfolding create_messages
create_messages-append now draw c t k [] ys =
    let e : k ≡ k + 0 = omega arith in ap (λ j. create_messages now draw c t j ys) e
create_messages-append now draw c t k (x ∷ xs) ys =
    let e : suc k + length xs ≡ k + suc (length xs) = omega arith in
    rw (create_messages-append now draw c t (suc k) xs ys)
      (ap (λ j. create_messages now draw c t k (x ∷ xs) ++ create_messages now draw c t j ys) e)

pub length-create_messages :
    (now : ℕ) (draw : ℕ → ℕ) (c : Campaign) (t : Template) (k : ℕ) (rs : List Recipient)
    → length (create_messages now draw c t k rs) ≡ length rs
unfolding create_messages
length-create_messages now draw c t k [] = refl
length-create_messages now draw c t k (r ∷ rs) =
    ap suc (length-create_messages now draw c t (suc k) rs)

pub enqueue_batch-all :
    (accepts : QueueMessage → Bool) (qs b : Broker)
    → ((q : QueueMessage) → accepts q ≡ true)
    → enqueue_batch accepts qs b ≡ (ok tt, b ++ qs)
unfolding enqueue_batch
enqueue_batch-all accepts [] b h = rw (append-nil b) refl
enqueue_batch-all accepts (q ∷ qs) b h =
    rw (h q) (enqueue_batch-all accepts qs (b ++ (q ∷ [])) h ∙ rw (append_assoc b (q ∷ []) qs) refl)
