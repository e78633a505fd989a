-- ===== src/Store/Completion.antt =====
-- When the recalculation of the statistics completes a campaign.
use rcs_bulk_messaging_syste.Prelude.{
  ℕ, ◌<◌, ◌≡◌, refl, sym, ◌∙◌, subst, ◌↔◌, ◌⊎◌, inl, inr, Bool, true, false, ◌&&◌, Option, some,
  List, [], ◌∷◌, arith, Bool-cases, filter, any,
}
use rcs_bulk_messaging_syste.Prelude.Text.{Text, text_eq, text_eq_iff, text_eq_refl}
use rcs_bulk_messaging_syste.Prelude.Membership.{
  In, first, later, any-intro, any-elim, In-filter, filter-In, any-filter, In-map, Bool-eq,
}
use rcs_bulk_messaging_syste.Message.Types.{MessageStatus}
use rcs_bulk_messaging_syste.Campaign.Types.{active, completed}
use rcs_bulk_messaging_syste.Campaign.Lifecycle.{update_stats_from_db}
use rcs_bulk_messaging_syste.Store.Rows.{MessageRow}
use rcs_bulk_messaging_syste.Store.Stats.{
  unfinished, is_child_of, has_child, is_parent, pending_case, distinct, phones, group,
  recipient_any, aggregate,
}
use rcs_bulk_messaging_syste.Store.Campaigns.{CampaignRow, recalculate_row}

In-distinct : (p : Text) (ps : List Text) → In p ps → In p (distinct ps)
unfolding distinct
In-distinct p [] i = elim i [ ]
In-distinct p (q ∷ ps) (first e) = elim (Bool-cases (any (text_eq q) (distinct ps))) [
  | inl t ↦ rw t (
      let (x, i, h) = any-elim (text_eq q) (distinct ps) t in
      subst (λ z. In z (distinct ps)) (sym (e ∙ (text_eq_iff q x).0 h)) i)
  | inr t ↦ rw t (first e)
]
In-distinct p (q ∷ ps) (later i) = elim (Bool-cases (any (text_eq q) (distinct ps))) [
  | inl t ↦ rw t (In-distinct p ps i)
  | inr t ↦ rw t (later (In-distinct p ps i))
]

-- Grouping by phone and taking the maximum twice is asking whether some row passes.
recipient_any-any :
    (test : MessageRow → Bool) (rows : List MessageRow) → recipient_any test rows ≡ any test rows
unfolding recipient_any phones group
recipient_any-any test rows = Bool-eq _ _ there back
  where
    there : recipient_any test rows ≡ true → any test rows ≡ true
    there h =
        let (p, i, g) = any-elim (λ p. any test (group rows p)) (phones rows) h in
        let (r, j, e) = any-elim test (group rows p) g in
        any-intro test r (filter-In (λ r. text_eq p r.recipient_phone) r rows j).0 e

    back : any test rows ≡ true → recipient_any test rows ≡ true
    back h =
        let (r, i, e) = any-elim test rows h in
        any-intro (λ p. any test (group rows p)) r.recipient_phone
          (In-distinct r.recipient_phone _ (In-map (λ r. r.recipient_phone) r i))
          (any-intro test r
            (In-filter (λ s. text_eq r.recipient_phone s.recipient_phone) r i
              (text_eq_refl r.recipient_phone))
            e)

-- No message of the campaign, parent or child of a parent, is pending or queued.
abbrev pub AllSettled : ℕ → List MessageRow → Type 0
AllSettled cid rows =
    (r : MessageRow)
    → In r rows
    → is_parent cid r ≡ true
    → (unfinished r.status ≡ false)
      × ((c : MessageRow)
          → In c rows
          → c.parent_message_id ≡ some r.id
          → unfinished c.status ≡ false)

child_of_eq : (i : ℕ) (o : Option ℕ) → is_child_of i o ≡ true → o ≡ some i
child_of_eq i o h = ground arith

some_child_of : (i : ℕ) (o : Option ℕ) → o ≡ some i → is_child_of i o ≡ true
some_child_of i o h = ground arith

has_child-false :
    (test : MessageStatus → Bool) (rows : List MessageRow) (r : MessageRow)
    → (has_child test rows r ≡ false)
      ↔ ((c : MessageRow) → In c rows → c.parent_message_id ≡ some r.id → test c.status ≡ false)
unfolding has_child
has_child-false test rows r = (there, back)
  where
    there :
        has_child test rows r ≡ false
        → (c : MessageRow) → In c rows
        → c.parent_message_id ≡ some r.id
        → test c.status ≡ false
    there h c i e = elim (Bool-cases (test c.status)) [
      | inl t ↦ cc (
          any-intro (λ c. is_child_of r.id c.parent_message_id && test c.status) c i
            (rw (some_child_of r.id c.parent_message_id e, t) refl))
      | inr t ↦ t
    ]

    back :
        ((c : MessageRow) → In c rows → c.parent_message_id ≡ some r.id → test c.status ≡ false)
        → has_child test rows r ≡ false
    back f = elim (Bool-cases (has_child test rows r)) [
      | inl t ↦
          let (c, i, e) =
            any-elim (λ c. is_child_of r.id c.parent_message_id && test c.status) rows t in
          let own : is_child_of r.id c.parent_message_id ≡ true = ground arith in
          let bad : test c.status ≡ true = ground arith in
          cc (f c i (child_of_eq r.id c.parent_message_id own))
      | inr t ↦ t
    ]

-- The query's test on the rows of the campaign, without the grouping.
open_somewhere : ℕ → List MessageRow → Bool
open_somewhere cid rows = any (λ r. is_parent cid r && pending_case rows r) rows

has_pending-open :
    (cid : ℕ) (rows : List MessageRow) → (aggregate cid rows).has_pending ≡ open_somewhere cid rows
unfolding aggregate open_somewhere
has_pending-open cid rows =
    recipient_any-any (pending_case rows) (filter (is_parent cid) rows)
    ∙ any-filter (is_parent cid) (pending_case rows) rows

settled-closed :
    (cid : ℕ) (rows : List MessageRow) → (open_somewhere cid rows ≡ false) ↔ AllSettled cid rows
unfolding open_somewhere pending_case
settled-closed cid rows = (there, back)
  where
    there : open_somewhere cid rows ≡ false → AllSettled cid rows
    there h r i p = elim (Bool-cases (pending_case rows r)) [
      | inl t ↦ cc (any-intro (λ r. is_parent cid r && pending_case rows r) r i (rw (p, t) refl))
      | inr t ↦ (ground arith, (has_child-false unfinished rows r).0 (ground arith))
    ]

    back : AllSettled cid rows → open_somewhere cid rows ≡ false
    back f = elim (Bool-cases (open_somewhere cid rows)) [
      | inl t ↦
          let (r, i, e) = any-elim (λ r. is_parent cid r && pending_case rows r) rows t in
          let p : is_parent cid r ≡ true = ground arith in
          let s = f r i p in
          let none_open = (has_child-false unfinished rows r).1 s.1 in ground (arith, s.0)
      | inr t ↦ t
    ]

has_pending-settled :
    (cid : ℕ) (rows : List MessageRow)
    → ((aggregate cid rows).has_pending ≡ false) ↔ AllSettled cid rows
has_pending-settled cid rows = rw (has_pending-open cid rows) (settled-closed cid rows)

recalculated_status :
    (now : ℕ) (messages : List MessageRow) (r : CampaignRow)
    → ((recalculate_row now messages r).status ≡ completed) ↔ (
        (r.status ≡ completed)
        ⊎ ((r.status ≡ active)
            × (0 < r.recipient_count)
            × ((aggregate r.id messages).has_pending ≡ false)))
unfolding recalculate_row update_stats_from_db
recalculated_status now messages r = ground arith

-- After a recalculation a campaign is completed exactly when it was, or it was active with recipients
-- and no message of it, parent or child, is pending or queued.
pub recalculate_row-completes :
    (now : ℕ) (messages : List MessageRow) (r : CampaignRow)
    → ((recalculate_row now messages r).status ≡ completed) ↔ (
        (r.status ≡ completed)
        ⊎ ((r.status ≡ active) × (0 < r.recipient_count) × AllSettled r.id messages))
recalculate_row-completes now messages r = (
  λ h. elim ((recalculated_status now messages r).0 h) [
    | inl e ↦ inl e
    | inr a ↦ inr (a.0, a.1, (has_pending-settled r.id messages).0 a.2)
  ],
  λ h. (recalculated_status now messages r).1 (elim h [
    | inl e ↦ inl e
    | inr a ↦ inr (a.0, a.1, (has_pending-settled r.id messages).1 a.2)
  ]),
)
