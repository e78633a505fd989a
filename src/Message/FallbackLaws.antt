-- ===== src/Message/FallbackLaws.antt =====
-- When a failed message falls back to SMS, what the child is, and that a child has no child.
use rcs_bulk_messaging_syste.Prelude.{
  ℕ, ◌+◌, ◌≤◌, ◌≡◌, refl, ◌∙◌, ◌↔◌, ◌⊎◌, inl, inr, true, false, some, ◌++◌, arith, ltb, Bool-cases,
  length, take, length-append, length-take,
}
use rcs_bulk_messaging_syste.Prelude.Text.{Text, codes, length-strip-le}
use rcs_bulk_messaging_syste.Prelude.Results.{ok, err}
use rcs_bulk_messaging_syste.Message.Types.{
  pending, failed, rcs, sms, rcs_not_supported, status_eq, MessageContent, Message,
}
use rcs_bulk_messaging_syste.Message.Lifecycle.{
  queue, mark_sent, mark_delivered, mark_read, mark_failed, mark_expired, should_retry,
  increment_retry,
}
use rcs_bulk_messaging_syste.Message.Fallback.{
  should_trigger_fallback, cannot_fall_back, sms_content, create_fallback_message, fallback_child,
}
use rcs_bulk_messaging_syste.Message.Steps.{
  Step, queues, sends, delivers, reads, fails, expires, retries, Reach, here, next,
}
use rcs_bulk_messaging_syste.Message.Content.{card_text, suggestions_text, shorten, to_sms_text}
use native.Mathlib.Nat.{le_trans}
use rcs_bulk_messaging_syste.Phone.Laws.{normalize_phone-fixed}
use rcs_bulk_messaging_syste.Message.Invariant.{IsConsistent}

-- A message falls back exactly when it is a failed RCS message with the fallback enabled, and RCS is
-- not supported or the retries are used up.
pub should_trigger_fallback_iff :
    (m : Message)
    → (should_trigger_fallback m ≡ true) ↔ (
        (m.status ≡ failed)
        × (m.channel ≡ rcs)
        × (m.fallback_enabled ≡ true)
        × ((m.failure_reason ≡ some rcs_not_supported) ⊎ (m.max_retries ≤ m.retry_count)))
unfolding should_trigger_fallback status_eq
should_trigger_fallback_iff m = (ground arith, ground arith)

-- A message is never both retried and replaced by a fallback.
pub should_retry-excludes_fallback :
    (now : ℕ) (m : Message) → should_retry now m ≡ true → should_trigger_fallback m ≡ false
unfolding should_retry should_trigger_fallback status_eq
should_retry-excludes_fallback now m h = ground arith

pub Step-channel : {m m' : Message} → Step m m' → m'.channel ≡ m.channel
unfolding queue mark_sent mark_delivered mark_read mark_failed mark_expired increment_retry
Step-channel (queues now h) = ground arith
Step-channel (sends now g x h) = ground arith
Step-channel (delivers now h) = ground arith
Step-channel (reads now h) = ground arith
Step-channel (fails now reason code message h) = ground arith
Step-channel (expires now h) = ground arith
Step-channel (retries now s h) = ground arith

pub Reach-channel : {m m' : Message} → Reach m m' → m'.channel ≡ m.channel
Reach-channel here = refl
Reach-channel (next r s) = Step-channel s ∙ Reach-channel r

-- What `create_fallback_message` answers: it raises, or the child has the fields of its parent.
abbrev pub ChildOrRaise : (ℕ → Text) → ℕ → ℕ → Message → Type 0
ChildOrRaise show now id m =
    ((should_trigger_fallback m ≡ false)
      × (create_fallback_message show now id m ≡ err cannot_fall_back))
    ⊎ ((child : Message) × (create_fallback_message show now id m ≡ ok child)
        × (should_trigger_fallback m ≡ true)
        × (child.id ≡ id)
        × (child.status ≡ pending)
        × (child.channel ≡ sms)
        × (child.parent_message_id ≡ some m.id)
        × (child.recipient_phone ≡ m.recipient_phone)
        × (child.campaign_id ≡ m.campaign_id)
        × (child.tenant_id ≡ m.tenant_id)
        × (child.priority ≡ m.priority)
        × (child.content ≡ sms_content m.content)
        × (child.retry_count ≡ 0)
        × (child.expires_at ≡ now + 86400))

-- `create_fallback_message` raises exactly when the message does not fall back; else the child is
-- a pending SMS message to the same number, for the same campaign, tenant and priority, linked to
-- its parent, with no template, no retries and a new window, and its text is the parent's as SMS.
pub create_fallback_message_lem :
    (show : ℕ → Text) (now id : ℕ) (m : Message) → IsConsistent m → ChildOrRaise show now id m
unfolding create_fallback_message fallback_child
create_fallback_message_lem show now id m v = elim (Bool-cases (should_trigger_fallback m)) [
  | inl e ↦ inr (
    fallback_child show now id m,
    rw e refl,
    e,
    refl,
    refl,
    refl,
    refl,
    normalize_phone-fixed m.recipient_phone v.phone,
    refl,
    refl,
    refl,
    refl,
    refl,
    refl,
  )
  | inr e ↦ inl (e, rw e refl)
]

create_fallback_message-channel :
    (show : ℕ → Text) (now id : ℕ) (m : Message) {child : Message}
    → create_fallback_message show now id m ≡ ok child
    → child.channel ≡ sms
unfolding create_fallback_message fallback_child
create_fallback_message-channel show now id m h = ground arith

-- A fallback child never falls back itself, whatever becomes of it: the chain has one link.
pub fallback_child-no_fallback :
    (show : ℕ → Text) (now id : ℕ) (m : Message) {child m' : Message}
    → create_fallback_message show now id m ≡ ok child
    → Reach child m'
    → should_trigger_fallback m' ≡ false
unfolding should_trigger_fallback
fallback_child-no_fallback show now id m h r =
    ground (arith, Reach-channel r, create_fallback_message-channel show now id m h)

length-shorten-le : (t : Text) → length (shorten t) ≤ 1600
unfolding shorten
length-shorten-le t = elim (Bool-cases (ltb 1600 (length t))) [
  | inl e ↦
      rw e (omega (arith, length-append {0} (take 1597 t) (codes "..."), length-take {0} 1597 t))
  | inr e ↦ rw e (ground arith)
]

-- The SMS text has at most 1600 characters.
pub length-to_sms_text-le : (c : MessageContent) → length (to_sms_text c) ≤ 1600
unfolding to_sms_text
length-to_sms_text-le c =
    let t = c.text ++ (card_text c.rich_card ++ suggestions_text c.suggestions) in
    le_trans (length-strip-le (shorten t)) (length-shorten-le t)
