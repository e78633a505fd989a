-- ===== src/Consent/Tests.antt =====
-- One number that opts in to everything, out of promotions, and is put on the registry.
use rcs_bulk_messaging_syste.Prelude.{
  ℕ, ◌≡◌, refl, true, false, none, some, List, [], ◌∷◌, ◌++◌, take,
}
use rcs_bulk_messaging_syste.Prelude.Text.{Text, codes, text_eq}
use rcs_bulk_messaging_syste.Consent.{
  promotional, all, web_form, sms_reply, OptIn, create, can_send_message,
}
use rcs_bulk_messaging_syste.Consent.History.{
  Call, grants, revokes, marks_on, sets, run, records, may_send, listed, consents,
  consent_history-run, can_send_message-run,
}

abbrev number : Text
number = codes "98765 43210"

abbrev calls : List (ℕ × Call ℕ)
calls =
    (10, grants all web_form none none none)
    ∷ (20, sets (codes "hour") 9)
    ∷ (30, revokes promotional sms_reply (some (codes "STOP")))
    ∷ (40, marks_on)
    ∷ []

abbrev after : OptIn ℕ
after = run calls (create 5 1 3 number)

may_send-informational_before : may_send (codes "informational") (take 3 calls) ≡ true
unfolding may_send text_eq listed consents
may_send-informational_before = refl

may_send-informational_after : may_send (codes "informational") calls ≡ false
unfolding may_send text_eq listed consents
may_send-informational_after = refl

consent_history-run_example :
    after.consent_history ≡ (create {V = ℕ} 5 1 3 number).consent_history ++ records calls
consent_history-run_example = consent_history-run calls (create 5 1 3 number)

can_send_message-run_example :
    can_send_message (codes "promotional") after ≡ may_send (codes "promotional") calls
can_send_message-run_example = can_send_message-run 5 1 3 number calls (codes "promotional")
