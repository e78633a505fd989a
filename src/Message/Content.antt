-- ===== src/Message/Content.antt =====
-- `MessageContent.to_sms_text`: rich content as one plain text of at most 1600 characters.
use rcs_bulk_messaging_syste.Prelude.{
  ℕ, Bool, true, false, ◌&&◌, Option, none, some, List, [], ◌∷◌, ◌++◌, length, take, ltb,
  if◌then◌else◌,
}
use rcs_bulk_messaging_syste.Prelude.Text.{Text, codes, text_eq, strip}
use rcs_bulk_messaging_syste.Message.Types.{SuggestedAction, RichCard, MessageContent}

-- `bool(s)` of an optional text: not `None`, and not empty.
abbrev pub truthy : Option Text → Bool
truthy none = false
truthy (some []) = false
truthy (some (c ∷ s)) = true

abbrev newline : ℕ
newline = 10

-- What `if s: sms_text += prefix + s` adds.
when_given : Text → Option Text → Text
when_given prefix none = []
when_given prefix (some []) = []
when_given prefix (some (c ∷ s)) = prefix ++ c ∷ s

unfoldable pub card_text : Option RichCard → Text
unfolding when_given
card_text none = []
card_text (some card) =
    when_given (newline ∷ newline ∷ []) card.title
    ++ (when_given (newline ∷ []) card.description
        ++ when_given (newline ∷ codes "View: ") card.media_url)

unfoldable pub suggestion_text : SuggestedAction → Text
unfolding when_given
suggestion_text s =
    if text_eq s.kind (codes "url") && truthy s.url
    then when_given (newline ∷ s.text ++ codes ": ") s.url
    else if text_eq s.kind (codes "dial") && truthy s.phone_number
    then when_given (newline ∷ codes "Call: ") s.phone_number
    else []

unfoldable pub suggestions_text : List SuggestedAction → Text
suggestions_text [] = []
suggestions_text (s ∷ rest) = suggestion_text s ++ suggestions_text rest

-- `if len(t) > 1600: t = t[:1597] + "..."`
unfoldable pub shorten : Text → Text
shorten t = if ltb 1600 (length t) then take 1597 t ++ codes "..." else t

unfoldable pub to_sms_text : MessageContent → Text
to_sms_text m =
    strip (shorten (m.text ++ (card_text m.rich_card ++ suggestions_text m.suggestions)))
