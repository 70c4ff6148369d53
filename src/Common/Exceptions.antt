-- ===== src/Common/Exceptions.antt =====
-- email-network-service/src/common/exceptions.py. A value of the context is its `repr`.
use rdt_mail_service.Prelude.{
  drop, append_assoc, ◌↔◌, ℕ, ◌≡◌, refl, sym, ap, ◌∙◌, List, [], ◌∷◌, ◌++◌, Option, none, some,
  take, Dict, if◌then◌else◌,
}
use rdt_mail_service.Prelude.Text.{Text, text_eq, codes, is_empty}

pub record EmailServiceError : Type 0 where
  pub message : Text
  pub context : Dict Text Text

-- The values that are not None.
unfoldable pub present : List (Text × Option Text) → Dict Text Text
present [] = []
present ((k, none) ∷ context) = present context
present ((k, some v) ∷ context) = (k, v) ∷ present context

-- `message or self.__class__.__name__`
unfoldable pub new_error : Text → Text → List (Text × Option Text) → EmailServiceError
unfolding present
new_error class_name message context = record {
  message = if is_empty message then class_name else message;
  context = present context;
}

-- `f"{k}={v!r}"`, with a comma and a space between them.
unfoldable pub pairs : Dict Text Text → Text
pairs [] = []
pairs ((k, v) ∷ []) = k ++ codes "=" ++ v
pairs ((k, v) ∷ next ∷ rest) = k ++ codes "=" ++ v ++ codes ", " ++ pairs (next ∷ rest)

abbrev shown : Text → Dict Text Text → Text
shown message [] = message
shown message (p ∷ ps) = message ++ codes " (" ++ pairs (p ∷ ps) ++ codes ")"

-- `__str__`
unfoldable pub show_error : EmailServiceError → Text
unfolding pairs
show_error e = shown e.message e.context

unfoldable pub smtp_protocol_error :
    Text → Option Text → Option Text → Option Text → EmailServiceError
smtp_protocol_error message code command response =
    new_error (codes "SMTPProtocolError") message
      ((codes "code", code) ∷ (codes "command", command) ∷ (codes "response", response) ∷ [])

unfoldable pub smtp_connection_error :
    Text → Option Text → Option Text → Option Text → EmailServiceError
smtp_connection_error message host port reason =
    new_error (codes "SMTPConnectionError") message
      ((codes "host", host) ∷ (codes "port", port) ∷ (codes "reason", reason) ∷ [])

unfoldable pub pop3_protocol_error : Text → Option Text → Option Text → EmailServiceError
pop3_protocol_error message command response =
    new_error (codes "POP3ProtocolError") message
      ((codes "command", command) ∷ (codes "response", response) ∷ [])

unfoldable pub pop3_connection_error :
    Text → Option Text → Option Text → Option Text → EmailServiceError
pop3_connection_error message host port reason =
    new_error (codes "POP3ConnectionError") message
      ((codes "host", host) ∷ (codes "port", port) ∷ (codes "reason", reason) ∷ [])

unfoldable pub rdt_timeout_error :
    Text → Option Text → Option Text → Option Text → EmailServiceError
rdt_timeout_error message seq retries timeout =
    new_error (codes "RDTTimeoutError") message
      ((codes "seq", seq) ∷ (codes "retries", retries) ∷ (codes "timeout", timeout) ∷ [])

-- `packet_bytes[:32] if packet_bytes else None`
abbrev preview : (Text → Text) → Option Text → Option Text
preview repr none = none
preview repr (some []) = none
preview repr (some (c ∷ bytes)) = some (repr (take 32 (c ∷ bytes)))

unfoldable pub rdt_packet_error :
    (Text → Text) → Text → Option Text → Option Text → EmailServiceError
rdt_packet_error repr message packet_bytes detail =
    new_error (codes "RDTPacketError") message
      ((codes "packet_preview", preview repr packet_bytes) ∷ (codes "detail", detail) ∷ [])

abbrev pub NoneGiven : List (Text × Option Text) → Type 0
NoneGiven [] = Unit
NoneGiven ((k, v) ∷ context) = (v ≡ none) × NoneGiven context

longer_text : (s t : Text) (c : ℕ) → s ++ c ∷ t ≡ s → ⊥
longer_text [] t c h = cc
longer_text (x ∷ s) t c h = longer_text s t c (ap (drop 1) h)

shown_alone : (message : Text) (ps : Dict Text Text) → shown message ps ≡ message → ps ≡ []
shown_alone message [] h = refl
shown_alone message (p ∷ ps) h = absurd (
    longer_text message (40 ∷ pairs (p ∷ ps) ++ codes ")") 32 (
      sym (
        append_assoc (message ++ codes " (") (pairs (p ∷ ps)) (codes ")")
        ∙ append_assoc message (codes " (") (pairs (p ∷ ps) ++ codes ")"))
      ∙ h))

present_nothing : (context : List (Text × Option Text)) → NoneGiven context → present context ≡ []
unfolding present
present_nothing [] h = refl
present_nothing ((k, none) ∷ context) (e, h) = present_nothing context h
present_nothing ((k, some v) ∷ context) (e, h) = cc

nothing_present : (context : List (Text × Option Text)) → present context ≡ [] → NoneGiven context
unfolding present
nothing_present [] h = tt
nothing_present ((k, none) ∷ context) h = (refl, nothing_present context h)
nothing_present ((k, some v) ∷ context) h = cc

-- An exception is shown as its message alone exactly if no value of its context is given.
pub show_error-new_error :
    (class_name message : Text) (context : List (Text × Option Text))
    → let e = new_error class_name message context in (show_error e ≡ e.message) ↔ NoneGiven context
unfolding new_error show_error
show_error-new_error class_name message context = (
  (λ h. nothing_present context (shown_alone _ (present context) h)),
  (λ h. rw (present_nothing context h) refl),
)
