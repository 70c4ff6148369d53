-- ===== src/Mailbox/Email.antt =====
-- The record `EmailData` of email-network-service/src/models/email_data.py. Of a MIME message,
-- which the standard library implements, the mailbox uses the text of `as_string`; `none` where
-- that raises.
pub mod Bodies
use rdt_mail_service.Prelude.{
  ℕ, Bool, true, false, ◌&&◌, List, [], ◌∷◌, Option, none, some, ◌==◌, length, if◌then◌else◌,
}
use rdt_mail_service.Prelude.Text.{Text, text_eq, codes}

pub record EmailData : Type 0 where
  pub raw_message : Option Text
  pub uid : Text
  pub subject : Text
  pub sender : Text
  pub recipient : Text
  pub date : Text
  pub body_html : Option Text
  pub body_text : Option Text

abbrev is_some : Option Text → Bool
is_some none = false
is_some (some t) = true

unfoldable pub has_html : EmailData → Bool
has_html e = is_some e.body_html

unfoldable pub has_text : EmailData → Bool
has_text e = is_some e.body_text

abbrev size_of : Option Text → ℕ
size_of none = 0
size_of (some t) = length t

unfoldable pub mime_size : EmailData → ℕ
mime_size e = size_of e.raw_message

-- A payload of a MIME part, as `get_payload(decode=True)` gives it: None, `bytes`, a `str`, or
-- something else.
pub data Payload : Type 0 where
  no_payload : Payload
  as_bytes as_str : Text → Payload
  other : Payload

pub record Part : Type 0 where
  pub content_type : Text
  pub maintype : Text
  pub charset : Option Text
  pub payload : Payload

-- A `Message` of the standard library: its text, its headers, and its parts as `walk` gives them,
-- if it is multipart.
pub record MimeMessage : Type 0 where
  pub as_string : Option Text
  pub headers : Text → Option Text
  pub parts : Option (List Part)
  pub whole : Part

-- `payload.decode(charset, errors="replace")`: `none` where the charset is unknown.
abbrev pub Decoder : Type 0
Decoder = Text → Text → Option Text

abbrev or_utf8 : (Text → Text) → Text → Option Text → Text
or_utf8 utf8 bytes none = utf8 bytes
or_utf8 utf8 bytes (some t) = t

abbrev charset_or : Option Text → Text
charset_or none = codes "utf-8"
charset_or (some []) = codes "utf-8"
charset_or (some (c ∷ charset)) = c ∷ charset

-- `utf8` is the decoder that is tried last.
unfoldable pub safe_decode : Decoder → (Text → Text) → Payload → Option Text → Option Text
safe_decode decode utf8 no_payload charset = none
safe_decode decode utf8 (as_bytes bytes) charset =
    some (or_utf8 utf8 bytes (decode (charset_or charset) bytes))
safe_decode decode utf8 (as_str t) charset = some t
safe_decode decode utf8 other charset = none

abbrev pub is_none : Option Text → Bool
is_none none = true
is_none (some t) = false

-- The loop over the parts, on the two bodies that are found so far.
unfoldable pub scan_parts :
    Decoder → (Text → Text) → List Part → Option Text → Option Text → Option Text × Option Text
scan_parts decode utf8 [] text html = (text, html)
scan_parts decode utf8 (p ∷ parts) text html =
    let decoded = safe_decode decode utf8 p.payload p.charset in
    let skipped = scan_parts decode utf8 parts text html in
    let with_text = scan_parts decode utf8 parts decoded html in
    let with_html = scan_parts decode utf8 parts text decoded in
    if p.maintype == codes "multipart"
    then skipped
    else if (p.content_type == codes "text/plain") && is_none text
    then with_text
    else if (p.content_type == codes "text/html") && is_none html
    then with_html
    else skipped

-- The text and the HTML body. A message of one part has its payload as text, whatever its type.
abbrev bodies_of : Decoder → (Text → Text) → Part → Option (List Part) → Option Text × Option Text
bodies_of decode utf8 whole none = (safe_decode decode utf8 whole.payload whole.charset, none)
bodies_of decode utf8 whole (some parts) = scan_parts decode utf8 parts none none

unfoldable pub extract_bodies : Decoder → (Text → Text) → MimeMessage → Option Text × Option Text
unfolding safe_decode scan_parts
extract_bodies decode utf8 raw = bodies_of decode utf8 raw.whole raw.parts

abbrev header_or : Text → Option Text → Text
header_or default none = default
header_or default (some t) = t

unfoldable pub from_message : Decoder → (Text → Text) → MimeMessage → Text → EmailData
unfolding extract_bodies
from_message decode utf8 raw uid =
    let (text, html) = extract_bodies decode utf8 raw in
    record {
      raw_message = raw.as_string;
      uid = uid;
      subject = header_or (codes "(no subject)") (raw.headers (codes "Subject"));
      sender = header_or [] (raw.headers (codes "From"));
      recipient = header_or [] (raw.headers (codes "To"));
      date = header_or [] (raw.headers (codes "Date"));
      body_html = html;
      body_text = text;
    }
