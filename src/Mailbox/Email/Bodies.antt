-- ===== src/Mailbox/Email/Bodies.antt =====
-- Which parts of a MIME message email_data.py takes as its bodies.
use rdt_mail_service.Prelude.{
  ◌≡◌, refl, inl, inr, Bool, true, false, ◌&&◌, List, [], ◌∷◌, Option, none, some, ◌==◌, Bool-cases,
  if◌then◌else◌,
}
use rdt_mail_service.Prelude.Text.{Text, text_eq, codes}
use rdt_mail_service.Mailbox.Email.{is_none, Part, Decoder, safe_decode, scan_parts}

abbrev pub or_else : Option Text → Option Text → Option Text
or_else none later = later
or_else (some t) later = some t

-- The first part of a type, no container, whose payload can be decoded.
abbrev pub first_body : Decoder → (Text → Text) → Text → List Part → Option Text
first_body decode utf8 type [] = none
first_body decode utf8 type (p ∷ parts) =
    let later = first_body decode utf8 type parts in
    if p.maintype == codes "multipart"
    then later
    else if p.content_type == type
    then or_else (safe_decode decode utf8 p.payload p.charset) later
    else later

or_else-none : (o : Option Text) → or_else o none ≡ o
or_else-none none = refl
or_else-none (some t) = refl

-- What one part does to the two bodies, of which it can be one.
found_step :
    (container plain html_type : Bool) (decoded text html first second : Option Text)
    → (plain && html_type) ≡ false
    → ◌≡◌ {A = Option Text × Option Text}
        (if container
          then (or_else text first, or_else html second)
          else if plain && is_none text
          then (or_else decoded first, or_else html second)
          else if html_type && is_none html
          then (or_else text first, or_else decoded second)
          else (or_else text first, or_else html second))
        (
          or_else text
              (if container then first else if plain then or_else decoded first else first),
          or_else html
              (if container then second else if html_type then or_else decoded second else second),
        )
found_step true plain html_type decoded text html first second h = refl
found_step false true true decoded text html first second h = cc
found_step false true false decoded none html first second h = refl
found_step false true false decoded (some t) html first second h = refl
found_step false false true decoded text none first second h = refl
found_step false false true decoded text (some t) first second h = refl
found_step false false false decoded text html first second h = refl

both_types : (t : Text) → ((t == codes "text/plain") && (t == codes "text/html")) ≡ false
both_types t = elim (Bool-cases (t == codes "text/plain")) [
  | inl y ↦ rw ((text_eq.beq_iff t (codes "text/plain")).0 y) (unfold text_eq in refl)
  | inr n ↦ rw n refl
]

-- Of the parts of a message, the text body is the first that is text/plain and can be decoded, and
-- the HTML body the first that is text/html and can be decoded, containers left aside; a body that
-- is there already stays.
pub scan_parts-first_body :
    (decode : Decoder) (utf8 : Text → Text) (parts : List Part) (text html : Option Text)
    → scan_parts decode utf8 parts text html ≡ (
      or_else text (first_body decode utf8 (codes "text/plain") parts),
      or_else html (first_body decode utf8 (codes "text/html") parts),
    )
unfolding scan_parts
scan_parts-first_body decode utf8 [] text html = rw (or_else-none text, or_else-none html) refl
scan_parts-first_body decode utf8 (p ∷ parts) text html =
    let decoded : Option Text = safe_decode decode utf8 p.payload p.charset in
    rw
      (
        scan_parts-first_body decode utf8 parts text html,
        scan_parts-first_body decode utf8 parts decoded html,
        scan_parts-first_body decode utf8 parts text decoded,
      )
      (found_step (p.maintype == codes "multipart") (p.content_type == codes "text/plain")
        (p.content_type == codes "text/html") decoded text html
        (first_body decode utf8 (codes "text/plain") parts)
        (first_body decode utf8 (codes "text/html") parts) (both_types p.content_type))
