-- ===== src/Client/Tests.antt =====
-- The theorems on the two clients at concrete emails and answers.
use rdt_mail_service.Prelude.{
  ◌≡◌, refl, ap, arith, Bool, true, false, List, [], ◌∷◌, ◌++◌, map, some,
}
use rdt_mail_service.Prelude.Text.{
  Text, text_eq, codes, cr, lf, find, starts_with, strip, lstrip, rstrip, is_space, contains_sub,
}
use rdt_mail_service.Disk.{path_eq}
use rdt_mail_service.Pop3.Numbers.{parse_int, parse_nat, parse_digits}
use rdt_mail_service.Smtp.Session.{SmtpState, create_session}
use rdt_mail_service.Smtp.Streams.{smtp_terminator, finalize_message}
use rdt_mail_service.Smtp.Streams.Chunks.{concat}
use rdt_mail_service.Smtp.Streams.CommandLines.{all_plain}
use rdt_mail_service.Smtp.Streams.Envelopes.{between}
use rdt_mail_service.Smtp.Tests as SmtpTests
use rdt_mail_service.Client.Wire.{Event, Result, Client, is_ascii}
use rdt_mail_service.Client.Conversation.{says, Follows, Keeps, Answer}
use rdt_mail_service.Client.Answers.{answers_wire}
use rdt_mail_service.Client.SmtpClient.{
  message_text, terminator, send_chunks, send_email, parse_reply, smtp_ready, smtp_ok,
  smtp_start_input,
}
use rdt_mail_service.Client.SmtpClient.Replies.{HasCode}
use rdt_mail_service.Client.SmtpClient.Pieces.{pieces, AllFit, send_chunks-AllFit}
use rdt_mail_service.Client.SmtpClient.Transcript.{greeting, envelope, content, script}
use rdt_mail_service.Client.SmtpClient.Outcomes.{Settled, send_email-Settled, send_email-Follows}
use rdt_mail_service.Client.SmtpClient.Success.{Answers, send_email_succeeds}
use rdt_mail_service.Client.SmtpClient.Delivery.{
  serve_all, spoken, greeted, spoken-finalize_message, spoken_truncated,
}

abbrev amy : Text
amy = codes "amy@x"

abbrev bob : Text
bob = codes "bob@x"

abbrev replies : List Text
replies =
    codes "220 Welcome"
    ∷ codes "250 OK"
    ∷ codes "250 Hello"
    ∷ codes "250 OK"
    ∷ codes "250 OK"
    ∷ codes "354 Start"
    ∷ codes "250 OK"
    ∷ codes "221 Bye"
    ∷ []

abbrev client_for : List Text → Client (List Text)
client_for answers = record { wire = answers; is_connected = false; closed = false; log = [] }

welcome_220 : Answer (HasCode smtp_ready) (codes "220 Welcome")
unfolding is_ascii strip lstrip rstrip is_space parse_reply parse_int parse_nat parse_digits
welcome_220 = (refl, (codes "Welcome", omega arith, refl))

ok_250 : Answer (HasCode smtp_ok) (codes "250 OK")
unfolding is_ascii strip lstrip rstrip is_space parse_reply parse_int parse_nat parse_digits
ok_250 = (refl, (codes "OK", omega arith, refl))

hello_250 : Answer (HasCode smtp_ok) (codes "250 Hello")
unfolding is_ascii strip lstrip rstrip is_space parse_reply parse_int parse_nat parse_digits
hello_250 = (refl, (codes "Hello", omega arith, refl))

start_354 : Answer (HasCode smtp_start_input) (codes "354 Start")
unfolding is_ascii strip lstrip rstrip is_space parse_reply parse_int parse_nat parse_digits
start_354 = (refl, (codes "Start", omega arith, refl))

replies-Answers :
    Answers
      (codes "220 Welcome")
      (codes "250 OK")
      (codes "250 Hello")
      (codes "250 OK")
      (codes "250 OK")
      (codes "354 Start")
      (codes "250 OK")
replies-Answers = record {
  ready = welcome_220;
  helo_ok = hello_250;
  mail_ok = ok_250;
  rcpt_ok = ok_250;
  may_start = start_354;
  done_ok = ok_250;
}

amy_ascii : is_ascii amy ≡ true
unfolding is_ascii
amy_ascii = refl

bob_ascii : is_ascii bob ≡ true
unfolding is_ascii
bob_ascii = refl

hi_ascii : is_ascii (codes "Hi") ≡ true
unfolding is_ascii
hi_ascii = refl

true_first :
    (r : Result Bool × Client (List Text))
    → r.0 ≡ Result.returned true
    → r ≡ (Result.returned true, r.1)
true_first (a, c) h = ap (λ (x : Result Bool). (x, c)) h

send_email_succeeds_example :
    (send_email answers_wire amy bob (codes "Hi") (codes "Hi") (client_for replies)).0
    ≡ Result.returned true
send_email_succeeds_example =
    send_email_succeeds (codes "220 Welcome") (codes "250 OK") (codes "250 Hello") (codes "250 OK")
      (codes "250 OK") (codes "354 Start") (codes "250 OK") (codes "221 Bye") amy bob (codes "Hi")
      (codes "Hi") replies-Answers amy_ascii bob_ascii hi_ascii hi_ascii (client_for replies) refl
      refl

abbrev after : Client (List Text)
after = (send_email answers_wire amy bob (codes "Hi") (codes "Hi") (client_for replies)).1

succeeded :
    send_email answers_wire amy bob (codes "Hi") (codes "Hi") (client_for replies)
    ≡ (Result.returned true, after)
succeeded =
    true_first (send_email answers_wire amy bob (codes "Hi") (codes "Hi") (client_for replies)) (
      send_email_succeeds (codes "220 Welcome") (codes "250 OK") (codes "250 Hello")
        (codes "250 OK") (codes "250 OK") (codes "354 Start") (codes "250 OK") (codes "221 Bye") amy
        bob (codes "Hi") (codes "Hi") replies-Answers amy_ascii bob_ascii hi_ascii hi_ascii
        (client_for replies) refl refl)

send_email-Follows_example :
    (l : List Event) × (after.log ≡ l) × Follows (script amy bob (codes "Hi") (codes "Hi")) l
send_email-Follows_example =
    send_email-Follows answers_wire amy bob (codes "Hi") (codes "Hi") (client_for replies) after
      succeeded

send_email-Settled_example :
    Settled answers_wire false (
      send_email answers_wire amy bob
        (codes "Hi")
        (codes "Hi")
        (client_for (codes "421 Busy" ∷ [])))
send_email-Settled_example =
    send_email-Settled answers_wire amy bob (codes "Hi") (codes "Hi")
      (client_for (codes "421 Busy" ∷ []))

send_chunks-AllFit_example :
    let cuts = pieces 6 (codes "hello") in
    AllFit cuts
    × (concat cuts ≡ codes "hello")
    × Keeps
        (map says cuts)
        (client_for [])
        (send_chunks answers_wire 6 0 (codes "hello") (client_for []))
send_chunks-AllFit_example = send_chunks-AllFit answers_wire (codes "hello") (client_for [])

amy_at : contains_sub (codes "@") amy ≡ true
unfolding contains_sub starts_with
amy_at = refl

bob_at : contains_sub (codes "@") bob ≡ true
unfolding contains_sub starts_with
bob_at = refl

amy_plain : all_plain amy ≡ true
unfolding is_space
amy_plain = refl

bob_plain : all_plain bob ≡ true
unfolding is_space
bob_plain = refl

ends_at_18 : find smtp_terminator (message_text (codes "Hi") (codes "Yo!") ++ terminator) ≡ some 18
unfolding find starts_with
ends_at_18 = refl

spoken-finalize_message_example :
    serve_all SmtpTests.env SmtpTests.client
      (spoken (greeting ++ envelope amy bob ++ content (codes "Hi") (codes "Yo!")))
      (create_session, SmtpTests.server)
    ≡ finalize_message SmtpTests.env SmtpTests.client
        (between SmtpState.wait_for_mail_from (some amy) (bob ∷ []) [])
        (message_text (codes "Hi") (codes "Yo!"))
        (greeted SmtpTests.env SmtpTests.client SmtpTests.server)
spoken-finalize_message_example =
    spoken-finalize_message SmtpTests.env SmtpTests.client amy bob (codes "Hi") (codes "Yo!")
      SmtpTests.server amy_plain amy_at bob_plain bob_at ends_at_18

abbrev dotted : Text
dotted = codes "a" ++ cr ∷ lf ∷ codes "." ++ cr ∷ lf ∷ codes "b"

ends_at_16 : find smtp_terminator (message_text (codes "Hi") dotted ++ terminator) ≡ some 16
unfolding find starts_with
ends_at_16 = refl

spoken_truncated_example :
    serve_all SmtpTests.env SmtpTests.client
      (spoken (greeting ++ envelope amy bob ++ content (codes "Hi") dotted))
      (create_session, SmtpTests.server)
    ≡ finalize_message SmtpTests.env SmtpTests.client
        (between SmtpState.wait_for_mail_from (some amy) (bob ∷ []) [])
        (message_text (codes "Hi") (codes "a"))
        (greeted SmtpTests.env SmtpTests.client SmtpTests.server)
spoken_truncated_example =
    spoken_truncated SmtpTests.env SmtpTests.client amy bob (codes "Hi") dotted SmtpTests.server
      amy_plain amy_at bob_plain bob_at 16 ends_at_16 (omega arith)
