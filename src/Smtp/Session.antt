-- ===== src/Smtp/Session.antt =====
-- The sessions of email-network-service/src/smtp/smtp_server.py, and how it reads a command.
use rdt_mail_service.Prelude.{
  ℕ, ◌-◌, Bool, ◌&&◌, ◌||◌, List, [], ◌∷◌, Option, none, some, leb, nat_eq, length, take, drop,
  if◌then◌else◌,
}
use rdt_mail_service.Prelude.Text.{
  Text, text_eq, codes, is_empty, is_space, strip, lstrip, starts_with, ends_with, contains_sub, lf,
  upper,
}

pub data SmtpState : Type 0 where
  wait_for_helo wait_for_mail_from wait_for_rcpt_to wait_for_data_cmd reading_data_stream :
      SmtpState

-- A session's `line_buffer` is the bytearray that the running command loop takes lines from, or
-- another object with its own bytes.
pub data LineBuffer : Type 0 where
  in_loop : LineBuffer
  separate : Text → LineBuffer

pub record Session : Type 0 where
  pub state : SmtpState
  pub mail_from : Option Text
  pub rcpt_to : List Text
  pub data_buffer : Text
  pub line_buffer : LineBuffer

abbrev pub create_session : Session
create_session = record {
  state = SmtpState.wait_for_helo;
  mail_from = none;
  rcpt_to = [];
  data_buffer = [];
  line_buffer = LineBuffer.separate [];
}

-- `arg[1:-1]` of `<...>`
abbrev pub inner : Text → Text
inner arg = take (length arg - 2) (drop 1 arg)

abbrev pub with_at : Text → Option Text
with_at arg = if contains_sub (codes "@") arg then some arg else none

unfoldable pub parse_angle_addr : Text → Option Text
unfolding strip starts_with ends_with contains_sub
parse_angle_addr arg =
    let stripped = strip arg in
    if is_empty arg
    then none
    else if starts_with stripped (codes "<") && ends_with stripped (codes ">")
    then with_at (strip (inner stripped))
    else with_at stripped

unfoldable pub is_letter : ℕ → Bool
is_letter c = (leb b'A' c && leb c b'Z') || (leb b'a' c && leb c b'z')

-- The letters that the text begins with, and the rest.
unfoldable pub span_letters : Text → Text × Text
unfolding is_letter
span_letters [] = ([], [])
span_letters (c ∷ s) =
    let (verb, rest) = span_letters s in if is_letter c then (c ∷ verb, rest) else ([], c ∷ s)

-- `(?:\s+(.*))?$` after the letters: white space, and a rest in which a dot matches all.
abbrev argument : Text → Text → Option (Text × Text)
argument verb [] = some (verb, [])
argument verb (c ∷ s) =
    let rest = lstrip s in
    if is_space c then (if contains_sub (lf ∷ []) rest then none else some (verb, rest)) else none

-- `_re_cmd.match`, of a text that does not end in white space: the verb in upper case, and the
-- argument or "".
unfoldable pub match_cmd : Text → Option (Text × Text)
unfolding span_letters is_space lstrip contains_sub upper
match_cmd cmd_str =
    let (verb, rest) = span_letters cmd_str in
    if is_empty verb then none else argument (upper verb) rest
