-- ===== src/Smtp/Streams/CommandLines.antt =====
-- One command in a packet of its own, in smtp_server.py, as smtp_client.py sends it.
use rdt_mail_service.Prelude.{
  length-append, ℕ, ◌-◌, ◌≡◌, refl, sym, ap, ◌∙◌, Bool, true, false, not, ◌&&◌, [], ◌∷◌, ◌++◌,
  append-nil, append_assoc, none, some, ltb, ◌==◌, nat_eq, length, take, drop, arith, if◌then◌else◌,
}
use rdt_mail_service.Prelude.Text.{
  Text, text_eq, codes, cr, lf, is_space, strip, lstrip, rstrip, decode_ignore, contains_sub,
  starts_with, ends_with, is_empty, split_lines,
}
use rdt_mail_service.Rdt.Dispatcher.{Addr}
use rdt_mail_service.Smtp.Session.{LineBuffer, Session, parse_angle_addr, with_at, inner}
use rdt_mail_service.Smtp.Server.{SmtpServer, Env}
use rdt_mail_service.Smtp.Streams.{handle_line, handle_command_stream, end_loop}
use rdt_mail_service.Smtp.Streams.Lines.{run_parts, handle_command_stream-run_parts}

-- A character of an address: ASCII, and no white space.
abbrev pub is_plain : ℕ → Bool
is_plain c = ltb c 128 && not (is_space c)

abbrev pub all_plain : Text → Bool
all_plain [] = true
all_plain (c ∷ s) = is_plain c && all_plain s

-- No CR, no LF.
abbrev pub one_line : Text → Bool
one_line [] = true
one_line (c ∷ s) = not (c == cr) && not (c == lf) && ltb c 128 && one_line s

pub one_line-append :
    (s t : Text) → one_line s ≡ true → one_line t ≡ true → one_line (s ++ t) ≡ true
one_line-append [] t h k = k
one_line-append (c ∷ s) t h k = ground (arith, one_line-append s t)

pub all_plain-one_line : (s : Text) → all_plain s ≡ true → one_line s ≡ true
unfolding is_space
all_plain-one_line [] h = refl
all_plain-one_line (c ∷ s) h = ground (arith, all_plain-one_line s)

pub decode_ignore-one_line : (s : Text) → one_line s ≡ true → decode_ignore s ≡ s
unfolding decode_ignore
decode_ignore-one_line [] h = refl
decode_ignore-one_line (c ∷ s) h = ground (arith, decode_ignore-one_line s)

pub contains_sub-one_line : (s : Text) → one_line s ≡ true → contains_sub (lf ∷ []) s ≡ false
unfolding contains_sub starts_with
contains_sub-one_line [] h = refl
contains_sub-one_line (c ∷ s) h = ground (arith, contains_sub-one_line s)

split_lines-one_line :
    (line s : Text)
    → one_line s ≡ true
    → split_lines line (s ++ cr ∷ lf ∷ []) ≡ (line ++ s) ∷ [] ∷ []
unfolding split_lines
split_lines-one_line line [] h = ap (λ (t : Text). t ∷ [] ∷ []) (sym (append-nil line))
split_lines-one_line line (c ∷ []) h = let n : (c == cr) ≡ false = ground arith in rw n refl
split_lines-one_line line (c ∷ d ∷ s) h =
    let n : (c == cr) ≡ false = ground arith in
    rw n (
      split_lines-one_line (line ++ c ∷ []) (d ∷ s) (ground arith)
      ∙ ap (λ (t : Text). t ∷ [] ∷ []) (append_assoc line (c ∷ []) (d ∷ s)))

-- White space is taken off the end up to the last character that is none.
rstrip-append : (s : Text) (c : ℕ) → is_space c ≡ false → rstrip (s ++ c ∷ []) ≡ s ++ c ∷ []
unfolding rstrip
rstrip-append [] c h = rw h refl
rstrip-append (x ∷ []) c h = rw (rstrip, h) refl
rstrip-append (x ∷ y ∷ s) c h = rw (rstrip-append (y ∷ s) c h) refl

pub strip-brackets :
    (b c : ℕ) (s : Text)
    → is_space b ≡ false
    → is_space c ≡ false
    → strip (b ∷ s ++ c ∷ []) ≡ b ∷ s ++ c ∷ []
unfolding strip lstrip
strip-brackets b c s h k = rw (h, rstrip-append (b ∷ s) c k) refl

pub rstrip-all_plain : (s : Text) → all_plain s ≡ true → rstrip s ≡ s
unfolding rstrip
rstrip-all_plain [] h = refl
rstrip-all_plain (c ∷ []) h = ground arith
rstrip-all_plain (c ∷ d ∷ s) h = rw (rstrip-all_plain (d ∷ s) (ground arith)) refl

lstrip-all_plain : (s : Text) → all_plain s ≡ true → lstrip s ≡ s
unfolding lstrip
lstrip-all_plain [] h = refl
lstrip-all_plain (c ∷ s) h = ground arith

strip-all_plain : (s : Text) → all_plain s ≡ true → strip s ≡ s
unfolding strip
strip-all_plain s h = rw (lstrip-all_plain s h, rstrip-all_plain s h) refl

drop_whole : (s t : Text) → drop (length s) (s ++ t) ≡ t
drop_whole [] t = refl
drop_whole (c ∷ s) t = drop_whole s t

pub take_whole : (s t : Text) → take (length s) (s ++ t) ≡ s
take_whole [] t = refl
take_whole (c ∷ s) t = ap (λ (x : Text). c ∷ x) (take_whole s t)

bracket_place : (s : Text) → length (b'<' ∷ s ++ codes ">") - 1 ≡ length (b'<' ∷ s)
bracket_place s = omega (arith, length-append s (codes ">"))

inner_place : (s : Text) → length (b'<' ∷ s ++ codes ">") - 2 ≡ length s
inner_place s = omega (arith, length-append s (codes ">"))

ends_with-bracketed : (s : Text) → ends_with (b'<' ∷ s ++ codes ">") (codes ">") ≡ true
unfolding ends_with text_eq
ends_with-bracketed s = rw (bracket_place s, drop_whole (b'<' ∷ s) (codes ">")) refl

parse_angle_addr_lem :
    (arg : Text)
    → parse_angle_addr arg ≡ (
        if is_empty arg
        then none
        else if starts_with (strip arg) (codes "<") && ends_with (strip arg) (codes ">")
        then with_at (strip (inner (strip arg)))
        else with_at (strip arg))
unfolding parse_angle_addr strip starts_with ends_with contains_sub
parse_angle_addr_lem arg = refl

starts_with-bracketed : (s : Text) → starts_with (b'<' ∷ s) (codes "<") ≡ true
unfolding starts_with
starts_with-bracketed s = refl

-- `<` and `>` around an address are read away.
pub parse_angle_addr-bracketed :
    (s : Text)
    → all_plain s ≡ true
    → contains_sub (codes "@") s ≡ true
    → parse_angle_addr (b'<' ∷ s ++ codes ">") ≡ some s
parse_angle_addr-bracketed s h k =
    parse_angle_addr_lem (b'<' ∷ s ++ codes ">")
    ∙ rw
        (
          strip-brackets b'<' b'>' s (unfold is_space in refl) (unfold is_space in refl),
          starts_with-bracketed (s ++ codes ">"),
          ends_with-bracketed s,
          inner_place s,
          take_whole s (codes ">"),
          strip-all_plain s h,
          k,
        )
        refl

pub handle_command_stream-one_line :
    (env : Env) (addr : Addr) (cmd : Text) (session : Session) (srv : SmtpServer)
    → one_line cmd ≡ true
    → handle_command_stream env addr
        (record session { line_buffer = LineBuffer.separate [] })
        (cmd ++ cr ∷ lf ∷ [])
        srv
      ≡ (let (session', srv') =
            handle_line env addr cmd (record session { line_buffer = LineBuffer.in_loop }) srv in
          end_loop [] session' srv')
handle_command_stream-one_line env addr cmd session srv h =
    handle_command_stream-run_parts env addr
      (record session { line_buffer = LineBuffer.separate [] }) (cmd ++ cr ∷ lf ∷ []) srv
    ∙ rw (split_lines-one_line [] cmd h) (unfold run_parts in refl)
