-- ===== src/Smtp/Streams/Lines.antt =====
-- The command loop of smtp_server.py has rounds enough, and takes the lines of its buffer in turn.
use rdt_mail_service.Prelude.{
  ℕ, zero, suc, ◌+◌, ◌-◌, ◌≤◌, ◌<◌, ◌≡◌, refl, sym, ap, ◌∙◌, ◌⊎◌, inl, inr, true, false, ◌&&◌, List,
  [], ◌∷◌, ◌++◌, append-nil, append_assoc, Option, none, some, arith, ◌==◌, nat_eq, length, take,
  drop, Bool-cases, Option-cases, if◌then◌else◌,
}
use rdt_mail_service.Prelude.Text.{Text, cr, lf, find, starts_with, split_lines}
use rdt_mail_service.Rdt.Dispatcher.{Addr}
use rdt_mail_service.Smtp.Session.{Session, LineBuffer}
use rdt_mail_service.Smtp.Server.{SmtpServer, Env}
use rdt_mail_service.Smtp.Streams.{
  crlf, handle_line, end_loop, command_loop, handle_command_stream, bytes_of,
}

length-drop : (n : ℕ) (s : Text) → length (drop n s) ≡ length s - n
length-drop zero s = omega arith
length-drop (suc n) [] = omega arith
length-drop (suc n) (c ∷ s) = omega (arith, length-drop n s)

drop_two : (i : ℕ) (c : ℕ) (s : Text) → drop (suc i + 2) (c ∷ s) ≡ drop (i + 2) s
drop_two i c s = let e : suc i + 2 ≡ suc (i + 2) = omega arith in ap (λ (n : ℕ). drop n (c ∷ s)) e

abbrev later : Option ℕ → Option ℕ
later none = none
later (some i) = some (suc i)

find-crlf :
    (c d : ℕ) (s : Text)
    → find crlf (c ∷ d ∷ s) ≡ (if (c == cr) && (d == lf) then some 0 else later (find crlf (d ∷ s)))
unfolding find starts_with
find-crlf c d s = ground arith

split_lines-cons :
    (line : Text) (c d : ℕ) (s : Text)
    → split_lines line (c ∷ d ∷ s) ≡ (
        if (c == cr) && (d == lf)
        then line ∷ split_lines [] s
        else split_lines (line ++ c ∷ []) (d ∷ s))
unfolding split_lines
split_lines-cons line c d s = refl

-- The parts of a text, by where its first CR LF is.
abbrev parts_at : Option ℕ → Text → Text → List Text
parts_at none line buf = (line ++ buf) ∷ []
parts_at (some idx) line buf = (line ++ take idx buf) ∷ split_lines [] (drop (idx + 2) buf)

parts_at-later :
    (o : Option ℕ) (line : Text) (c : ℕ) (s : Text)
    → parts_at o (line ++ c ∷ []) s ≡ parts_at (later o) line (c ∷ s)
parts_at-later none line c s = ap (λ (t : Text). t ∷ []) (append_assoc line (c ∷ []) s)
parts_at-later (some i) line c s = rw (append_assoc line (c ∷ []) (take i s), drop_two i c s) refl

split_lines-find : (line buf : Text) → split_lines line buf ≡ parts_at (find crlf buf) line buf
unfolding split_lines find starts_with
split_lines-find line [] = ap (λ (t : Text). t ∷ []) (sym (append-nil line))
split_lines-find line (c ∷ []) = ground arith
split_lines-find line (c ∷ d ∷ s) =
    split_lines-cons line c d s
    ∙ cases (split_lines-find (line ++ c ∷ []) (d ∷ s)) (Bool-cases ((c == cr) && (d == lf)))
    ∙ ap (λ (o : Option ℕ). parts_at o line (c ∷ d ∷ s)) (sym (find-crlf c d s))
  where
    cases :
        split_lines (line ++ c ∷ []) (d ∷ s) ≡ parts_at (find crlf (d ∷ s)) (line ++ c ∷ []) (d ∷ s)
        → (((c == cr) && (d == lf)) ≡ true) ⊎ (((c == cr) && (d == lf)) ≡ false)
        → (if (c == cr) && (d == lf)
            then line ∷ split_lines [] s
            else split_lines (line ++ c ∷ []) (d ∷ s))
          ≡ parts_at
              (if (c == cr) && (d == lf) then some 0 else later (find crlf (d ∷ s)))
              line
              (c ∷ d ∷ s)
    cases rest (inl here) = rw (here, append-nil line) refl
    cases rest (inr there) = rw there (rest ∙ parts_at-later (find crlf (d ∷ s)) line c (d ∷ s))

-- The parts of the buffer: each but the last is a line of commands, and the last is kept.
unfoldable pub run_parts : Env → Addr → List Text → Session → SmtpServer → Session × SmtpServer
run_parts env addr [] session srv = end_loop [] session srv
run_parts env addr (last ∷ []) session srv = end_loop last session srv
run_parts env addr (line ∷ part ∷ parts) session srv =
    let (session', srv') = handle_line env addr line session srv in
    run_parts env addr (part ∷ parts) session' srv'

run_parts-cons :
    (env : Env) (addr : Addr) (line t : Text) (session : Session) (srv : SmtpServer)
    → run_parts env addr (line ∷ split_lines [] t) session srv ≡ (
        let (session', srv') = handle_line env addr line session srv in
        run_parts env addr (split_lines [] t) session' srv')
run_parts-cons env addr line t session srv = rw (split_lines-find [] t) (by_place (find crlf t))
  where
    by_place :
        (o : Option ℕ)
        → run_parts env addr (line ∷ parts_at o [] t) session srv ≡ (
            let (session', srv') = handle_line env addr line session srv in
            run_parts env addr (parts_at o [] t) session' srv')
    by_place none = (unfold run_parts in refl)
    by_place (some idx) = (unfold run_parts in refl)

find-length : (buf : Text) (idx : ℕ) → find crlf buf ≡ some idx → 1 ≤ length buf
unfolding find
find-length [] idx h = ground arith
find-length (c ∷ s) idx h = omega arith

module _ (rounds : ℕ) (env : Env) (addr : Addr) (buf : Text) (session : Session)
    (srv : SmtpServer) where
  command_loop_last :
      find crlf buf ≡ none
      → command_loop (suc rounds) env addr buf session srv ≡ end_loop buf session srv
  unfolding command_loop
  command_loop_last e = rw (command_loop, e) refl

  command_loop_line :
      (idx : ℕ)
      → find crlf buf ≡ some idx
      → command_loop (suc rounds) env addr buf session srv ≡ (
          let (session', srv') = handle_line env addr (take idx buf) session srv in
          command_loop rounds env addr (drop (idx + 2) buf) session' srv')
  unfolding command_loop
  command_loop_line idx e = rw (command_loop, e) refl

run_parts_last :
    (env : Env) (addr : Addr) (t : Text) (session : Session) (srv : SmtpServer)
    → run_parts env addr (t ∷ []) session srv ≡ end_loop t session srv
unfolding run_parts
run_parts_last env addr t session srv = refl

-- The rounds of the loop are enough when there is one more than bytes.
pub command_loop-run_parts :
    (rounds : ℕ) (env : Env) (addr : Addr) (buf : Text) (session : Session) (srv : SmtpServer)
    → length buf < rounds
    → command_loop rounds env addr buf session srv
      ≡ run_parts env addr (split_lines [] buf) session srv
command_loop-run_parts zero env addr buf session srv h = absurd (omega arith)
command_loop-run_parts (suc rounds) env addr buf session srv h =
    elim (Option-cases (find crlf buf)) [
      | inl last ↦
          command_loop_last rounds env addr buf session srv last
          ∙ sym (rw (split_lines-find [] buf, last) (run_parts_last env addr buf session srv))
      | inr (idx, found) ↦
          let (session', srv') = handle_line env addr (take idx buf) session srv in
          command_loop_line rounds env addr buf session srv idx found
          ∙ command_loop-run_parts rounds env addr (drop (idx + 2) buf) session' srv'
              (omega (arith, length-drop (idx + 2) buf, find-length buf idx found))
          ∙ sym (
              rw (split_lines-find [] buf, found)
                (run_parts-cons env addr (take idx buf) (drop (idx + 2) buf) session srv))
    ]

-- The command stream of a packet: what was left of the last packet, and the packet, are cut at
-- each CR LF; every part but the last is handled as a line of commands, in turn; and the last part
-- is what the loop leaves in its buffer.
pub handle_command_stream-run_parts :
    (env : Env) (addr : Addr) (session : Session) (packet : Text) (srv : SmtpServer)
    → handle_command_stream env addr session packet srv
      ≡ run_parts env addr
          (split_lines [] (bytes_of session.line_buffer ++ packet))
          (record session { line_buffer = LineBuffer.in_loop })
          srv
unfolding handle_command_stream
handle_command_stream-run_parts env addr session packet srv =
    let buf = bytes_of session.line_buffer ++ packet in
    command_loop-run_parts (suc (length buf)) env addr buf
      (record session { line_buffer = LineBuffer.in_loop }) srv (omega arith)
