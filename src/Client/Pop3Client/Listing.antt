-- ===== src/Client/Pop3Client/Listing.antt =====
-- What LIST of pop3_server.py sends, as `list` of pop3_client.py reads it.
use rdt_mail_service.Prelude.{
  ℕ, zero, suc, ◌≤◌, ◌<◌, ◌≡◌, refl, sym, ap, ◌∙◌, inl, inr, true, false, List, [], ◌∷◌, ◌++◌,
  append-nil, append_assoc, map, map-append, Option, some, length, length-append, arith, Bool-cases,
  ◌==◌, nat_eq, beq_refl, get_elem?,
}
use rdt_mail_service.Prelude.Text.{Text, text_eq, codes, is_space, strip, rstrip, split}
use rdt_mail_service.Rdt.Dispatcher.{Addr}
use rdt_mail_service.Connections.{transmit, replies-get_sender}
use rdt_mail_service.Pop3.Numbers.{ℤ, decimal}
use rdt_mail_service.Pop3.Numbers.Decimal.{parse_int-decimal}
use rdt_mail_service.Pop3.Server.{Pop3Server, Env, send_reply, send_lines}
use rdt_mail_service.Smtp.Streams.CommandLines.{all_plain}
use rdt_mail_service.Client.Wire.{Action, ◌>>=◌, return, hear_text, is_ascii}
use rdt_mail_service.Client.Answers.{
  answers_wire, Gives, bind-Gives, return-Gives, hear_text-Gives, is_ascii-append,
}
use rdt_mail_service.Client.Pop3Client.{read_line, two_ints, int_at, read_until_dot}
use rdt_mail_service.Client.Pop3Client.Lines.{
  wire_text, wire_text-heard, IsTidy, append-IsTidy, split_two, decimal-all_plain, length-decimal,
  all_plain-is_ascii,
}

pub replies-send_reply :
    (env : Env) (addr : Addr) (msg : Text) (srv : Pop3Server)
    → (send_reply env addr msg srv).connections.replies
      ≡ srv.connections.replies ++ (addr, wire_text msg) ∷ []
unfolding send_reply transmit
replies-send_reply env addr msg srv =
    ap (λ (rs : List (Addr × Text)). rs ++ (addr, wire_text msg) ∷ [])
      (replies-get_sender addr srv.connections)

abbrev Entry : Type 0
Entry = ℕ × Text × ℕ × Option Text

abbrev pub line_of : Entry → Text
line_of (i, name, size, uid) = decimal i ++ codes " " ++ decimal size

abbrev pub numbers_of : Entry → ℤ × ℤ
numbers_of (i, name, size, uid) = (ℤ.pos i, ℤ.pos size)

abbrev pub header : ℕ → Text
header total = codes "+OK " ++ decimal total ++ codes " messages"

-- The datagrams of a listing.
abbrev pub list_texts : ℕ → List Entry → List Text
list_texts total entries =
    wire_text (header total) ∷ map (λ (e : Entry). wire_text (line_of e)) entries
    ++ wire_text (codes ".") ∷ []

abbrev pub to_addr : Addr → List Text → List (Addr × Text)
to_addr addr ts = map (λ (t : Text). (addr, t)) ts

replies-send_lines :
    (env : Env) (addr : Addr) (entries : List Entry) (srv : Pop3Server)
    → (send_lines env addr entries srv).connections.replies
      ≡ srv.connections.replies ++ to_addr addr (map (λ (e : Entry). wire_text (line_of e)) entries)
unfolding send_lines
replies-send_lines env addr [] srv = sym (append-nil srv.connections.replies)
replies-send_lines env addr ((i, name, size, uid) ∷ rest) srv =
    let line : Text = decimal i ++ codes " " ++ decimal size in
    replies-send_lines env addr rest (send_reply env addr line srv)
    ∙ ap
        (λ (rs : List (Addr × Text)).
          rs ++ to_addr addr (map (λ (e : Entry). wire_text (line_of e)) rest))
        (replies-send_reply env addr line srv)
    ∙ append_assoc srv.connections.replies ((addr, wire_text line) ∷ [])
        (to_addr addr (map (λ (e : Entry). wire_text (line_of e)) rest))

module _ (env : Env) (addr : Addr) (total : ℕ) (entries : List Entry) (srv : Pop3Server) where
  abbrev pub listed : Pop3Server
  listed =
      send_reply env addr (codes ".")
        (send_lines env addr entries (send_reply env addr (header total) srv))

  pub replies-listed :
      listed.connections.replies
      ≡ srv.connections.replies ++ to_addr addr (list_texts total entries)
  replies-listed =
      let lines : List Text = map (λ (e : Entry). wire_text (line_of e)) entries in
      let old : List (Addr × Text) = srv.connections.replies in
      let headed : Pop3Server = send_reply env addr (header total) srv in
      replies-send_reply env addr (codes ".") (send_lines env addr entries headed)
      ∙ ap (λ (rs : List (Addr × Text)). rs ++ (addr, wire_text (codes ".")) ∷ [])
          (replies-send_lines env addr entries headed
            ∙ ap (λ (rs : List (Addr × Text)). rs ++ to_addr addr lines)
                (replies-send_reply env addr (header total) srv)
            ∙ append_assoc old ((addr, wire_text (header total)) ∷ []) (to_addr addr lines))
      ∙ append_assoc old ((addr, wire_text (header total)) ∷ to_addr addr lines)
          ((addr, wire_text (codes ".")) ∷ [])
      ∙ ap (λ (rs : List (Addr × Text)). old ++ (addr, wire_text (header total)) ∷ rs)
          (sym (map-append (λ (t : Text). (addr, t)) lines (wire_text (codes ".") ∷ [])))

two_words-IsTidy :
    (s t : Text)
    → all_plain s ≡ true
    → 1 ≤ length s
    → all_plain t ≡ true
    → 1 ≤ length t
    → IsTidy (s ++ codes " " ++ t)
two_words-IsTidy [] t h k h' k' = absurd (omega arith)
two_words-IsTidy (c ∷ s) t h k h' k' = append-IsTidy c (s ++ codes " ") t (ground arith) h' k'

line_heard :
    (e : Entry)
    → (is_ascii (wire_text (line_of e)) ≡ true) × (strip (wire_text (line_of e)) ≡ line_of e)
line_heard (i, name, size, uid) =
    wire_text-heard (decimal i ++ codes " " ++ decimal size)
      (two_words-IsTidy (decimal i) (decimal size) (decimal-all_plain i) (length-decimal i)
        (decimal-all_plain size) (length-decimal size))
      (is_ascii-append (decimal i ++ codes " ") (decimal size)
        (is_ascii-append (decimal i) (codes " ")
          (all_plain-is_ascii (decimal i) (decimal-all_plain i)) (unfold is_ascii in refl))
        (all_plain-is_ascii (decimal size) (decimal-all_plain size)))

int_at-Gives :
    (parts : List Text) (i n : ℕ) (xs : List Text)
    → get_elem? parts i ≡ some (decimal n)
    → Gives xs xs (ℤ.pos n) (int_at parts i)
unfolding int_at
int_at-Gives parts i n xs h c q = (c, rw (h, parse_int-decimal n) refl, q)

-- Two words that are numbers.
pub two_ints_at :
    (line : Text) (i j m n : ℕ) (xs : List Text)
    → get_elem? (split line) i ≡ some (decimal m)
    → get_elem? (split line) j ≡ some (decimal n)
    → Gives xs xs (ℤ.pos m, ℤ.pos n) (two_ints i j line)
unfolding two_ints
two_ints_at line i j m n xs h k =
    bind-Gives xs xs xs (ℤ.pos m) (ℤ.pos m, ℤ.pos n) (int_at (split line) i)
      (λ (x : ℤ). (do y ← int_at (split line) j; return (x, y)))
      (int_at-Gives (split line) i m xs h)
      (bind-Gives xs xs xs (ℤ.pos n) (ℤ.pos m, ℤ.pos n) (int_at (split line) j)
        (λ (y : ℤ). return (ℤ.pos m, y)) (int_at-Gives (split line) j n xs k)
        (return-Gives xs (ℤ.pos m, ℤ.pos n)))

two_ints-Gives :
    (e : Entry) (xs : List Text) → Gives xs xs (numbers_of e) (two_ints 0 1 (line_of e))
two_ints-Gives (i, name, size, uid) xs =
    let words : split (decimal i ++ codes " " ++ decimal size) ≡ decimal i ∷ decimal size ∷ [] =
      split_two (decimal i) (decimal size) (decimal-all_plain i) (length-decimal i)
        (decimal-all_plain size) (length-decimal size) in
    two_ints_at (decimal i ++ codes " " ++ decimal size) 0 1 i size xs (rw words refl)
      (rw words refl)

not_dot : (e : Entry) → (line_of e == codes ".") ≡ false
not_dot (i, name, size, uid) = elim (Bool-cases (line_of (i, name, size, uid) == codes ".")) [
  | inl y ↦ absurd (
      omega (
        arith,
        ap length ((text_eq.beq_iff (line_of (i, name, size, uid)) (codes ".")).0 y),
        length-append (decimal i ++ codes " ") (decimal size),
        length-append (decimal i) (codes " "),
        length-decimal i,
      ))
  | inr n ↦ n
]

pub dot_heard :
    (is_ascii (wire_text (codes ".")) ≡ true) × (strip (wire_text (codes ".")) ≡ codes ".")
unfolding is_space rstrip
dot_heard = wire_text-heard (codes ".") (refl, refl) (unfold is_ascii in refl)

pub heard-Gives :
    (msg : Text) (xs : List Text)
    → (is_ascii (wire_text msg) ≡ true) × (strip (wire_text msg) ≡ msg)
    → Gives (wire_text msg ∷ xs) xs msg (hear_text answers_wire)
heard-Gives msg xs (a, e) = rw e at (hear_text-Gives (wire_text msg) xs a)

pub read_lines-Gives :
    (rounds : ℕ) (entries : List Entry) (xs : List Text)
    → length entries < rounds
    → Gives
        (map (λ (e : Entry). wire_text (line_of e)) entries ++ wire_text (codes ".") ∷ xs)
        xs
        (map numbers_of entries)
        (read_until_dot answers_wire rounds (two_ints 0 1))
unfolding read_until_dot
read_lines-Gives zero entries xs h = absurd (omega arith)
read_lines-Gives (suc rounds) [] xs h =
    bind-Gives (wire_text (codes ".") ∷ xs) xs xs (codes ".") [] (hear_text answers_wire)
      (read_line (two_ints 0 1) (read_until_dot answers_wire rounds (two_ints 0 1)))
      (heard-Gives (codes ".") xs dot_heard)
      (rw (beq_refl {A = Text} (codes ".")) (return-Gives xs []))
read_lines-Gives (suc rounds) (e ∷ entries) xs h =
    let later : List Text =
      map (λ (e' : Entry). wire_text (line_of e')) entries ++ wire_text (codes ".") ∷ xs in
    let again : Action (List Text) (List (ℤ × ℤ)) =
      read_until_dot answers_wire rounds (two_ints 0 1) in
    bind-Gives (wire_text (line_of e) ∷ later) later xs (line_of e) (map numbers_of (e ∷ entries))
      (hear_text answers_wire) (read_line (two_ints 0 1) again)
      (heard-Gives (line_of e) later (line_heard e))
      (rw (not_dot e) (
        bind-Gives later later xs (numbers_of e) (map numbers_of (e ∷ entries))
          (two_ints 0 1 (line_of e)) (λ item. (do items ← again; return (item ∷ items)))
          (two_ints-Gives e later)
          (bind-Gives later xs xs (map numbers_of entries) (map numbers_of (e ∷ entries)) again
            (λ items. return (numbers_of e ∷ items))
            (read_lines-Gives rounds entries xs (omega arith))
            (return-Gives xs (map numbers_of (e ∷ entries))))))
