-- ===== src/Client/Pop3Client/Roundtrip.antt =====
-- LIST and STAT, from pop3_client.py to pop3_server.py and back.
use rdt_mail_service.Prelude.{
  ℕ, ◌<◌, ◌≡◌, refl, ap, ◌∙◌, true, List, [], ◌∷◌, ◌++◌, append_assoc, map, Option, some, length,
  arith, nat_eq,
}
use rdt_mail_service.Prelude.Text.{Text, text_eq, codes, is_space, strip, split, starts_with}
use rdt_mail_service.Auth.User.{User, new_user}
use rdt_mail_service.Mailbox.Storage.{list_messages}
use rdt_mail_service.Rdt.Dispatcher.{Addr}
use rdt_mail_service.Pop3.Numbers.{ℤ, decimal}
use rdt_mail_service.Pop3.Server.{
  Pop3State, Session, Pop3Server, Env, Outcome, Messages, with_messages, send_reply, undeleted,
  sum_sizes, cmd_list, cmd_stat,
}
use rdt_mail_service.Client.Wire.{
  Failure, Result, Client, Action, ◌>>=◌, ◌>>◌, hear_text, send_command, is_ascii,
}
use rdt_mail_service.Client.Answers.{
  answers_wire, Gives, bind-Gives, seq-Gives, return-Gives, send_command-Gives, is_ascii-append,
}
use rdt_mail_service.Client.Pop3Client.{accepted, two_ints, expect_ok, read_until_dot, list, stat}
use rdt_mail_service.Client.Pop3Client.Lines.{
  split_cons, split_two, wire_text, wire_text-heard, IsTidy, append-IsTidy, decimal-all_plain,
  length-decimal, all_plain-is_ascii,
}
use rdt_mail_service.Client.Pop3Client.Listing.{
  header, line_of, numbers_of, two_ints_at, replies-send_reply, list_texts, to_addr, listed,
  replies-listed, heard-Gives, read_lines-Gives,
}

header-IsTidy : (total : ℕ) → IsTidy (header total)
header-IsTidy total =
    rw (append_assoc (codes "OK " ++ decimal total) (codes " ") (codes "messages")) at (
      append-IsTidy b'+' (codes "OK " ++ decimal total ++ codes " ") (codes "messages")
        (unfold is_space in refl) (unfold is_space in refl) (omega arith))

header_heard :
    (total : ℕ)
    → (is_ascii (wire_text (header total)) ≡ true)
      × (strip (wire_text (header total)) ≡ header total)
header_heard total = wire_text-heard (header total) (header-IsTidy total) (
    is_ascii-append (codes "+OK " ++ decimal total) (codes " messages")
      (is_ascii-append (codes "+OK ") (decimal total) (unfold is_ascii in refl)
        (all_plain-is_ascii (decimal total) (decimal-all_plain total)))
      (unfold is_ascii in refl))

-- A reply that starts with "+OK" lets the client go on.
expect_ok-Gives :
    (e : Failure) (rest : Text) (xs : List Text)
    → (is_ascii (wire_text (codes "+OK" ++ rest)) ≡ true)
      × (strip (wire_text (codes "+OK" ++ rest)) ≡ codes "+OK" ++ rest)
    → Gives (wire_text (codes "+OK" ++ rest) ∷ xs) xs tt (expect_ok answers_wire e)
unfolding accepted starts_with
expect_ok-Gives e rest xs h =
    bind-Gives (wire_text (codes "+OK" ++ rest) ∷ xs) xs xs (codes "+OK" ++ rest) tt
      (hear_text answers_wire) (accepted e) (heard-Gives (codes "+OK" ++ rest) xs h)
      (return-Gives xs tt)

list-Gives :
    (rounds total : ℕ) (entries : List (ℕ × Text × ℕ × Option Text))
    → length entries < rounds
    → Gives (list_texts total entries) [] (map numbers_of entries) (list answers_wire rounds)
unfolding list
list-Gives rounds total entries h =
    let lines : List Text =
      map (λ e. wire_text (line_of e)) entries ++ wire_text (codes ".") ∷ [] in
    let again : Action (List Text) (List (ℤ × ℤ)) =
      read_until_dot answers_wire rounds (two_ints 0 1) in
    let e : Failure = Failure.client_protocol_error in
    seq-Gives (list_texts total entries) (list_texts total entries) [] (map numbers_of entries)
      (send_command answers_wire (codes "LIST")) (do expect_ok answers_wire e; again)
      (send_command-Gives (codes "LIST") (list_texts total entries) (unfold is_ascii in refl))
      (seq-Gives (list_texts total entries) lines [] (map numbers_of entries)
        (expect_ok answers_wire e) again
        (expect_ok-Gives e (codes " " ++ decimal total ++ codes " messages") lines
          (header_heard total))
        (read_lines-Gives rounds entries [] h))

abbrev pub totals : ℕ → ℕ → Text
totals count total = codes "+OK " ++ decimal count ++ codes " " ++ decimal total

totals_heard :
    (count total : ℕ)
    → (is_ascii (wire_text (totals count total)) ≡ true)
      × (strip (wire_text (totals count total)) ≡ totals count total)
totals_heard count total =
    wire_text-heard (totals count total)
      (append-IsTidy b'+' (codes "OK " ++ decimal count ++ codes " ") (decimal total)
        (unfold is_space in refl) (decimal-all_plain total) (length-decimal total))
      (is_ascii-append (codes "+OK " ++ decimal count ++ codes " ") (decimal total)
        (is_ascii-append (codes "+OK " ++ decimal count) (codes " ")
          (is_ascii-append (codes "+OK ") (decimal count) (unfold is_ascii in refl)
            (all_plain-is_ascii (decimal count) (decimal-all_plain count)))
          (unfold is_ascii in refl))
        (all_plain-is_ascii (decimal total) (decimal-all_plain total)))

split-totals :
    (count total : ℕ)
    → split (totals count total) ≡ codes "+OK" ∷ decimal count ∷ decimal total ∷ []
split-totals count total =
    split_cons (codes "+OK") (decimal count ++ codes " " ++ decimal total) (unfold is_space in refl)
      (omega arith)
    ∙ ap (λ (ws : List Text). codes "+OK" ∷ ws)
        (split_two (decimal count) (decimal total) (decimal-all_plain count) (length-decimal count)
          (decimal-all_plain total) (length-decimal total))

stat-Gives :
    (count total : ℕ)
    → Gives (wire_text (totals count total) ∷ []) [] (ℤ.pos count, ℤ.pos total) (stat answers_wire)
unfolding stat accepted starts_with
stat-Gives count total =
    let text : Text = totals count total in
    let xs : List Text = wire_text text ∷ [] in
    let e : Failure = Failure.client_protocol_error in
    seq-Gives xs xs [] (ℤ.pos count, ℤ.pos total) (send_command answers_wire (codes "STAT"))
      (do reply ← hear_text answers_wire; accepted e reply; two_ints 1 2 reply)
      (send_command-Gives (codes "STAT") xs (unfold is_ascii in refl))
      (bind-Gives xs [] [] text (ℤ.pos count, ℤ.pos total) (hear_text answers_wire)
        (λ (reply : Text). (do accepted e reply; two_ints 1 2 reply))
        (heard-Gives text [] (totals_heard count total))
        (seq-Gives [] [] [] (ℤ.pos count, ℤ.pos total) (accepted e text) (two_ints 1 2 text)
          (return-Gives [] tt)
          (two_ints_at text 1 2 count total [] (rw (split-totals count total) refl)
            (rw (split-totals count total) refl))))

module _ (env : Env) (addr : Addr) (name : Text) (marked : List ℕ) (srv : Pop3Server) (user : User)
    (valid : new_user (some name) [] ≡ some user) where
  abbrev pub opened : Session
  opened = record { state = Pop3State.transaction; user = some name; marked_for_deletion = marked }

  abbrev found : Messages
  found = (list_messages env.io user srv.storage).0

  abbrev left : List (ℕ × Text × ℕ × Option Text)
  left = undeleted marked 1 found

  -- In a session that is logged in as a valid user: LIST replies with a listing, and `list` of a
  -- client to whom just these replies come, with rounds for more lines than the listing has,
  -- returns the number and the size of every message that is not marked, in order.
  pub list-cmd_list :
      (rounds : ℕ) (c : Client (List Text))
      → length left < rounds
      → c.wire ≡ list_texts (length found) left
      → (srv' : Pop3Server) × (cmd_list env addr opened [] srv ≡ Outcome.done opened srv')
        × (srv'.connections.replies ≡ srv.connections.replies ++ to_addr addr c.wire)
        × ((list answers_wire rounds c).0 ≡ Result.returned (map numbers_of left))
  unfolding cmd_list
  list-cmd_list rounds c h e =
      let (messages, storage') = list_messages env.io user srv.storage in
      let (c', r, e') = list-Gives rounds (length found) left h c e in
      (
        listed env addr (length found) left (record srv { storage = storage' }),
        rw (cmd_list, with_messages, valid) refl,
        rw e (replies-listed env addr (length found) left (record srv { storage = storage' })),
        rw r refl,
      )

  -- In a session that is logged in as a valid user: STAT replies with one datagram, and `stat` of a
  -- client to whom just this reply comes returns the number of the messages that are not marked, and
  -- the sum of their sizes.
  pub stat-cmd_stat :
      (c : Client (List Text))
      → c.wire ≡ wire_text (totals (length left) (sum_sizes left)) ∷ []
      → (srv' : Pop3Server) × (cmd_stat env addr opened [] srv ≡ Outcome.done opened srv')
        × (srv'.connections.replies ≡ srv.connections.replies ++ to_addr addr c.wire)
        × ((stat answers_wire c).0 ≡ Result.returned (ℤ.pos (length left), ℤ.pos (sum_sizes left)))
  unfolding cmd_stat
  stat-cmd_stat c e =
      let (messages, storage') = list_messages env.io user srv.storage in
      let (c', r, e') = stat-Gives (length left) (sum_sizes left) c e in
      (
        send_reply env addr (totals (length left) (sum_sizes left))
            (record srv { storage = storage' }),
        rw (cmd_stat, with_messages, valid) refl,
        rw e (
            replies-send_reply env addr (totals (length left) (sum_sizes left))
              (record srv { storage = storage' })),
        rw r refl,
      )
