-- ===== src/Client/Pop3Client/Tests.antt =====
-- The theorems on the POP3 client at a concrete mailbox and concrete answers.
use rdt_mail_service.Prelude.{
  ℕ, ◌<◌, ◌≡◌, refl, arith, true, false, List, [], ◌∷◌, ◌++◌, map, Option, some, length, lookup,
  contains, if◌then◌else◌, ◌==◌,
}
use rdt_mail_service.Prelude.Text.{
  Text, text_eq, codes, cr, lf, starts_with, strip, lstrip, rstrip, is_space,
}
use rdt_mail_service.Disk.{path_eq, mailbox_dir, read_file}
use rdt_mail_service.Mailbox.Reader
use rdt_mail_service.Mailbox.Reader.{visible}
use rdt_mail_service.Mailbox.Storage.{list_messages}
use rdt_mail_service.Pop3.Numbers.{ℤ, decimal, decimal_rounds, show_int}
use rdt_mail_service.Pop3.Server.{
  Pop3State, Session, Messages, Pop3Server, Outcome, undeleted, cmd_list,
}
use rdt_mail_service.Pop3.Tests.{bob, bob_made, client, env, no_faults, server}
use rdt_mail_service.Client.Wire.{Result, Client, is_ascii}
use rdt_mail_service.Client.Answers.{answers_wire}
use rdt_mail_service.Client.Pop3Client.{fetch, list, retr, get_all_messages}
use rdt_mail_service.Client.Pop3Client.Lines.{wire_text}
use rdt_mail_service.Client.Pop3Client.Listing.{list_texts, numbers_of, to_addr}
use rdt_mail_service.Client.Pop3Client.Roundtrip.{list-cmd_list}
use rdt_mail_service.Client.Pop3Client.Outcomes.{Fetched, get_all_messages-Fetched, retr-content}

abbrev client_for : List Text → Client (List Text)
client_for answers = record { wire = answers; is_connected = true; closed = false; log = [] }

abbrev found : Messages
found = (list_messages no_faults bob (server []).storage).0

abbrev left : List (ℕ × Text × ℕ × Option Text)
left = undeleted (2 ∷ []) 1 found

left_short : length left < 5
unfolding list_messages Reader.list_messages Reader.load_metadata visible read_file contains lookup
    path_eq text_eq mailbox_dir undeleted
left_short = omega arith

abbrev session : Session
session = record {
  state = Pop3State.transaction;
  user = some (codes "Bob");
  marked_for_deletion = 2 ∷ [];
}

list-cmd_list_example :
    let c = client_for (list_texts (length found) left) in
    (srv' : Pop3Server) × (cmd_list env client session [] (server []) ≡ Outcome.done session srv')
    × (srv'.connections.replies ≡ to_addr client c.wire)
    × ((list answers_wire 5 c).0 ≡ Result.returned (map numbers_of left))
list-cmd_list_example =
    list-cmd_list env client (codes "Bob") (2 ∷ []) (server []) bob bob_made 5
      (client_for (list_texts (length found) left)) left_short refl

get_all_messages-Fetched_example :
    Fetched answers_wire
      (fetch answers_wire 5 (codes "bob") (codes "pw") (client_for (codes "-ERR" ∷ []))).1
      (get_all_messages answers_wire 5 (codes "bob") (codes "pw") (client_for (codes "-ERR" ∷ [])))
get_all_messages-Fetched_example =
    get_all_messages-Fetched answers_wire 5 (codes "bob") (codes "pw")
      (client_for (codes "-ERR" ∷ []))

asked : is_ascii (codes "RETR " ++ show_int (ℤ.pos 1) ++ cr ∷ lf ∷ []) ≡ true
unfolding is_ascii show_int decimal decimal_rounds
asked = refl

head_ascii : is_ascii (codes "+OK 3 octets") ≡ true
unfolding is_ascii
head_ascii = refl

head_ok : starts_with (strip (codes "+OK 3 octets")) (codes "+OK") ≡ true
unfolding starts_with strip lstrip rstrip is_space
head_ok = refl

content_ascii : is_ascii (codes "." ++ cr ∷ lf ∷ []) ≡ true
unfolding is_ascii
content_ascii = refl

retr-content_example :
    let content = codes "." ++ cr ∷ lf ∷ [] in
    let (r, c') =
      retr answers_wire 2
        (ℤ.pos 1)
        (client_for (codes "+OK 3 octets" ∷ content ∷ wire_text (codes ".") ∷ codes "+OK" ∷ [])) in
    (r ≡ Result.returned (if strip content == codes "." then [] else strip content))
    × (c'.wire ≡ (
        if strip content == codes "."
        then wire_text (codes ".") ∷ codes "+OK" ∷ []
        else codes "+OK" ∷ []))
retr-content_example =
    retr-content 0 (ℤ.pos 1) (codes "+OK 3 octets") (codes "." ++ cr ∷ lf ∷ []) (codes "+OK" ∷ [])
      asked head_ascii head_ok content_ascii
      (client_for (
        codes "+OK 3 octets"
        ∷ (codes "." ++ cr ∷ lf ∷ [])
        ∷ wire_text (codes ".")
        ∷ codes "+OK"
        ∷ []))
      refl
