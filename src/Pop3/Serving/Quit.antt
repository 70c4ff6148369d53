-- ===== src/Pop3/Serving/Quit.antt =====
-- What QUIT of pop3_server.py deletes.
use rdt_mail_service.Prelude.{
  ℕ, ◌++◌, zero, suc, ◌≡◌, refl, ap, ◌∙◌, inl, inr, Bool, true, ◌||◌, List, [], ◌∷◌, Option, some,
  arith, ltb, ◌==◌, nat_eq, get_elem?, ◌≤◌, length, Bool-cases,
}
use rdt_mail_service.Prelude.Text.{Text, text_eq, codes, cr, lf, ends_with}
use rdt_mail_service.Disk.{path_eq, Faults}
use rdt_mail_service.Auth.User.{User, new_user}
use rdt_mail_service.Mailbox.Reader.{visible}
use rdt_mail_service.Mailbox.Reader.Listing.{list_messages_lem}
use rdt_mail_service.Mailbox.Storage.{Storage, list_messages, delete_email}
use rdt_mail_service.Mailbox.Storage.Deleting.{Readable, Works, delete_email-Readable}
use rdt_mail_service.Rdt.Dispatcher.{Addr}
use rdt_mail_service.Connections.{forget, transmit, end_line, replies-get_sender}
use rdt_mail_service.Pop3.Server.{
  Pop3State, Session, Pop3Server, Env, Messages, Outcome, member, send_reply, encode_replace,
}
use rdt_mail_service.Pop3.Serving.{
  insert_sorted, sort_desc, filename_at, delete_marked, quit_deleted, cmd_quit,
}
use rdt_mail_service.Pop3.Serving.Marks.{
  drop_marked, Numbers, NoNameTwice, NoNameTwice-visible, without_all, has, without_all-kept,
  names_at, name_number, get_elem?-some, kept-drop_marked,
}

filename_at-some :
    (messages : Messages) (i : ℕ) (name : Text) (size : ℕ) (uid : Option Text)
    → get_elem? messages i ≡ some (name, size, uid)
    → filename_at messages (suc i) ≡ some name
unfolding filename_at
filename_at-some messages i name size uid e = ground (arith, e)

has-names_at :
    (messages : Messages)
    → NoNameTwice messages
    → (marked : List ℕ) → Numbers messages marked
    → (j : ℕ) (name : Text) (size : ℕ) (uid : Option Text)
    → get_elem? messages j ≡ some (name, size, uid)
    → has name (names_at messages marked) ≡ member (suc j) marked
has-names_at messages u [] k j name size uid e = refl
has-names_at messages u (zero ∷ marked) k j name size uid e = absurd (omega (arith, k.0))
has-names_at messages u (suc i ∷ marked) k j name size uid e =
    let (name', size', uid', f) = get_elem?-some messages i k.1 in
    ground (
      arith,
      filename_at-some messages i name' size' uid' f,
      name_number messages u i j name' name size' size uid' uid f e,
      has-names_at messages u marked k.2 j name size uid e,
    )

names_at-cons :
    (messages : Messages) (n : ℕ) (ns : List ℕ) (name : Text)
    → filename_at messages n ≡ some name
    → names_at messages (n ∷ ns) ≡ name ∷ names_at messages ns
names_at-cons messages n ns name e = rw (names_at, e) refl

delete_marked-cons :
    (env : Env) (user : User) (messages : Messages) (n : ℕ) (ns : List ℕ) (s : Storage)
    (name : Text)
    → filename_at messages n ≡ some name
    → delete_marked env user messages (n ∷ ns) s
      ≡ delete_marked env user messages ns (delete_email env.io user name s).1
unfolding delete_marked
delete_marked-cons env user messages n ns s name e = rw (delete_marked, e) refl

module _ (env : Env) (user : User) (w : Works env.io user) where
  -- The loop of QUIT deletes the messages of the numbers it is given.
  delete_marked-listing :
      (messages : Messages) (ns : List ℕ) (s : Storage)
      → Numbers messages ns
      → Readable env.io user s.disk
      → ((delete_marked env user messages ns s).0 ≡ true)
        × ((list_messages env.io user (delete_marked env user messages ns s).1).0
            ≡ without_all (names_at messages ns) (list_messages env.io user s).0)
  unfolding delete_marked
  delete_marked-listing messages [] s k r = (refl, refl)
  delete_marked-listing messages (zero ∷ ns) s k r = absurd (omega (arith, k.0))
  delete_marked-listing messages (suc i ∷ ns) s k r =
      let (name, size, uid, f) = get_elem?-some messages i k.1 in
      let s' = (delete_email env.io user name s).1 in
      let deleted = delete_email-Readable env.io user name s w r in
      let rest = delete_marked-listing messages ns s' k.2 deleted.0 in
      let at = filename_at-some messages i name size uid f in
      rw
        (
          delete_marked-cons env user messages (suc i) ns s name at,
          names_at-cons messages (suc i) ns name at,
        )
        (rest.0, rest.1 ∙ ap (without_all (names_at messages ns)) deleted.1)

Numbers-insert_sorted :
    (messages : Messages) (n : ℕ) (ns : List ℕ)
    → 1 ≤ n
    → n ≤ length messages
    → Numbers messages ns
    → Numbers messages (insert_sorted n ns)
unfolding insert_sorted
Numbers-insert_sorted messages n [] l u k = (l, u, tt)
Numbers-insert_sorted messages n (m ∷ ms) l u k = elim (Bool-cases (ltb n m)) [
  | inl less ↦ rw less (k.0, k.1, Numbers-insert_sorted messages n ms l u k.2)
  | inr more ↦ rw more (l, u, k)
]

Numbers-sort_desc :
    (messages : Messages) (ns : List ℕ) → Numbers messages ns → Numbers messages (sort_desc ns)
unfolding sort_desc
Numbers-sort_desc messages [] k = k
Numbers-sort_desc messages (n ∷ ns) k =
    Numbers-insert_sorted messages n (sort_desc ns) k.0 k.1 (Numbers-sort_desc messages ns k.2)

member-insert_sorted :
    (j n : ℕ) (ns : List ℕ) → member j (insert_sorted n ns) ≡ ((n == j) || member j ns)
unfolding insert_sorted
member-insert_sorted j n [] = refl
member-insert_sorted j n (m ∷ ms) = ground (arith, member-insert_sorted j n ms)

-- Sorting keeps the set.
pub member-sort_desc : (j : ℕ) (ns : List ℕ) → member j (sort_desc ns) ≡ member j ns
unfolding sort_desc
member-sort_desc j [] = refl
member-sort_desc j (n ∷ ns) =
    member-insert_sorted j n (sort_desc ns)
    ∙ ap (λ (b : Bool). (n == j) || b) (member-sort_desc j ns)

drop_marked-sort_desc :
    (marked : List ℕ) (i : ℕ) (messages : Messages)
    → drop_marked (sort_desc marked) i messages ≡ drop_marked marked i messages
unfolding drop_marked
drop_marked-sort_desc marked i [] = refl
drop_marked-sort_desc marked i (msg ∷ rest) =
    ground (arith, member-sort_desc i marked, drop_marked-sort_desc marked (suc i) rest)

-- Listing reads, and takes the lock.
listing_again :
    (io : Faults) (user : User) (s : Storage)
    → ((list_messages io user s).1.disk ≡ s.disk)
      × ((list_messages io user (list_messages io user s).1).0 ≡ (list_messages io user s).0)
unfolding list_messages
listing_again io user s = (refl, refl)

listing_visible :
    (io : Faults) (user : User) (s : Storage) (r : Readable io user s.disk)
    → (list_messages io user s).0 ≡ visible r.messages
unfolding list_messages
listing_visible io user s r = list_messages_lem io user s.disk r.messages r.known

module _ (env : Env) (user : User) (s : Storage) (marked : List ℕ) (w : Works env.io user)
    (r : Readable env.io user s.disk) (k : Numbers (list_messages env.io user s).0 marked) where
  abbrev before : Messages
  before = (list_messages env.io user s).0

  abbrev emptied : Bool × Storage
  emptied = delete_marked env user before (sort_desc marked) (list_messages env.io user s).1

  names_once : NoNameTwice before
  names_once = rw (listing_visible env.io user s r) (NoNameTwice-visible r.messages r.unique)

  emptied_lem :
      (emptied.0 ≡ true)
      × ((list_messages env.io user emptied.1).0
          ≡ without_all
              (names_at before (sort_desc marked))
              (list_messages env.io user (list_messages env.io user s).1).0)
  emptied_lem =
      delete_marked-listing env user w before (sort_desc marked) (list_messages env.io user s).1
        (Numbers-sort_desc before marked k) (rw (listing_again env.io user s).0 r)

  emptied-listing : (list_messages env.io user emptied.1).0 ≡ drop_marked marked 1 before
  emptied-listing =
      emptied_lem.1
      ∙ ap (without_all (names_at before (sort_desc marked))) (listing_again env.io user s).1
      ∙ without_all-kept (names_at before (sort_desc marked)) before
      ∙ kept-drop_marked (names_at before (sort_desc marked)) (sort_desc marked) 1 before
          (λ j m name size uid e f.
            has-names_at before names_once (sort_desc marked) (Numbers-sort_desc before marked k) j
              name size uid e
            ∙ ap (λ (n : ℕ). member n (sort_desc marked)) (omega (arith, f)))
      ∙ drop_marked-sort_desc marked 1 before

cmd_quit_lem :
    (env : Env) (addr : Addr) (session : Session) (args : List Text) (srv : Pop3Server)
    (user : User)
    → session.state ≡ Pop3State.transaction
    → new_user session.user [] ≡ some user
    → cmd_quit env addr session args srv ≡ (
        let (messages, storage') = list_messages env.io user srv.storage in
        quit_deleted env addr session
          (delete_marked env user messages (sort_desc session.marked_for_deletion) storage')
          srv)
unfolding cmd_quit
cmd_quit_lem env addr session args srv user t n = ground (arith, t, n)

said_goodbye :
    (env : Env) (addr : Addr) (srv : Pop3Server)
    → (forget addr
        (send_reply env addr (codes "+OK POP3 server signing off") srv).connections).replies
      ≡ srv.connections.replies ++ (addr, codes "+OK POP3 server signing off" ++ cr ∷ lf ∷ []) ∷ []
unfolding send_reply transmit forget encode_replace end_line ends_with text_eq
said_goodbye env addr srv =
    ap
      (λ (rs : List (Addr × Text)).
        rs ++ (addr, codes "+OK POP3 server signing off" ++ cr ∷ lf ∷ []) ∷ [])
      (replies-get_sender addr srv.connections)

-- QUIT in the transaction state, of a user whose metadata.json can be read and written, holds
-- messages, and has no name twice, when the marked numbers are numbers of the listing: it returns,
-- sends the client "+OK POP3 server signing off" and nothing else, and the listing has lost exactly the messages of the marked numbers.
pub cmd_quit-listing :
    (env : Env) (addr : Addr) (session : Session) (args : List Text) (srv : Pop3Server)
    (user : User)
    → session.state ≡ Pop3State.transaction
    → new_user session.user [] ≡ some user
    → Works env.io user
    → Readable env.io user srv.storage.disk
    → Numbers (list_messages env.io user srv.storage).0 session.marked_for_deletion
    → (srv' : Pop3Server) × (cmd_quit env addr session args srv ≡ Outcome.done session srv')
      × (srv'.connections.replies
          ≡ srv.connections.replies
            ++ (addr, codes "+OK POP3 server signing off" ++ cr ∷ lf ∷ []) ∷ [])
      × ((list_messages env.io user srv'.storage).0
          ≡ drop_marked session.marked_for_deletion 1 (list_messages env.io user srv.storage).0)
unfolding send_reply
cmd_quit-listing env addr session args srv user t n w r k =
    let s = emptied env user srv.storage session.marked_for_deletion w r k in
    let replied =
      send_reply env addr (codes "+OK POP3 server signing off") (record srv { storage = s.1 }) in
    (
      record replied { connections = forget addr replied.connections },
      cmd_quit_lem env addr session args srv user t n
          ∙ ap (λ (b : Bool). quit_deleted env addr session (b, s.1) srv)
              (emptied_lem env user srv.storage session.marked_for_deletion w r k).0,
      said_goodbye env addr (record srv { storage = s.1 }),
      emptied-listing env user srv.storage session.marked_for_deletion w r k,
    )
