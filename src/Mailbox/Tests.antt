-- ===== src/Mailbox/Tests.antt =====
-- The theorems on mailboxes at a mailbox with one message.
use rdt_mail_service.Prelude.{
  List, Option, get_elem?, ℕ, ◌≡◌, ◌≢◌, refl, ap, arith, true, false, [], ◌∷◌, ◌++◌, none, some,
  Dict, lookup, contains,
}
use rdt_mail_service.Prelude.Text.{Text, text_eq, codes}
use rdt_mail_service.Disk.{
  is_component, path_eq, metadata_json, Entry, Faults, reading, mailbox_dir, read_file,
}
use rdt_mail_service.Auth.User.{User}
use rdt_mail_service.Mailbox.Email.{EmailData, Payload, Part, scan_parts}
use rdt_mail_service.Mailbox.Email.Bodies.{first_body, scan_parts-first_body}
use rdt_mail_service.Mailbox.Storage.Locks.{Place, Threads, Step, Reach, Reach-same_lock}
use rdt_mail_service.Mailbox.Reader
use rdt_mail_service.Mailbox.Reader.{metadata_path, universal_newlines}
use rdt_mail_service.Mailbox.Reader.Listing.{Unique, without}
use rdt_mail_service.Mailbox.Writer.{filename_of}
use rdt_mail_service.Mailbox.Storage.{
  Storage, save_email, list_messages, get_message_content, delete_email,
}
use rdt_mail_service.Mailbox.Storage.Listings.{save_email-listing, save_email-get_message_content}
use rdt_mail_service.Mailbox.Storage.Deleting.{delete_email-listing}
use rdt_mail_service.Mailbox.Storage.Isolation.{mailboxes_independent}

abbrev no_faults : Faults
no_faults op path = false

-- Nothing can be read.
abbrev unreadable : Faults
unreadable reading path = true
unreadable _ path = false

abbrev user_of : Text → User
user_of name = record { username = name; password = codes "pw"; mailbox_path = mailbox_dir name }

abbrev bob : User
bob = user_of (codes "bob")

abbrev amy : User
amy = user_of (codes "amy")

abbrev entry : Entry
entry = record { uid = some (codes "u1"); size = some 7; deleted = some false }

abbrev messages : Dict Text Entry
messages = (codes "1.msg", entry) ∷ []

abbrev store : Storage
store = record {
  locks = [];
  disk = (metadata_path (codes "bob"), metadata_json (record { messages = some messages })) ∷ [];
}

abbrev email : EmailData
email = record {
  raw_message = some (codes "hello");
  uid = codes "u2";
  subject = [];
  sender = codes "amy@x";
  recipient = codes "bob@x";
  date = [];
  body_html = none;
  body_text = none;
}

known :
    (Reader.load_metadata no_faults (metadata_path (codes "bob")) store.disk).messages
    ≡ some messages
unfolding Reader.load_metadata read_file contains lookup path_eq text_eq mailbox_dir
known = refl

free : contains (filename_of (codes "2")) messages ≡ false
unfolding contains text_eq
free = refl

unique : Unique messages
unfolding contains
unique = (refl, tt)

save_email-listing_example :
    ((save_email no_faults (codes "2") (codes "x") bob email store).0
      ≡ some (mailbox_dir (codes "bob"), codes "2.msg"))
    × ((list_messages no_faults bob
          (save_email no_faults (codes "2") (codes "x") bob email store).1).0
        ≡ (list_messages no_faults bob store).0 ++ (codes "2.msg", 5, some (codes "u2")) ∷ [])
save_email-listing_example =
    save_email-listing no_faults (codes "2") (codes "x") bob email store (codes "hello") messages
      refl known refl free

save_email-get_message_content_example :
    (get_message_content no_faults bob
      (codes "2.msg")
      (save_email no_faults (codes "2") (codes "x") bob email store).1).0
    ≡ some (universal_newlines (codes "hello"))
save_email-get_message_content_example =
    save_email-get_message_content no_faults (codes "2") (codes "x") bob email store (codes "hello")
      messages refl known refl refl refl

delete_email-listing_example :
    ((delete_email no_faults bob (codes "1.msg") store).0 ≡ contains (codes "1.msg") messages)
    × ((list_messages no_faults bob (delete_email no_faults bob (codes "1.msg") store).1).0
        ≡ without (codes "1.msg") (list_messages no_faults bob store).0)
delete_email-listing_example =
    delete_email-listing no_faults bob (codes "1.msg") store messages known refl unique

amy-ne : amy.username ≢ bob.username
amy-ne e = absurd (omega (arith, ap {B = ℕ} (λ (t : Text). elim t [ [] ↦ 0 | c ∷ s ↦ c ]) e))

components : (is_component bob.username ≡ true) × (is_component amy.username ≡ true)
unfolding is_component
components = (refl, refl)

file_component : is_component (codes "1.msg") ≡ true
unfolding is_component
file_component = refl

made_component : is_component (filename_of (codes "2")) ≡ true
unfolding is_component
made_component = refl

mailboxes_independent_example :
    ((list_messages no_faults amy
        (save_email unreadable (codes "2") (codes "x") bob email store).1).0
      ≡ (list_messages no_faults amy store).0)
    × ((list_messages no_faults amy (delete_email unreadable bob (codes "1.msg") store).1).0
        ≡ (list_messages no_faults amy store).0)
    × ((get_message_content no_faults amy
          (codes "1.msg")
          (save_email unreadable (codes "2") (codes "x") bob email store).1).0
        ≡ (get_message_content no_faults amy (codes "1.msg") store).0)
    × ((get_message_content no_faults amy
          (codes "1.msg")
          (delete_email unreadable bob (codes "1.msg") store).1).0
        ≡ (get_message_content no_faults amy (codes "1.msg") store).0)
mailboxes_independent_example =
    mailboxes_independent unreadable (codes "2") (codes "x") bob email (codes "1.msg") store
      no_faults amy (codes "1.msg") amy-ne refl components
      (made_component, file_component, file_component)

abbrev threads : List Place → Threads
threads places = record { locks = (codes "bob", 0) ∷ []; next_lock = 1; places = places }

bob_given :
    Reach
      (threads (Place.testing (codes "bob") ∷ Place.testing (codes "bob") ∷ []))
      (threads (Place.testing (codes "bob") ∷ Place.given (codes "bob") 0 ∷ []))
unfolding lookup contains text_eq
bob_given =
    let tested : Reach (threads (Place.testing (codes "bob") ∷ Place.testing (codes "bob") ∷ []))
        (threads (Place.testing (codes "bob") ∷ Place.reading (codes "bob") ∷ [])) =
      Reach.next Reach.here (Step.test 1 (codes "bob") refl refl) in
    Reach.next tested (Step.read 1 (codes "bob") 0 refl refl refl)

bob_locked : lookup (codes "bob") (threads []).locks ≡ some 0
unfolding lookup text_eq
bob_locked = refl

abbrev after_steps : Threads
after_steps = threads (Place.testing (codes "bob") ∷ Place.given (codes "bob") 0 ∷ [])

Reach-same_lock_example :
    (lookup (codes "bob") after_steps.locks ≡ some 0)
    × ((i l : ℕ) → get_elem? after_steps.places i ≡ some (Place.given (codes "bob") l) → l ≡ 0)
Reach-same_lock_example =
    Reach-same_lock (codes "bob") 0
      (threads (Place.testing (codes "bob") ∷ Place.testing (codes "bob") ∷ [])) after_steps
      bob_locked tt bob_given

abbrev ascii_only : Text → Text → Option Text
ascii_only charset bytes = none

abbrev part : Text → Text → Text → Part
part maintype content_type bytes = record {
  content_type = content_type;
  maintype = maintype;
  charset = none;
  payload = Payload.as_bytes bytes;
}

abbrev alternatives : List Part
alternatives =
    part (codes "multipart") (codes "multipart/alternative") []
    ∷ part (codes "text") (codes "text/plain") (codes "hi")
    ∷ part (codes "text") (codes "text/html") (codes "<p>hi")
    ∷ part (codes "text") (codes "text/plain") (codes "more")
    ∷ []

scan_parts-first_body_example : scan_parts ascii_only (λ (t : Text). t) alternatives none none ≡ (
  first_body ascii_only (λ (t : Text). t) (codes "text/plain") alternatives,
  first_body ascii_only (λ (t : Text). t) (codes "text/html") alternatives,
)
scan_parts-first_body_example =
    scan_parts-first_body ascii_only (λ (t : Text). t) alternatives none none
