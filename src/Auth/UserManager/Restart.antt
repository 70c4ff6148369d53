-- ===== src/Auth/UserManager/Restart.antt =====
-- What users.json gives back after a restart, in user_manager.py.
use rdt_mail_service.Prelude.{
  ◌≡◌, ◌≢◌, refl, sym, ap, ◌∙◌, true, false, List, [], ◌∷◌, ◌++◌, map, map-append, append_assoc,
  append-nil, Option, none, some, arith, beq_refl, Dict, lookup, contains, insert, insert-append,
  length,
}
use rdt_mail_service.Prelude.Text.{Text, text_eq, lower, lower_idem, codes}
use rdt_mail_service.Disk.{
  Disk, FilePath, path_eq, users_json, metadata_json, UserRecord, FileOp, Faults, tmp_of,
  user_db_file, mailbox_dir,
}
use rdt_mail_service.Disk.Laws.{
  lookup-write_file, lookup-atomic_write, atomic_write_done, tmp_differs,
}
use rdt_mail_service.Auth.User.{User, is_blank, to_dict, from_dict}
use rdt_mail_service.Auth.UserManager.{
  UserManager, values, keep_user, load_records, initialize, save_users, create_mailbox, create_user,
}
use rdt_mail_service.Auth.UserManager.Accounts.{account, Created, create_user-Created}

-- An account that is written so that it can be read: its key is its name in lower case, and
-- neither the name nor the password is blank.
pub record IsRestorable (key : Text) (u : User) : Type 0 where
  pub name : u.username ≡ key
  pub path : u.mailbox_path ≡ mailbox_dir key
  pub lowered : lower key ≡ key
  pub named : is_blank key ≡ false
  pub secret : is_blank u.password ≡ false

abbrev pub Restorable : Dict Text User → Type 0
Restorable [] = Unit
Restorable ((key, u) ∷ users) = IsRestorable key u × Restorable users

-- No account of the second list has its key in the first, nor twice.
abbrev pub Fresh : Dict Text User → Dict Text User → Type 0
Fresh before [] = Unit
Fresh before ((key, u) ∷ users) =
    (contains key before ≡ false) × Fresh (before ++ (key, u) ∷ []) users

from_dict-to_dict : (key : Text) (u : User) → IsRestorable key u → from_dict (to_dict u) ≡ some u
unfolding from_dict to_dict
from_dict-to_dict key u h = ground (arith, h.name, h.path, h.lowered, h.named, h.secret)

load_records-cons :
    (r : UserRecord) (u : User) (rest : List UserRecord) (users : Dict Text User)
    → from_dict r ≡ some u
    → load_records (r ∷ rest) users ≡ load_records rest (insert u.username u users)
unfolding load_records
load_records-cons r u rest users e = rw e

load_records-values :
    (before users : Dict Text User)
    → Restorable users
    → Fresh before users
    → load_records (map to_dict (values users)) before ≡ before ++ users
load_records-values before [] h f = (unfold load_records in sym (append-nil before))
load_records-values before ((key, u) ∷ users) h f =
    load_records-cons (to_dict u) u (map to_dict (values users)) before
      (from_dict-to_dict key u h.0)
    ∙ ap (λ (k : Text). load_records (map to_dict (values users)) (insert k u before)) h.0.name
    ∙ ap (load_records (map to_dict (values users))) (insert-append key u before f.0)
    ∙ load_records-values (before ++ (key, u) ∷ []) users h.1 f.1
    ∙ append_assoc before ((key, u) ∷ []) users

-- The accounts of a manager as they are on disk, if nothing raises.
saved :
    (io : Faults) (m : UserManager) (disk : Disk)
    → io FileOp.writing (tmp_of user_db_file) ≡ false
    → io FileOp.replacing user_db_file ≡ false
    → lookup user_db_file (save_users io m disk) ≡ some (users_json (map to_dict (values m.users)))
unfolding save_users
saved io m disk h k =
    let records = users_json (map to_dict (values m.users)) in
    lookup-atomic_write io user_db_file records disk user_db_file
      (λ e. tmp_differs user_db_file (sym e))
    ∙ rw (atomic_write_done io user_db_file records disk h k, beq_refl {A = FilePath} user_db_file)
        refl

-- `initialize` on a disk whose users.json holds these records.
pub initialize-lookup :
    (io : Faults) (disk : Disk) (records : List UserRecord)
    → io FileOp.reading user_db_file ≡ false
    → lookup user_db_file disk ≡ some (users_json records)
    → (initialize io disk).users ≡ load_records records []
unfolding initialize
initialize-lookup io disk records h e = rw (h, e)

-- The mailbox of an account is no users.json.
mailbox_ne : (username name : Text) → (mailbox_dir username, name) ≢ user_db_file
unfolding mailbox_dir
mailbox_ne username name e = absurd (omega (arith, ap (λ (p : FilePath). length p.0) e))

lookup-create_mailbox :
    (io : Faults) (user : User) (disk : Disk)
    → user.mailbox_path ≡ mailbox_dir user.username
    → lookup user_db_file (create_mailbox io user disk) ≡ lookup user_db_file disk
unfolding create_mailbox
lookup-create_mailbox io user disk e =
    let path : FilePath = (user.mailbox_path, codes "metadata.json") in
    ground (
      arith,
      lookup-write_file io path user_db_file (metadata_json (record { messages = some [] })) disk
          (λ same.
            mailbox_ne user.username (codes "metadata.json")
              (ap (λ d. (d, codes "metadata.json")) (sym e) ∙ sym same)),
    )

-- Accounts that are restorable survive a restart.
pub initialize-save_users :
    (io : Faults) (m : UserManager) (disk : Disk)
    → io FileOp.writing (tmp_of user_db_file) ≡ false
    → io FileOp.replacing user_db_file ≡ false
    → io FileOp.reading user_db_file ≡ false
    → Restorable m.users
    → Fresh [] m.users
    → (initialize io (save_users io m disk)).users ≡ m.users
initialize-save_users io m disk w r i h f =
    initialize-lookup io (save_users io m disk) (map to_dict (values m.users)) i
      (saved io m disk w r)
    ∙ load_records-values [] m.users h f

Restorable-append :
    (users : Dict Text User) (key : Text) (u : User)
    → Restorable users
    → IsRestorable key u
    → Restorable (users ++ (key, u) ∷ [])
Restorable-append [] key u h k = (k, tt)
Restorable-append (x ∷ users) key u h k = (h.0, Restorable-append users key u h.1 k)

Fresh-append :
    (before users : Dict Text User) (key : Text) (u : User)
    → Fresh before users
    → contains key (before ++ users) ≡ false
    → Fresh before (users ++ (key, u) ∷ [])
Fresh-append before [] key u h k = (rw append-nil at k, tt)
Fresh-append before ((j, v) ∷ users) key u h k = (
  h.0,
  Fresh-append (before ++ (j, v) ∷ []) users key u h.1
      (rw (append_assoc before ((j, v) ∷ []) users) k),
)

values-append :
    (users : Dict Text User) (key : Text) (u : User)
    → values (users ++ (key, u) ∷ []) ≡ values users ++ u ∷ []
values-append [] key u = refl
values-append ((j, v) ∷ users) key u = ap (λ (us : List User). v ∷ us) (values-append users key u)

load_records-append :
    (rest : List UserRecord) (r : UserRecord) (users : Dict Text User)
    → load_records (rest ++ r ∷ []) users ≡ keep_user (from_dict r) (load_records rest users)
unfolding load_records
load_records-append [] r users = refl
load_records-append (x ∷ rest) r users = load_records-append rest r (keep_user (from_dict x) users)

from_dict-blank : (u : User) → is_blank u.password ≡ true → from_dict (to_dict u) ≡ none
unfolding from_dict to_dict
from_dict-blank u h = ground arith

account-IsRestorable :
    (username password : Text)
    → is_blank (lower username) ≡ false
    → is_blank password ≡ false
    → IsRestorable (lower username) (account username password)
account-IsRestorable username password h k = record {
  name = refl;
  path = refl;
  lowered = lower_idem username;
  named = h;
  secret = k;
}

module _ (io : Faults) (username password : Text) (m m' : UserManager) (disk disk' : Disk)
    (user : User) (w : io FileOp.writing (tmp_of user_db_file) ≡ false)
    (r : io FileOp.replacing user_db_file ≡ false) (i : io FileOp.reading user_db_file ≡ false)
    (h : Restorable m.users) (f : Fresh [] m.users)
    (e : create_user io username password m disk ≡ some (user, m', disk')) where
  made : Created io username password m disk user m' disk'
  made = create_user-Created io username password m disk e

  users-append : m'.users ≡ m.users ++ (lower username, account username password) ∷ []
  users-append =
      made.stored ∙ insert-append (lower username) (account username password) m.users made.free

  restarted : (initialize io disk').users ≡ load_records (map to_dict (values m'.users)) []
  restarted = initialize-lookup io disk' (map to_dict (values m'.users)) i (
      rw made.written (
        lookup-create_mailbox io (account username password) (save_users io m' disk) refl
        ∙ saved io m' disk w r))

  -- If the database file can be written and read, all accounts are restorable (the key is the name
  -- in lower case, name and password are not blank) with no key twice, and an account is made with
  -- a password that is not blank: then a restart gives back all accounts with the new one, each
  -- under its name, and they are all restorable again, with no key twice.
  pub create_user_survives :
      is_blank password ≡ false
      → ((initialize io disk').users ≡ m'.users) × Restorable m'.users × Fresh [] m'.users
  create_user_survives secret =
      let safe : Restorable m'.users = rw users-append (
        Restorable-append m.users (lower username) (account username password) h
          (account-IsRestorable username password made.named secret)) in
      let unique : Fresh [] m'.users =
        rw users-append
          (Fresh-append [] m.users (lower username) (account username password) f made.free) in
      (restarted ∙ load_records-values [] m'.users safe unique, safe, unique)

  -- If the database file can be written and read, and all accounts are restorable with no key twice:
  -- an account that is made with a blank password is gone after a restart, which gives back the
  -- accounts of before.
  pub blank_password_lost : is_blank password ≡ true → (initialize io disk').users ≡ m.users
  blank_password_lost blank =
      restarted
      ∙ ap (λ (us : Dict Text User). load_records (map to_dict (values us)) []) users-append
      ∙ ap (λ (us : List User). load_records (map to_dict us) [])
          (values-append m.users (lower username) (account username password))
      ∙ ap (λ (rs : List UserRecord). load_records rs [])
          (map-append to_dict (values m.users) (account username password ∷ []))
      ∙ load_records-append (map to_dict (values m.users)) (to_dict (account username password)) []
      ∙ ap (λ (o : Option User). keep_user o (load_records (map to_dict (values m.users)) []))
          (from_dict-blank (account username password) blank)
      ∙ load_records-values [] m.users h f
