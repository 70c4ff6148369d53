-- ===== src/Smtp/Streams/Deliveries.antt =====
-- The end of a message, in smtp_server.py: where it goes and what the client is told.
use rdt_mail_service.Prelude.{
  ℕ, ◌≡◌, refl, inl, inr, Bool, false, ◌&&◌, List, [], ◌∷◌, ◌++◌, Option, none, some, Dict,
  contains, take, Bool-cases, if◌then◌else◌,
}
use rdt_mail_service.Prelude.Text.{Text, text_eq, codes, find}
use rdt_mail_service.Disk.{FileOp, FilePath, Entry, mailbox_dir}
use rdt_mail_service.Auth.User.{User}
use rdt_mail_service.Auth.UserManager.{get_user}
use rdt_mail_service.Mailbox.Reader
use rdt_mail_service.Mailbox.Reader.{metadata_path}
use rdt_mail_service.Mailbox.Writer.{filename_of}
use rdt_mail_service.Mailbox.Storage.{Storage, save_email, list_messages}
use rdt_mail_service.Mailbox.Storage.Saving.{placed, recorded, appended}
use rdt_mail_service.Mailbox.Storage.Listings.{save_email-listing}
use rdt_mail_service.Rdt.Dispatcher.{Addr}
use rdt_mail_service.Connections.{end_line}
use rdt_mail_service.Smtp.Session.{SmtpState, LineBuffer, Session}
use rdt_mail_service.Smtp.Server.{
  SmtpServer, Parsed, Env, send_reply, cmd_mail, cmd_rcpt, cmd_data, address_after,
}
use rdt_mail_service.Smtp.Server.Handlers.{replies-send_reply, storage-send_reply}
use rdt_mail_service.Smtp.Streams.{
  local_part, email_of, saved_reply, deliver_to, finalize_message, handle_data_stream,
  smtp_terminator, process_session,
}

-- The session when its message is complete.
abbrev complete : Session → Session
complete session = record session {
  data_buffer = [];
  line_buffer = LineBuffer.separate [];
  state = SmtpState.wait_for_mail_from;
}

module _ (env : Env) (addr : Addr) (session : Session) (packet : Text) (srv : SmtpServer) (idx : ℕ)
    (p : Parsed) (rcpt_addr : Text) (others : List Text)
    (reading : session.state ≡ SmtpState.reading_data_stream)
    (recipients : session.rcpt_to ≡ rcpt_addr ∷ others)
    (ends : find smtp_terminator (session.data_buffer ++ packet) ≡ some idx)
    (parsed : env.parsebytes (take idx (session.data_buffer ++ packet)) ≡ some p) where
  finalized :
      process_session env addr packet session srv
      ≡ deliver_to env addr
          (complete session)
          p
          rcpt_addr
          (get_user (local_part rcpt_addr) srv.user_manager)
          srv
  unfolding process_session handle_data_stream finalize_message
  finalized = rw (reading, ends, parsed, recipients) refl

  -- A message for a name that has no account is rejected and stored nowhere.
  rejected :
      get_user (local_part rcpt_addr) srv.user_manager ≡ none
      → process_session env addr packet session srv
        ≡ (complete session, send_reply env addr (codes "550 No such user") srv)
  rejected e = rw (finalized, e)

  -- A session reads a message, a packet brings the first CR LF . CR LF, and the parser accepts what
  -- stands before it. If the first recipient has no account, the client is told so and nothing is
  -- stored; but the recipient stays in the session. So after any MAIL and RCPT that are accepted,
  -- and DATA, the session reads the next message with that same recipient as its first.
  pub rejected_recipient_stays :
      (arg arg' sender recipient : Text)
      → get_user (local_part rcpt_addr) srv.user_manager ≡ none
      → address_after (codes "FROM:") arg ≡ some sender
      → address_after (codes "TO:") arg' ≡ some recipient
      → let (s1, srv1) = process_session env addr packet session srv in
        let (s2, srv2) = cmd_mail env addr s1 arg srv1 in
        let (s3, srv3) = cmd_rcpt env addr s2 arg' srv2 in
        let (s4, srv4) = cmd_data env addr s3 [] srv3 in
        (srv1.connections.replies
          ≡ srv.connections.replies ++ (addr, end_line (codes "550 No such user")) ∷ [])
        × (srv1.storage ≡ srv.storage)
        × (s4.state ≡ SmtpState.reading_data_stream)
        × (s4.rcpt_to ≡ rcpt_addr ∷ others ++ recipient ∷ [])
  unfolding cmd_mail cmd_rcpt cmd_data
  rejected_recipient_stays arg arg' sender recipient e f t =
      rw (rejected e, f, t, recipients)
        (
          replies-send_reply env addr (codes "550 No such user") srv,
          storage-send_reply env addr (codes "550 No such user") srv,
          refl,
          refl,
        )

  module _ (user : User) (text : Text) (messages : Dict Text Entry)
      (found : get_user (local_part rcpt_addr) srv.user_manager ≡ some user)
      (given : (email_of env p rcpt_addr).raw_message ≡ some text)
      (known : (Reader.load_metadata env.io (metadata_path user.username) srv.storage.disk).messages
        ≡ some messages) where
    abbrev is_placed : Bool
    is_placed =
        placed env.io env.stamp env.new_uid user (email_of env p rcpt_addr) srv.storage.disk text
          given

    abbrev is_recorded : Bool
    is_recorded =
        recorded env.io env.stamp env.new_uid user (email_of env p rcpt_addr) srv.storage.disk text
          given

    abbrev saved : Option FilePath × Storage
    saved = save_email env.io env.stamp env.new_uid user (email_of env p rcpt_addr) srv.storage

    accepted :
        process_session env addr packet session srv
        ≡ saved_reply env addr (complete session) saved.0 (record srv { storage = saved.1 })
    accepted = rw (finalized, found) refl

    -- A session reads a message, a packet brings the first CR LF . CR LF, the parser accepts what
    -- stands before it and gives it a text, and the first recipient has an account whose
    -- metadata.json can be read, has messages and has none of the new name. Then, whichever other
    -- calls raise: the client is told 250 exactly if the message has its place in the mailbox, and
    -- 451 else; the listing grows at its end by the message exactly if metadata.json was written as
    -- well, and is else what it was; the session waits for the next sender; and the recipients are
    -- forgotten exactly with a reply 250.
    pub message_outcome :
        env.io FileOp.reading (metadata_path user.username) ≡ false
        → contains (filename_of env.stamp) messages ≡ false
        → let (session', srv') = process_session env addr packet session srv in
          (srv'.connections.replies
            ≡ srv.connections.replies
              ++ (
                addr,
                end_line (
                    if is_placed
                    then codes "250 OK: Message accepted for delivery"
                    else codes "451 Local processing error"),
              )
                ∷ [])
          × ((list_messages env.io user srv'.storage).0
              ≡ (list_messages env.io user srv.storage).0
                ++ (if is_placed && is_recorded
                    then appended env.io env.stamp env.new_uid user
                        (email_of env p rcpt_addr)
                        srv.storage.disk
                        text
                        given
                        messages
                        known
                    else []))
          × (session'.state ≡ SmtpState.wait_for_mail_from)
          × (session'.rcpt_to ≡ (if is_placed then [] else rcpt_addr ∷ others))
    message_outcome reads free =
        let listing =
          save_email-listing env.io env.stamp env.new_uid user (email_of env p rcpt_addr)
            srv.storage text messages given known reads free in
        let srv1 : SmtpServer = record srv { storage = saved.1 } in
        elim (Bool-cases is_placed) [
          | inl works ↦
              let path : saved.0 ≡ some (mailbox_dir user.username, filename_of env.stamp) =
                rw works at listing.0 in
              rw (accepted, path, works)
                (
                  replies-send_reply env addr (codes "250 OK: Message accepted for delivery") srv1,
                  rw
                      (storage-send_reply env addr (codes "250 OK: Message accepted for delivery")
                        srv1)
                      (rw works at listing.1),
                  refl,
                  refl,
                )
          | inr fails ↦
              let path : saved.0 ≡ none = rw fails at listing.0 in
              rw (accepted, path, fails)
                (
                  replies-send_reply env addr (codes "451 Local processing error") srv1,
                  rw (storage-send_reply env addr (codes "451 Local processing error") srv1)
                      (rw fails at listing.1),
                  refl,
                  recipients,
                )
        ]
