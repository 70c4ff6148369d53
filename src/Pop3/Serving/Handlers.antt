-- ===== src/Pop3/Serving/Handlers.antt =====
-- The handlers of pop3_server.py that need a mailbox keep a session authorized.
use rdt_mail_service.Prelude.{
  ℕ, ◌≡◌, refl, Bool, true, false, List, [], ◌∷◌, ◌++◌, Option, none, some, length,
}
use rdt_mail_service.Prelude.Text.{Text, text_eq, codes}
use rdt_mail_service.Auth.User.{User, new_user}
use rdt_mail_service.Mailbox.Storage.{Storage, list_messages, get_message_content}
use rdt_mail_service.Rdt.Dispatcher.{Addr, addr_eq}
use rdt_mail_service.Rdt.Sender.{Sent, acked, connection_error, struct_error, os_error}
use rdt_mail_service.Pop3.Numbers.{ℤ, parse_int, decimal}
use rdt_mail_service.Pop3.Server.{
  Session, Pop3Server, Env, send_reply, cmd_list, send_lines, selected, undeleted,
}
use rdt_mail_service.Pop3.Serving.{
  sent_content, send_content, retr_content, retr_one, dele_one, quit_deleted, sign_off,
  delete_marked, sort_desc, cmd_retr, cmd_dele, cmd_quit, is_ascii,
}
use rdt_mail_service.Connections.{transmit}
use rdt_mail_service.Pop3.Serving.Access.{
  Authorized, Good, IsGood, Good-reply, Good-reply_after, Good-state, Good-args, Good-option,
  Good-if, send_lines-keeps, list_number-Good,
}

module _ (said : Text → Type 0) where
  listed_keeps :
      (env : Env) (addr : Addr) (msg : Text) (lines : List (ℕ × Text × ℕ × Option Text))
      (srv : Pop3Server)
      → ((send_lines env addr lines (send_reply env addr msg srv)).user_manager ≡ srv.user_manager)
        × ((send_lines env addr lines (send_reply env addr msg srv)).sessions ≡ srv.sessions)
  unfolding send_reply
  listed_keeps env addr msg lines srv =
      send_lines-keeps said env addr lines (send_reply env addr msg srv)

  pub cmd_list-IsGood : IsGood said cmd_list
  unfolding cmd_list
  cmd_list-IsGood env addr s args srv k =
      Good-state said srv.user_manager srv.sessions s.state _ _
        (λ h. Good-reply said env addr _ s srv k)
        (λ h. Good-option said srv.user_manager srv.sessions (new_user s.user []) _ _ tt (λ user.
          let messages = (list_messages env.io user srv.storage).0 in
          let srv1 : Pop3Server = record srv {
            storage = (list_messages env.io user srv.storage).1;
          } in
          Good-args said srv.user_manager srv.sessions args _ _
            (let headed =
                send_reply env addr (codes "+OK " ++ decimal (length messages) ++ codes " messages")
                  srv1 in
              Good-reply_after said env addr (codes ".") s srv
                (send_lines env addr (undeleted s.marked_for_deletion 1 messages) headed) k
                (listed_keeps env addr
                  (codes "+OK " ++ decimal (length messages) ++ codes " messages")
                  (undeleted s.marked_for_deletion 1 messages) srv1))
            (λ arg rest. list_number-Good said env addr s messages (parse_int arg) srv1 k)))

  module _ (env : Env) (addr : Addr) (s : Session) where
    send_content-Good :
        (content : Text) (srv : Pop3Server)
        → Authorized said srv.user_manager s
        → Good said srv.user_manager srv.sessions (send_content env addr s content srv)
    unfolding send_content
    send_content-Good content srv k =
        let (sent, connections') = transmit env.network addr content srv.connections in
        Good-if said srv.user_manager srv.sessions (is_ascii content) _ _
          (sent_content-Good sent (record srv { connections = connections' }) k)
          (Good-reply said env addr _ s srv k)
      where
        sent_content-Good :
            (sent : Sent) (srv1 : Pop3Server)
            → Authorized said srv1.user_manager s
            → Good said srv1.user_manager srv1.sessions (sent_content env addr s (sent, srv1))
        sent_content-Good acked srv1 k = Good-reply said env addr _ s srv1 k
        sent_content-Good connection_error srv1 k = tt
        sent_content-Good struct_error srv1 k = tt
        sent_content-Good os_error srv1 k = tt

    retr_content-Good :
        (o : Option Text) (srv : Pop3Server)
        → Authorized said srv.user_manager s
        → Good said srv.user_manager srv.sessions (retr_content env addr s o srv)
    unfolding send_reply
    retr_content-Good none srv k =
        Good-reply said env addr (codes "-ERR could not retrieve message") s srv k
    retr_content-Good (some []) srv k =
        Good-reply said env addr (codes "-ERR could not retrieve message") s srv k
    retr_content-Good (some (c ∷ content)) srv k =
        send_content-Good (c ∷ content)
          (send_reply env addr (codes "+OK " ++ decimal (length (c ∷ content)) ++ codes " octets")
            srv)
          k

    retr_one-Good :
        (user : User) (o : Option (ℕ × Text × ℕ × Option Text)) (srv : Pop3Server)
        → Authorized said srv.user_manager s
        → Good said srv.user_manager srv.sessions (retr_one env addr s user o srv)
    retr_one-Good user none srv k = Good-reply said env addr _ s srv k
    retr_one-Good user (some (n, filename, size, uid)) srv k =
        let (content, storage') = get_message_content env.io user filename srv.storage in
        retr_content-Good content (record srv { storage = storage' }) k

    dele_one-Good :
        (number : ℤ) (o : Option (ℕ × Text × ℕ × Option Text)) (srv : Pop3Server)
        → Authorized said srv.user_manager s
        → Good said srv.user_manager srv.sessions (dele_one env addr s number o srv)
    dele_one-Good number none srv k = Good-reply said env addr _ s srv k
    dele_one-Good number (some (n, name, size, uid)) srv k =
        Good-reply said env addr _ (record s { marked_for_deletion = n ∷ s.marked_for_deletion })
          srv k

    sign_off-Good :
        (srv : Pop3Server)
        → Authorized said srv.user_manager s
        → Good said srv.user_manager srv.sessions (sign_off env addr s srv)
    unfolding send_reply
    sign_off-Good srv k = (k, refl, refl)

    quit_deleted-Good :
        (deleted : Bool) (storage' : Storage) (srv : Pop3Server)
        → Authorized said srv.user_manager s
        → Good said srv.user_manager srv.sessions (quit_deleted env addr s (deleted, storage') srv)
    quit_deleted-Good false storage' srv k = tt
    quit_deleted-Good true storage' srv k = sign_off-Good (record srv { storage = storage' }) k

  pub cmd_retr-IsGood : IsGood said cmd_retr
  unfolding cmd_retr
  cmd_retr-IsGood env addr s args srv k =
      let m = srv.user_manager in
      let refuse = λ (msg : Text). Good-reply said env addr msg s srv k in
      Good-state said m srv.sessions s.state _ _ (λ h. refuse _)
        (λ h. Good-args said m srv.sessions args _ _ (refuse _) (λ arg rest.
          Good-option said m srv.sessions (parse_int arg) _ _ (refuse _) (λ n.
            Good-option said m srv.sessions (new_user s.user []) _ _ (refuse _) (λ user.
              let (messages, storage') = list_messages env.io user srv.storage in
              retr_one-Good env addr s user (selected n s messages)
                (record srv { storage = storage' }) k))))

  pub cmd_dele-IsGood : IsGood said cmd_dele
  unfolding cmd_dele
  cmd_dele-IsGood env addr s args srv k =
      let m = srv.user_manager in
      let refuse = λ (msg : Text). Good-reply said env addr msg s srv k in
      Good-state said m srv.sessions s.state _ _ (λ h. refuse _)
        (λ h. Good-args said m srv.sessions args _ _ (refuse _) (λ arg rest.
          Good-option said m srv.sessions (parse_int arg) _ _ (refuse _) (λ n.
            Good-option said m srv.sessions (new_user s.user []) _ _ (refuse _) (λ user.
              let (messages, storage') = list_messages env.io user srv.storage in
              dele_one-Good env addr s n (selected n s messages) (record srv { storage = storage' })
                k))))

  pub cmd_quit-IsGood : IsGood said cmd_quit
  unfolding cmd_quit
  cmd_quit-IsGood env addr s args srv k =
      Good-option said srv.user_manager srv.sessions (new_user s.user []) _ _ tt (λ user.
        Good-state said srv.user_manager srv.sessions s.state _ _
          (λ h. sign_off-Good env addr s srv k)
          (λ h.
            let (messages, storage') = list_messages env.io user srv.storage in
            let deleted =
              delete_marked env user messages (sort_desc s.marked_for_deletion) storage' in
            quit_deleted-Good env addr s deleted.0 deleted.1 srv k))
