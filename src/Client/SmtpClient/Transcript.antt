-- ===== src/Client/SmtpClient/Transcript.antt =====
-- What smtp_client.py says and hears when an email is sent.
use rdt_mail_service.Prelude.{
  suc, refl, sym, Bool, true, List, [], ◌∷◌, ◌++◌, map, append-nil, length, take, drop,
}
use rdt_mail_service.Prelude.Text.{Text, codes}
use rdt_mail_service.Client.Wire.{
  Wire, Failure, Client, Action, ◌>>=◌, ◌>>◌, return, ascii, send_command,
}
use rdt_mail_service.Client.Conversation.{
  Step, says, may_hear, Scripted, seq-Scripted, return-Scripted, ascii-Scripted,
  send_command-Scripted,
}
use rdt_mail_service.Client.SmtpClient.Pieces.{pieces, send_chunks-Scripted}
use rdt_mail_service.Client.SmtpClient.Replies.{
  command, reply, expect-Scripted, any_reply-Scripted, asked-Scripted, reraise-Keeps,
}
use rdt_mail_service.Client.SmtpClient.{
  expect, send_chunks, connect, do_handshake, send_mail_from, send_rcpt_to, message_text,
  terminator, send_data, send_quit, transaction, smtp_ready, smtp_ok, smtp_start_input, any_reply,
  welcome, mark_connected,
}

module _ {S : Type 0} (w : Wire S) where
  connect-Scripted :
      Scripted (command (codes "NOOP") ∷ reply smtp_ready ∷ may_hear ∷ []) (connect w)
  unfolding connect
  connect-Scripted c =
      seq-Scripted (command (codes "NOOP") ∷ []) (reply smtp_ready ∷ may_hear ∷ [])
        (send_command w (codes "NOOP")) (do welcome w; any_reply w; mark_connected w)
        (send_command-Scripted w (codes "NOOP"))
        (seq-Scripted (reply smtp_ready ∷ []) (may_hear ∷ []) (welcome w)
          (do any_reply w; mark_connected w)
          (λ (c' : Client S).
            reraise-Keeps (reply smtp_ready ∷ []) c' Failure.client_connection_error
              (expect w smtp_ready Failure.client_connection_error c')
              (expect-Scripted w smtp_ready Failure.client_connection_error c'))
          (seq-Scripted (may_hear ∷ []) [] (any_reply w) (mark_connected w) (any_reply-Scripted w)
            (λ (c' : Client S). ([], sym (append-nil c'.log), refl))))
        (record c { wire = w.restart c.wire })

  send_data-Scripted :
      (subject body : Text)
      → let bytes = message_text subject body ++ terminator in
        Scripted
          (command (codes "DATA")
              ∷ reply smtp_start_input
              ∷ map says (pieces (suc (length bytes)) bytes)
            ++ reply smtp_ok ∷ [])
          (send_data w subject body)
  unfolding send_data
  send_data-Scripted subject body =
      let bytes : Text = message_text subject body ++ terminator in
      let cuts : List Step = map says (pieces (suc (length bytes)) bytes) in
      let finish : Action S (Unit {0}) = expect w smtp_ok Failure.client_protocol_error in
      seq-Scripted (command (codes "DATA") ∷ [])
        (reply smtp_start_input ∷ cuts ++ reply smtp_ok ∷ []) (send_command w (codes "DATA"))
        (do
          expect w smtp_start_input Failure.client_protocol_error
          payload_bytes ← ascii bytes
          send_chunks w (suc (length payload_bytes)) 0 payload_bytes
          finish)
        (send_command-Scripted w (codes "DATA"))
        (seq-Scripted (reply smtp_start_input ∷ []) (cuts ++ reply smtp_ok ∷ [])
          (expect w smtp_start_input Failure.client_protocol_error)
          (do
            payload_bytes ← ascii bytes
            send_chunks w (suc (length payload_bytes)) 0 payload_bytes
            finish)
          (expect-Scripted w smtp_start_input Failure.client_protocol_error)
          (ascii-Scripted (cuts ++ reply smtp_ok ∷ []) bytes
            (λ (t : Text). (do send_chunks w (suc (length t)) 0 t; finish))
            (seq-Scripted cuts (reply smtp_ok ∷ []) (send_chunks w (suc (length bytes)) 0 bytes)
              finish (send_chunks-Scripted w (suc (length bytes)) 0 bytes)
              (expect-Scripted w smtp_ok Failure.client_protocol_error))))

  send_quit-Scripted : Scripted (command (codes "QUIT") ∷ may_hear ∷ []) (send_quit w)
  unfolding send_quit
  send_quit-Scripted =
      seq-Scripted (command (codes "QUIT") ∷ []) (may_hear ∷ []) (send_command w (codes "QUIT"))
        (any_reply w) (send_command-Scripted w (codes "QUIT")) (any_reply-Scripted w)

-- What a client says for an email, and the replies it wants.
abbrev pub greeting : List Step
greeting =
    command (codes "NOOP")
    ∷ reply smtp_ready
    ∷ may_hear
    ∷ command (codes "HELO localhost")
    ∷ reply smtp_ok
    ∷ []

abbrev pub envelope : Text → Text → List Step
envelope sender recipient =
    command (codes "MAIL FROM:<" ++ sender ++ codes ">")
    ∷ reply smtp_ok
    ∷ command (codes "RCPT TO:<" ++ recipient ++ codes ">")
    ∷ reply smtp_ok
    ∷ []

abbrev pub content : Text → Text → List Step
content subject body =
    let bytes = message_text subject body ++ terminator in
    command (codes "DATA") ∷ reply smtp_start_input ∷ map says (pieces (suc (length bytes)) bytes)
    ++ reply smtp_ok ∷ []

abbrev goodbye : List Step
goodbye = command (codes "QUIT") ∷ may_hear ∷ []

abbrev pub script : Text → Text → Text → Text → List Step
script sender recipient subject body =
    greeting ++ envelope sender recipient ++ content subject body ++ goodbye

module _ {S : Type 0} (w : Wire S) (sender recipient subject body : Text) where
  abbrev rest_quit : Action S Bool
  rest_quit = do send_quit w; return true

  abbrev rest_data : Action S Bool
  rest_data = do send_data w subject body; rest_quit

  abbrev rest_rcpt : Action S Bool
  rest_rcpt = do send_rcpt_to w recipient; rest_data

  abbrev rest_mail : Action S Bool
  rest_mail = do send_mail_from w sender; rest_rcpt

  quit_part : Scripted goodbye rest_quit
  quit_part =
      seq-Scripted goodbye [] (send_quit w) (return true) (send_quit-Scripted w)
        (return-Scripted true)

  data_part : Scripted (content subject body ++ goodbye) rest_data
  data_part =
      seq-Scripted (content subject body) goodbye (send_data w subject body) rest_quit
        (send_data-Scripted w subject body) quit_part

  mail_part : Scripted (envelope sender recipient ++ content subject body ++ goodbye) rest_mail
  unfolding send_mail_from send_rcpt_to
  mail_part =
      seq-Scripted (take 2 (envelope sender recipient))
        (drop 2 (envelope sender recipient) ++ content subject body ++ goodbye)
        (send_mail_from w sender) rest_rcpt
        (asked-Scripted w (codes "MAIL FROM:<" ++ sender ++ codes ">") smtp_ok
          Failure.client_protocol_error)
        (seq-Scripted (drop 2 (envelope sender recipient)) (content subject body ++ goodbye)
          (send_rcpt_to w recipient) rest_data
          (asked-Scripted w (codes "RCPT TO:<" ++ recipient ++ codes ">") smtp_ok
            Failure.client_protocol_error)
          data_part)

  pub transaction-Scripted :
      Scripted (script sender recipient subject body) (transaction w sender recipient subject body)
  unfolding transaction do_handshake
  transaction-Scripted =
      seq-Scripted (take 3 greeting)
        (drop 3 greeting ++ envelope sender recipient ++ content subject body ++ goodbye)
        (connect w) (do do_handshake w; rest_mail) (connect-Scripted w)
        (seq-Scripted (drop 3 greeting)
          (envelope sender recipient ++ content subject body ++ goodbye) (do_handshake w) rest_mail
          (asked-Scripted w (codes "HELO localhost") smtp_ok Failure.client_protocol_error)
          mail_part)
