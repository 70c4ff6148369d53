-- ===== src/Pop3/Serving/Failures.antt =====
-- A client that ends the serve loop of pop3_server.py.
use rdt_mail_service.Prelude.{◌≡◌, refl, [], ◌∷◌, ◌++◌, none, lookup}
use rdt_mail_service.Prelude.Text.{
  text_eq, codes, cr, lf, split, split_words, split_lines, decode_ignore, upper, upper_code,
  is_space,
}
use rdt_mail_service.Auth.User.{new_user}
use rdt_mail_service.Rdt.Dispatcher.{Addr, addr_eq}
use rdt_mail_service.Pop3.Server.{Pop3Server, Env}
use rdt_mail_service.Pop3.Serving.{cmd_quit, handler_of, handle_command, handle_lines, serve_packet}

-- QUIT as the first line of a client raises, and so ends the serve loop for all clients: the
-- session has no user yet.
pub quit_first_ends_loop :
    (env : Env) (addr : Addr) (srv : Pop3Server)
    → lookup addr srv.sessions ≡ none
    → serve_packet env addr (codes "QUIT" ++ cr ∷ lf ∷ []) srv ≡ none
unfolding serve_packet handle_lines handle_command handler_of cmd_quit new_user decode_ignore
    split_lines split split_words is_space upper upper_code text_eq
quit_first_ends_loop env addr srv e = rw e refl
