-- ===== src/Smtp/Pool.antt =====
-- The thread pool of smtp_server.py: `executor.submit` queues a packet, and ten workers take the
-- packets from the front of the queue, so that a packet is processed before at most nine earlier
-- ones. A worker's step is the whole of `_process_packet`: that two run it at once is left out.
pub mod Dotless
pub mod Orders
pub mod Swaps
use rdt_mail_service.Prelude.{ℕ, ◌<◌, length, ◌≡◌, List, [], ◌∷◌, ◌++◌}
use rdt_mail_service.Prelude.Text.{Text}
use rdt_mail_service.Rdt.Dispatcher.{Addr}
use rdt_mail_service.Smtp.Server.{SmtpServer, Env}
use rdt_mail_service.Smtp.Streams.{process_packet}

pub record Pool : Type 0 where
  pub server : SmtpServer
  pub waiting : List (Addr × Text)

unfoldable pub submit : Addr → Text → Pool → Pool
submit addr packet p = record p { waiting = p.waiting ++ (addr, packet) ∷ [] }

unfoldable pub submit_all : Addr → List Text → Pool → Pool
unfolding submit
submit_all addr [] p = p
submit_all addr (packet ∷ packets) p = submit_all addr packets (submit addr packet p)

-- `MAX_WORKERS`
abbrev pub max_workers : ℕ
max_workers = 10

-- The packets of `before` are those that other workers have taken and not begun to process.
pub data Step (env : Env) (s t : Pool) : Type 0 where
  run :
      (before : List (Addr × Text)) (addr : Addr) (packet : Text) (after : List (Addr × Text))
      → s.waiting ≡ before ++ (addr, packet) ∷ after
      → length before < max_workers
      → t ≡ record { server = process_packet env addr packet s.server; waiting = before ++ after }
      → Step env s t

pub data Reach (env : Env) (s : Pool) : Pool → Type 0 where
  here : Reach env s s
  next : {t u : Pool} → Reach env s t → Step env t u → Reach env s u
