-- ===== src/Common/Logger/Registered.antt =====
-- Writing with a logger that was registered, in logger.py.
use rdt_mail_service.Prelude.{
  ℕ, ◌≡◌, refl, ap, ◌∙◌, inl, inr, ◌∷◌, ◌++◌, map, Option, some, ltb, insert, lookup-inserted,
  Bool-cases, nat_eq, if◌then◌else◌,
}
use rdt_mail_service.Prelude.Text.{Text, text_eq, codes}
use rdt_mail_service.Common.Logger.{
  Level, level_no, threshold, Handler, Logger, Logs, format, opened, file_handler, register_logger,
  named, get_logger, emit, log_impl, origin_or,
}

module _ (key name : Text) (log_file : Option Text) (n : ℕ) (logs : Logs) where
  abbrev registered_logger : Logger
  registered_logger = record { level = n; handlers = Handler.console ∷ file_handler log_file }

  abbrev with_logger : Logs
  with_logger = record {
    loggers = insert name registered_logger logs.loggers;
    registered = insert key name logs.registered;
    output = opened (file_handler log_file) logs.output;
  }

  get_logger-register : get_logger key with_logger ≡ some (name, registered_logger)
  unfolding get_logger
  get_logger-register =
      rw (lookup-inserted key name logs.registered)
        (rw (named, lookup-inserted name registered_logger logs.loggers) refl)

  register_logger_lem :
      (level : Text)
      → threshold level ≡ some n
      → register_logger key name level log_file logs ≡ some with_logger
  unfolding register_logger
  register_logger_lem level h = rw h refl

emit_line :
    (clock name : Text) (logger : Logger) (level : Level) (message : Text) (logs : Logs)
    → emit clock level message (some (name, logger)) logs
      ≡ some (
          if ltb (level_no level) logger.level then logs else record logs {
            output =
                logs.output
                ++ map (λ (h : Handler). (h, format clock level name message)) logger.handlers;
          })
emit_line clock name logger level message logs =
    elim (Bool-cases (ltb (level_no level) logger.level)) [
      | inl low ↦ rw low refl
      | inr high ↦ rw high refl
    ]

-- A logger is registered under a key, with a level that `setLevel` knows. Then what is written with
-- the key goes to the console and to its file, if there is one, as one line with the origin, the
-- name and the level, unless its level is lower: then nothing changes.
pub log_impl-register_logger :
    (clock detected key name level_text : Text) (log_file : Option Text) (n : ℕ) (level : Level)
    (msg : Text) (origin : Option Text) (logs : Logs)
    → threshold level_text ≡ some n
    → (logs' : Logs) × (register_logger key name level_text log_file logs ≡ some logs')
      × (log_impl clock detected key level msg origin logs'
          ≡ some (
              if ltb (level_no level) n then logs' else record logs' {
                output =
                    logs'.output
                    ++ map
                        (λ (h : Handler). (
                          h,
                          format clock level name (origin_or detected origin ++ codes ": " ++ msg),
                        ))
                        (Handler.console ∷ file_handler log_file);
              }))
unfolding log_impl
log_impl-register_logger clock detected key name level_text log_file n level msg origin logs h =
    let message : Text = origin_or detected origin ++ codes ": " ++ msg in
    (
      with_logger key name log_file n logs,
      register_logger_lem key name log_file n logs level_text h,
      ap
            (λ (o : Option (Text × Logger)).
              emit clock level message o (with_logger key name log_file n logs))
            (get_logger-register key name log_file n logs)
          ∙ emit_line clock name (registered_logger key name log_file n logs) level message
              (with_logger key name log_file n logs),
    )
