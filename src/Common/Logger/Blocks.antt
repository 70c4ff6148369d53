-- ===== src/Common/Logger/Blocks.antt =====
-- What `log_block` of logger.py does around its body.
use rdt_mail_service.Prelude.{
  ◌≡◌, refl, sym, inl, inr, List, [], ◌++◌, append-nil, map, Option, some, ltb, Bool-cases, nat_eq,
}
use rdt_mail_service.Prelude.Text.{Text, text_eq, codes}
use rdt_mail_service.Common.Logger.{
  Level, level_no, Handler, Logger, Logs, get_logger, format, emit, log_impl, Ended, completed,
  raised, interrupted, write, close_block, log_block,
}

abbrev pub IsRegistered : Text → Logs → Type 0
IsRegistered key logs =
    (name : Text) × (logger : Logger) × (get_logger key logs ≡ some (name, logger))

-- A line is written, and nothing else changes.
abbrev Written : Text → Logs → Option Logs → Type 0
Written key logs o =
    (logs' : Logs) × (lines : List (Handler × Text)) × (o ≡ some logs')
    × (logs'.output ≡ logs.output ++ lines)
    × IsRegistered key logs'

emit-Written :
    (clock key : Text) (level : Level) (message name : Text) (logger : Logger) (logs : Logs)
    → get_logger key logs ≡ some (name, logger)
    → Written key logs (emit clock level message (some (name, logger)) logs)
unfolding get_logger
emit-Written clock key level message name logger logs h =
    let lines : List (Handler × Text) =
      map (λ (x : Handler). (x, format clock level name message)) logger.handlers in
    elim (Bool-cases (ltb (level_no level) logger.level)) [
      | inl low ↦ (logs, [], rw low refl, sym (append-nil logs.output), (name, logger, h))
      | inr high ↦ (
        record logs { output = logs.output ++ lines },
        lines,
        rw high refl,
        refl,
        (name, logger, h),
      )
    ]

module _ (clock detected key title : Text) (origin : Option Text) where
  write-Written :
      (level : Level) (message : Text) (logs : Logs)
      → IsRegistered key logs
      → Written key logs (write clock detected key title origin level message logs)
  unfolding log_impl
  write-Written level message logs (name, logger, h) =
      rw h (emit-Written clock key level _ name logger logs h)

  abbrev Closed : Ended × Logs → Ended × Logs → Type 0
  Closed (r, logs) (r', logs') =
      (r' ≡ r) × (lines : List (Handler × Text)) × (logs'.output ≡ logs.output ++ lines)

  close-Closed :
      (r : Ended × Logs)
      → IsRegistered key r.1
      → Closed r (close_block clock detected key title origin r)
  close-Closed (completed, logs) h =
      let (logs', lines, e, o, k) = write-Written Level.info (codes "END: " ++ title) logs h in
      rw e (refl, lines, o)
  close-Closed (raised x, logs) h =
      let (logs', lines, e, o, k) =
        write-Written Level.error (codes "ERROR in " ++ title ++ codes ": " ++ x) logs h in
      rw e (refl, lines, o)
  close-Closed (interrupted, logs) h = (refl, [], sym (append-nil logs.output))

  -- Around a body that keeps a registered key registered, a block writes a first line, runs the body
  -- on the log with that line, ends as the body ends (an exception is raised again), and changes
  -- what the body has written only by what it writes behind it.
  pub log_block-Closed :
      (body : Logs → Ended × Logs) (logs : Logs)
      → IsRegistered key logs
      → ((l : Logs) → IsRegistered key l → IsRegistered key (body l).1)
      → (logs' : Logs) × (write clock detected key title origin Level.info
            (codes "START: " ++ title)
            logs
          ≡ some logs')
        × Closed (body logs') (log_block clock detected key title origin body logs)
  unfolding log_block
  log_block-Closed body logs h keeps =
      let (logs', lines, e, o, k) = write-Written Level.info (codes "START: " ++ title) logs h in
      (logs', e, rw e (close-Closed (body logs') (keeps logs' k)))
