-- ===== src/Common/Logger.antt =====
-- email-network-service/src/common/logger.py, over the `logging` module: a logger is an object by
-- its name, so two keys with one name share it. What a handler writes is in `output`.
pub mod Blocks
pub mod Shortcuts
pub mod Registered
use rdt_mail_service.Prelude.{
  ℕ, zero, suc, ◌-◌, List, [], ◌∷◌, ◌++◌, map, Option, none, some, ltb, length, Dict, Eq, lookup,
  insert, ◌==◌, nat_eq, if◌then◌else◌, ◌||◌,
}
use rdt_mail_service.Prelude.Text.{Text, text_eq, codes, upper}

pub data Level : Type 0 where
  debug info warning error : Level

abbrev pub level_no : Level → ℕ
level_no debug = 10
level_no info = 20
level_no warning = 30
level_no error = 40

abbrev pub level_name : Level → Text
level_name debug = codes "DEBUG"
level_name info = codes "INFO"
level_name warning = codes "WARNING"
level_name error = codes "ERROR"

-- The number that `setLevel(level.upper())` sets; `none` is the `ValueError` of another name. A
-- logger that is not set takes the level of the root logger, which is WARNING.
unfoldable pub threshold : Text → Option ℕ
unfolding text_eq upper
threshold name =
    let n = upper name in
    if n == codes "DEBUG"
    then some 10
    else if n == codes "INFO"
    then some 20
    else if n == codes "WARNING" || n == codes "WARN" || n == codes "NOTSET"
    then some 30
    else if n == codes "ERROR"
    then some 40
    else if n == codes "CRITICAL" || n == codes "FATAL"
    then some 50
    else none

-- Where a line is written: to the console, or to a file.
pub data Handler : Type 0 where
  console : Handler
  to_file : Text → Handler

pub record Logger : Type 0 where
  pub level : ℕ
  pub handlers : List Handler

pub record Logs : Type 0 where
  pub loggers : Dict Text Logger
  -- `_registered_loggers`, with the names of the loggers
  pub registered : Dict Text Text
  pub output : List (Handler × Text)

abbrev spaces : ℕ → Text
spaces zero = []
spaces (suc n) = b' ' ∷ spaces n

abbrev color : Level → Text
color debug = 27 ∷ codes "[36m"
color info = 27 ∷ codes "[32m"
color warning = 27 ∷ codes "[33m"
color error = 27 ∷ codes "[31m"

-- `ColoredFormatter.format`: the name of the level, padded to eight, with its color.
unfoldable pub format : Text → Level → Text → Text → Text
format clock level name message =
    let label = level_name level in
    clock
    ++ codes " | "
    ++ color level
    ++ label
    ++ spaces (8 - length label)
    ++ 27 ∷ codes "[0m | "
    ++ name
    ++ codes " | "
    ++ message

-- `FileHandler(log_file, mode="w")` empties the file.
unfoldable pub emptied : Text → List (Handler × Text) → List (Handler × Text)
unfolding text_eq
emptied path [] = []
emptied path ((console, line) ∷ output) = (Handler.console, line) ∷ emptied path output
emptied path ((to_file p, line) ∷ output) =
    let rest = emptied path output in if p == path then rest else (Handler.to_file p, line) ∷ rest

abbrev file_handler : Option Text → List Handler
file_handler none = []
file_handler (some []) = []
file_handler (some (c ∷ path)) = Handler.to_file (c ∷ path) ∷ []

abbrev opened : List Handler → List (Handler × Text) → List (Handler × Text)
opened [] output = output
opened (console ∷ hs) output = opened hs output
opened (to_file path ∷ hs) output = opened hs (emptied path output)

abbrev registered_at : Text → Text → Option Text → Option ℕ → Logs → Option Logs
registered_at key name log_file none logs = none
registered_at key name log_file (some level) logs = some (record {
  loggers =
      insert name (record { level = level; handlers = Handler.console ∷ file_handler log_file })
        logs.loggers;
  registered = insert key name logs.registered;
  output = opened (file_handler log_file) logs.output;
})

unfoldable pub register_logger : Text → Text → Text → Option Text → Logs → Option Logs
unfolding threshold emptied insert
register_logger key name level log_file logs =
    registered_at key name log_file (threshold level) logs

abbrev named : Option Text → Dict Text Logger → Option (Text × Logger)
named none loggers = none
named (some name) loggers = elim (lookup name loggers) [
  | none ↦ none
  | some logger ↦ some (name, logger)
]

-- `none` is the `RuntimeError` of a key that is not registered.
unfoldable pub get_logger : Text → Logs → Option (Text × Logger)
unfolding lookup
get_logger key logs = named (lookup key logs.registered) logs.loggers

-- `origin or _detect_origin()`
abbrev pub origin_or : Text → Option Text → Text
origin_or detected none = detected
origin_or detected (some []) = detected
origin_or detected (some (c ∷ origin)) = c ∷ origin

abbrev emit : Text → Level → Text → Option (Text × Logger) → Logs → Option Logs
emit clock level message none logs = none
emit clock level message (some (name, logger)) logs =
    if ltb (level_no level) logger.level
    then some logs
    else some (record logs {
      output =
          logs.output
          ++ map (λ (h : Handler). (h, format clock level name message)) logger.handlers;
    })

-- `detected` is what `_detect_origin` finds on the stack, and `clock` the time; no keyword argument
-- (`exc_info`, which adds the traceback) is given.
unfoldable pub log_impl : Text → Text → Text → Level → Text → Option Text → Logs → Option Logs
unfolding get_logger format
log_impl clock detected key level message origin logs =
    emit clock level (origin_or detected origin ++ codes ": " ++ message) (get_logger key logs) logs

-- How the body of a block ends: it returns, raises an `Exception`, with its text, or is left by
-- another exception, such as `KeyboardInterrupt`.
pub data Ended : Type 0 where
  completed : Ended
  raised : Text → Ended
  interrupted : Ended

abbrev not_registered : Text → Ended
not_registered key = Ended.raised (codes "Logger '" ++ key ++ codes "' not registered!")

abbrev pub or_not_registered : Text → Ended → Logs → Option Logs → Ended × Logs
or_not_registered key r logs none = (not_registered key, logs)
or_not_registered key r logs (some logs') = (r, logs')

module _ (clock detected key title : Text) (origin : Option Text) where
  abbrev pub write : Level → Text → Logs → Option Logs
  write level message logs =
      log_impl clock detected key level message (some (origin_or detected origin)) logs

  -- The line at the end of a block; an exception is raised again.
  abbrev pub close_block : Ended × Logs → Ended × Logs
  close_block (completed, logs) =
      or_not_registered key Ended.completed logs (write Level.info (codes "END: " ++ title) logs)
  close_block (raised e, logs) =
      or_not_registered key (Ended.raised e) logs
        (write Level.error (codes "ERROR in " ++ title ++ codes ": " ++ e) logs)
  close_block (interrupted, logs) = (Ended.interrupted, logs)

  abbrev run_block : (Logs → Ended × Logs) → Logs → Option Logs → Ended × Logs
  run_block body logs none = (not_registered key, logs)
  run_block body logs (some logs') = close_block (body logs')

  -- `with log_block(...)` around a body.
  unfoldable pub log_block : (Logs → Ended × Logs) → Logs → Ended × Logs
  unfolding log_impl
  log_block body logs = run_block body logs (write Level.info (codes "START: " ++ title) logs)
