-- ===== src/Common/Logger/Shortcuts.antt =====
-- The functions of logger.py that name the level or the logger for `_log_impl` and `log_block`.
use rdt_mail_service.Prelude.{Option}
use rdt_mail_service.Prelude.Text.{Text, text_eq, codes}
use rdt_mail_service.Common.Logger.{Level, Logs, Ended, log_impl, log_block}

abbrev detailed : Text
detailed = codes "detailed"

module _ (clock detected : Text) where
  unfoldable pub log_info : Text → Text → Option Text → Logs → Option Logs
  log_info key msg origin = log_impl clock detected key Level.info msg origin

  unfoldable pub log_debug : Text → Text → Option Text → Logs → Option Logs
  log_debug key msg origin = log_impl clock detected key Level.debug msg origin

  unfoldable pub log_warning : Text → Text → Option Text → Logs → Option Logs
  log_warning key msg origin = log_impl clock detected key Level.warning msg origin

  unfoldable pub log_error : Text → Text → Option Text → Logs → Option Logs
  log_error key msg origin = log_impl clock detected key Level.error msg origin

  unfoldable pub log_info_detailed : Text → Option Text → Logs → Option Logs
  log_info_detailed msg origin = log_impl clock detected detailed Level.info msg origin

  unfoldable pub log_debug_detailed : Text → Option Text → Logs → Option Logs
  log_debug_detailed msg origin = log_impl clock detected detailed Level.debug msg origin

  unfoldable pub log_warning_detailed : Text → Option Text → Logs → Option Logs
  log_warning_detailed msg origin = log_impl clock detected detailed Level.warning msg origin

  unfoldable pub log_error_detailed : Text → Option Text → Logs → Option Logs
  log_error_detailed msg origin = log_impl clock detected detailed Level.error msg origin

  unfoldable pub log_block_detailed :
      Text → Option Text → (Logs → Ended × Logs) → Logs → Ended × Logs
  log_block_detailed title origin = log_block clock detected detailed title origin

  unfoldable pub log_block_simple : Text → Option Text → (Logs → Ended × Logs) → Logs → Ended × Logs
  log_block_simple title origin = log_block clock detected (codes "simple") title origin
