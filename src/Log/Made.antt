-- ===== src/Log/Made.antt =====
-- The states that the loggers reach by their methods (log/logger.cpp).
use sylar_net_server_framewo.Common.{ℕ, ◌<◌, ◌≡◌, some, List, [], ◌∷◌, ◌++◌, length, get_elem?, set}
use sylar_net_server_framewo.Common.Checked.{Checked, ok}
use sylar_net_server_framewo.Log.Items.{LogFormatter}
use sylar_net_server_framewo.Log.Defs.{
  Sink, LogAppender, LoggerManager, new_appender, add_appender, del_appender, clear_appenders,
  change_appenders, set_formatter, set_pattern, set_appender_formatter, logger_manager, add_logger,
}

-- The managers that a program makes: the first one, and what a method that returns leaves. The
-- formatters that it sets are not null.
pub data Made : LoggerManager → Type 0 where
  made_manager : (f : LogFormatter) → Made (logger_manager f)
  made_logger :
      (f : LogFormatter) (name : List ℕ) (m : LoggerManager) → Made m → Made (add_logger f name m).1
  made_appender :
      (sink : Sink) (m : LoggerManager)
      → Made m
      → Made (record m { appenders = m.appenders ++ new_appender sink ∷ [] })
  made_formatter :
      (f : LogFormatter) (m : LoggerManager)
      → Made m
      → Made (record m { formatters = m.formatters ++ f ∷ [] })
  formatted :
      (a f : ℕ) (x : LogAppender) (m : LoggerManager)
      → Made m
      → f < length m.formatters
      → get_elem? m.appenders a ≡ some x
      → Made (record m { appenders = set m.appenders a (set_appender_formatter (some f) x) })
  reformatted :
      (l f : ℕ) (m m' : LoggerManager)
      → Made m
      → f < length m.formatters
      → set_formatter l f m ≡ ok m'
      → Made m'
  appended : (l a : ℕ) (m m' : LoggerManager) → Made m → add_appender l a m ≡ ok m' → Made m'
  deleted :
      (l a : ℕ) (m m' : LoggerManager)
      → Made m
      → change_appenders (del_appender a) l m ≡ ok m'
      → Made m'
  cleared :
      (l : ℕ) (m m' : LoggerManager)
      → Made m
      → change_appenders clear_appenders l m ≡ ok m'
      → Made m'
  patterned :
      (l : ℕ) (pattern : List ℕ) (m m' : LoggerManager)
      → Made m
      → set_pattern l pattern m ≡ ok m'
      → Made m'
