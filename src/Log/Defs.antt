-- ===== src/Log/Defs.antt =====
-- `LogAppender`, `Logger` and `LoggerManager` (log/logger.h and .cpp). Shared pointers are addresses of
-- the lists `formatters`, `appenders` and `loggers`.
use sylar_net_server_framewo.Common.{
  ℕ, zero, suc, Bool, true, false, not, Option, none, some, List, [], ◌∷◌, ◌++◌, leb, ◌==◌,
  if◌then◌else◌, length, get_elem?, set,
}
use sylar_net_server_framewo.Common.Checked.{Checked, ok, undefined, ◌>>=◌}
use sylar_net_server_framewo.Addr.Lookup.{same_text}
use sylar_net_server_framewo.Log.Items.{
  Level, level_number, debug, LogEvent, LogFormatter, log_formatter, format,
}

-- `StdoutLogAppender` and `FileLogAppender`, with its path
pub data Sink : Type 0 where
  stdout : Sink
  file : List ℕ → Sink

-- `m_hasFormatter` is none until `setFormatter` sets it: no constructor does.
pub record LogAppender : Type 0 where
  pub sink : Sink
  pub has_formatter : Option Bool
  pub formatter : Option ℕ
  pub level : Level

pub record Logger : Type 0 where
  pub name : List ℕ
  pub level : Level
  pub appenders : List ℕ
  pub formatter : ℕ
  pub root : Option ℕ

pub record LoggerManager : Type 0 where
  pub formatters : List LogFormatter
  pub appenders : List LogAppender
  pub loggers : List Logger
  pub names : List (List ℕ × ℕ)

abbrev pub level_le : Level → Level → Bool
level_le a b = leb (level_number a) (level_number b)

-- `new StdoutLogAppender` and `new FileLogAppender(path)`
unfoldable pub new_appender : Sink → LogAppender
new_appender sink = record { sink = sink; has_formatter = none; formatter = none; level = debug }

-- `LogAppender::setFormatter`
unfoldable pub set_appender_formatter : Option ℕ → LogAppender → LogAppender
set_appender_formatter none a = record a { formatter = none; has_formatter = some false }
set_appender_formatter (some f) a = record a { formatter = some f; has_formatter = some true }

-- `Logger::Logger`, with the formatter of `DEFAULT_FORMAT` at `formatter`
unfoldable pub new_logger : List ℕ → ℕ → Logger
new_logger name formatter = record {
  name = name;
  level = debug;
  appenders = [];
  formatter = formatter;
  root = none;
}

-- `if(!appender->getFormatter()) { appender->m_formatter = m_formatter; }`
abbrev pub with_formatter : ℕ → LogAppender → LogAppender
with_formatter f a = elim a.formatter [ none ↦ record a { formatter = some f } | some g ↦ a ]

-- `Logger::addAppender`, of the appender at `a` to the logger at `l`
unfoldable pub add_appender : ℕ → ℕ → LoggerManager → Checked LoggerManager
add_appender l a m = elim (get_elem? m.loggers l) [
  | none ↦ undefined
  | some logger ↦ elim (get_elem? m.appenders a) [
    | none ↦ undefined
    | some appender ↦ ok (record m {
      appenders = set m.appenders a (with_formatter logger.formatter appender);
      loggers = set m.loggers l (record logger { appenders = logger.appenders ++ a ∷ [] });
    })
  ]
]

-- `Logger::delAppender` and `clearAppenders`, on the list of appenders
unfoldable pub del_appender : ℕ → List ℕ → List ℕ
del_appender a [] = []
del_appender a (b ∷ bs) = let rest = del_appender a bs in if b == a then bs else b ∷ rest

unfoldable pub change_appenders : (List ℕ → List ℕ) → ℕ → LoggerManager → Checked LoggerManager
change_appenders f l m = elim (get_elem? m.loggers l) [
  | none ↦ undefined
  | some logger ↦
      ok (record m { loggers = set m.loggers l (record logger { appenders = f logger.appenders }) })
]

unfoldable pub clear_appenders : List ℕ → List ℕ
clear_appenders as' = []

-- The loop of `Logger::setFormatter`: reading a flag that was not set is undefined.
unfoldable pub spread : ℕ → List ℕ → List LogAppender → Checked (List LogAppender)
spread f [] heap = ok heap
spread f (a ∷ as') heap = elim (get_elem? heap a) [
  | none ↦ undefined
  | some appender ↦ elim appender.has_formatter [
    | none ↦ undefined
    | some b ↦
        spread f as' (if b then heap else set heap a (record appender { formatter = some f }))
  ]
]

-- `Logger::setFormatter`
unfoldable pub set_formatter : ℕ → ℕ → LoggerManager → Checked LoggerManager
set_formatter l f m = elim (get_elem? m.loggers l) [
  | none ↦ undefined
  | some logger ↦ spread f logger.appenders m.appenders >>= λ heap.
      ok
        (record m { appenders = heap; loggers = set m.loggers l (record logger { formatter = f }) })
]

-- `Logger::setFormatter(const std::string&)`: a pattern with an error changes nothing.
unfoldable pub set_pattern : ℕ → List ℕ → LoggerManager → Checked LoggerManager
set_pattern l pattern m = elim (log_formatter pattern) [
  | none ↦ undefined
  | some f ↦
      if f.has_error
      then ok m
      else set_formatter l (length m.formatters) (record m { formatters = m.formatters ++ f ∷ [] })
]

abbrev pub Strftime : Type 0
Strftime = List ℕ → ℕ → List ℕ

-- What `log` of the appenders writes; the file appender does not ask for its level.
unfoldable pub emit : Sink → Bool → List ℕ → List (Sink × List ℕ)
emit stdout enabled text = if enabled then (stdout, text) ∷ [] else []
emit (file path) enabled text = (file path, text) ∷ []

-- Without a formatter only the appender to the standard output writes nothing.
unfoldable pub emit_nothing : Sink → Checked (List (Sink × List ℕ))
emit_nothing stdout = ok []
emit_nothing (file path) = undefined

unfoldable pub append_log :
    Strftime → List LogFormatter → Level → LogEvent → LogAppender → Checked (List (Sink × List ℕ))
append_log strftime formatters level e a = elim a.formatter [
  | none ↦ emit_nothing a.sink
  | some f ↦ elim (get_elem? formatters f) [
    | none ↦ undefined
    | some formatter ↦ ok (emit a.sink (level_le a.level level) (format strftime level e formatter))
  ]
]

unfoldable pub append_all :
    Strftime → LoggerManager → Level → LogEvent → List ℕ → Checked (List (Sink × List ℕ))
append_all strftime m level e [] = ok []
append_all strftime m level e (a ∷ as') = elim (get_elem? m.appenders a) [
  | none ↦ undefined
  | some appender ↦ append_log strftime m.formatters level e appender >>= λ out.
      append_all strftime m level e as' >>= λ rest. ok (out ++ rest)
]

-- `Logger::log`, with fuel for the roots that it goes on to
unfoldable pub log :
    ℕ → Strftime → LoggerManager → ℕ → Level → LogEvent → Checked (List (Sink × List ℕ))
log zero strftime m l level e = undefined
log (suc fuel) strftime m l level e = elim (get_elem? m.loggers l) [
  | none ↦ undefined
  | some logger ↦ if not (level_le logger.level level) then ok [] else elim logger.appenders [
    | a ∷ as' ↦ append_all strftime m level e (a ∷ as')
    | [] ↦ elim logger.root [ none ↦ ok [] | some r ↦ log fuel strftime m r level e ]
  ]
]

-- `LoggerManager::LoggerManager`, with the formatter of `DEFAULT_FORMAT`
unfoldable pub logger_manager : LogFormatter → LoggerManager
logger_manager default_formatter = record {
  formatters = default_formatter ∷ [];
  appenders = with_formatter 0 (new_appender stdout) ∷ [];
  loggers = record (new_logger (114 ∷ 111 ∷ 111 ∷ 116 ∷ []) 0) { appenders = 0 ∷ [] } ∷ [];
  names = (114 ∷ 111 ∷ 111 ∷ 116 ∷ [], 0) ∷ [];
}

-- `m_loggers.find`
unfoldable pub find_name : List ℕ → List (List ℕ × ℕ) → Option ℕ
find_name name [] = none
find_name name (e ∷ es) =
    let rest = find_name name es in if same_text e.0 name then some e.1 else rest

-- `LoggerManager::addLogger`; the root logger is at 0, and the new logger has a formatter of its own.
unfoldable pub add_logger : LogFormatter → List ℕ → LoggerManager → ℕ × LoggerManager
add_logger default_formatter name m = elim (find_name name m.names) [
  | some l ↦ (l, m)
  | none ↦ (
    length m.loggers,
    record m {
      formatters = m.formatters ++ default_formatter ∷ [];
      loggers = m.loggers ++ record (new_logger name (length m.formatters)) { root = some 0 } ∷ [];
      names = (name, length m.loggers) ∷ m.names;
    },
  )
]
