-- ===== src/Log/Runs.antt =====
-- Runs of the log.
use sylar_net_server_framewo.Common.{ℕ, ◌≡◌, refl, Bool, false, some, List, [], ◌∷◌, arith}
use sylar_net_server_framewo.Log.Pattern.{Part, parse, is_alpha}
use sylar_net_server_framewo.Log.Items.{
  message_item, warn, LogEvent, LogFormatter, log_formatter, FormatItem, level_item, string_item,
  date_time_item, new_line_item, format_item,
}
use sylar_net_server_framewo.Log.Defs.{
  stdout, with_formatter, new_appender, set_appender_formatter, new_logger, LogAppender,
  LoggerManager, logger_manager, add_logger,
}
use sylar_net_server_framewo.Log.Scanning.{parse-ends}
use sylar_net_server_framewo.Log.RoundTrip.{
  Piece, text, letter, braced, written, Separated, Items, no_items, next_item, piece_item,
  log_formatter-written,
}
use sylar_net_server_framewo.Log.Made.{Made}

-- A pattern that ends in the format of a date: "%p%d{".
abbrev broken : List ℕ
broken = 37 ∷ 112 ∷ 37 ∷ 100 ∷ 123 ∷ []

parse_example :
    (parts : List Part) × (has_error : Bool) × (parse 5 [] broken ≡ some (parts, has_error))
parse_example = parse-ends 5 [] broken (omega arith)

-- "%p at %d{%H}%n"
abbrev pieces : List Piece
pieces = letter 112 ∷ text 32 (97 ∷ 116 ∷ 32 ∷ []) ∷ braced 100 (37 ∷ 72 ∷ []) ∷ letter 110 ∷ []

abbrev pieces_items : List FormatItem
pieces_items =
    level_item
    ∷ string_item (32 ∷ 97 ∷ 116 ∷ 32 ∷ [])
    ∷ date_time_item (37 ∷ 72 ∷ [])
    ∷ new_line_item
    ∷ []

pieces-Separated : Separated pieces
unfolding is_alpha written
pieces-Separated = (
  refl,
  refl,
  ((refl, (refl, (refl, (refl, tt)))), refl, (refl, (refl, (refl, tt)), (refl, tt, tt))),
)

pieces-Items : Items pieces pieces_items
unfolding piece_item format_item
pieces-Items =
    next_item _ _ _ _ refl
      (next_item _ _ _ _ refl (next_item _ _ _ _ refl (next_item _ _ _ _ refl no_items)))

written_example :
    log_formatter (written pieces)
    ≡ some (record { pattern = written pieces; items = pieces_items; has_error = false })
written_example = log_formatter-written pieces pieces_items pieces-Separated pieces-Items

abbrev plain : LogFormatter
plain = record { pattern = 37 ∷ 112 ∷ []; items = level_item ∷ []; has_error = false }

abbrev event : LogEvent
event = record {
  file = 97 ∷ [];
  line = 12;
  elapse = 0;
  thread_id = 1;
  fiber_id = 0;
  time = 0;
  thread_name = [];
  content = 104 ∷ 105 ∷ [];
  logger_name = 120 ∷ [];
  level = warn;
}

-- The root's appender has a formatter of its own, and the root gets the pattern "%m".
abbrev messages : LogFormatter
messages = record { pattern = 37 ∷ 109 ∷ []; items = message_item ∷ []; has_error = false }

abbrev first : LoggerManager
first = logger_manager plain

abbrev owned : LogAppender
owned = set_appender_formatter (some 1) (with_formatter 0 (new_appender stdout))

abbrev before : LoggerManager
before = record first { formatters = plain ∷ plain ∷ []; appenders = owned ∷ [] }

abbrev set_up : LoggerManager
set_up = record before {
  formatters = plain ∷ plain ∷ messages ∷ [];
  loggers = record (new_logger (114 ∷ 111 ∷ 111 ∷ 116 ∷ []) 2) { appenders = 0 ∷ [] } ∷ [];
}

-- A logger without appenders, which goes on to the root.
abbrev two : LoggerManager
two = (add_logger plain (120 ∷ []) set_up).1
