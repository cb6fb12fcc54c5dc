-- ===== src/Log/Items.antt =====
-- `LogFormatter`, its items and `LogLevel` (log/logger.h and .cpp). What `localtime_r` and `strftime`
-- make of a time is a parameter.
use sylar_net_server_framewo.Common.{
  ℕ, Bool, true, false, not, ◌||◌, Option, none, some, List, [], ◌∷◌, ◌++◌, ◌==◌, if◌then◌else◌,
  length,
}
use sylar_net_server_framewo.Addr.Text.{decimal}
use sylar_net_server_framewo.Addr.Lookup.{same_text}
use sylar_net_server_framewo.Log.Pattern.{Part, parse, is_empty}

pub data Level : Type 0 where
  unknow debug info warn error fatal : Level

abbrev pub level_number : Level → ℕ
level_number unknow = 0
level_number debug = 1
level_number info = 2
level_number warn = 3
level_number error = 4
level_number fatal = 5

-- `LogLevel::ToString`: the names of the levels, and "UNKNOW"
unfoldable pub to_string : Level → List ℕ
to_string debug = 68 ∷ 69 ∷ 66 ∷ 85 ∷ 71 ∷ []
to_string info = 73 ∷ 78 ∷ 70 ∷ 79 ∷ []
to_string warn = 87 ∷ 65 ∷ 82 ∷ 78 ∷ []
to_string error = 69 ∷ 82 ∷ 82 ∷ 79 ∷ 82 ∷ []
to_string fatal = 70 ∷ 65 ∷ 84 ∷ 65 ∷ 76 ∷ []
to_string unknow = 85 ∷ 78 ∷ 75 ∷ 78 ∷ 79 ∷ 87 ∷ []

-- `str == #val_up || str == #val_lo`, where `#` keeps the quotes of the string literals.
abbrev quoted : List ℕ → List ℕ
quoted s = 34 ∷ s ++ 34 ∷ []

-- `LogLevel::FromString`
unfoldable pub from_string : List ℕ → Level
from_string str =
    if same_text str (quoted (68 ∷ 69 ∷ 66 ∷ 85 ∷ 71 ∷ []))
      || same_text str (quoted (100 ∷ 101 ∷ 98 ∷ 117 ∷ 103 ∷ []))
    then debug
    else if same_text str (quoted (73 ∷ 78 ∷ 70 ∷ 79 ∷ []))
        || same_text str (quoted (105 ∷ 110 ∷ 102 ∷ 111 ∷ []))
    then info
    else if same_text str (quoted (119 ∷ 97 ∷ 114 ∷ 110 ∷ []))
        || same_text str (quoted (119 ∷ 97 ∷ 114 ∷ 110 ∷ []))
    then warn
    else if same_text str (quoted (69 ∷ 82 ∷ 82 ∷ 79 ∷ 82 ∷ []))
        || same_text str (quoted (101 ∷ 114 ∷ 114 ∷ 111 ∷ 114 ∷ []))
    then error
    else if same_text str (quoted (70 ∷ 65 ∷ 84 ∷ 65 ∷ 76 ∷ []))
        || same_text str (quoted (102 ∷ 97 ∷ 116 ∷ 97 ∷ 108 ∷ []))
    then fatal
    else unknow

-- `LogEvent`, with the name of its logger
pub record LogEvent : Type 0 where
  pub file : List ℕ
  pub line : ℕ
  pub elapse : ℕ
  pub thread_id : ℕ
  pub fiber_id : ℕ
  pub time : ℕ
  pub thread_name : List ℕ
  pub content : List ℕ
  pub logger_name : List ℕ
  pub level : Level

-- The subclasses of `FormatItem`.
pub data FormatItem : Type 0 where
  message_item level_item elapse_item name_item thread_id_item new_line_item : FormatItem
  filename_item line_item tab_item fiber_id_item thread_name_item : FormatItem
  date_time_item string_item : List ℕ → FormatItem

-- "%Y-%m-%d %H:%M:%S"
abbrev pub default_date : List ℕ
default_date =
    37 ∷ 89 ∷ 45 ∷ 37 ∷ 109 ∷ 45 ∷ 37 ∷ 100 ∷ 32 ∷ 37 ∷ 72 ∷ 58 ∷ 37 ∷ 77 ∷ 58 ∷ 37 ∷ 83 ∷ []

-- `s_format_items`, by the text of a part with one character
unfoldable pub format_item : ℕ → List ℕ → Option FormatItem
format_item c fmt =
    if c == 109
    then some message_item
    else if c == 112
    then some level_item
    else if c == 114
    then some elapse_item
    else if c == 99
    then some name_item
    else if c == 116
    then some thread_id_item
    else if c == 110
    then some new_line_item
    else if c == 100
    then some (date_time_item (if is_empty fmt then default_date else fmt))
    else if c == 102
    then some filename_item
    else if c == 108
    then some line_item
    else if c == 84
    then some tab_item
    else if c == 70
    then some fiber_id_item
    else if c == 78
    then some thread_name_item
    else none

-- `s_format_items.find`
unfoldable pub find_item : List ℕ → List ℕ → Option FormatItem
find_item [] fmt = none
find_item (c ∷ []) fmt = format_item c fmt
find_item (c ∷ d ∷ cs) fmt = none

-- "<<error_format %" and ">>" around a text
abbrev pub error_format : List ℕ → List ℕ
error_format text =
    (60 ∷ 60 ∷ 101 ∷ 114 ∷ 114 ∷ 111 ∷ 114 ∷ 95 ∷ 102 ∷ 111 ∷ 114 ∷ 109 ∷ 97 ∷ 116 ∷ 32 ∷ 37 ∷ [])
    ++ text
    ++ 62 ∷ 62 ∷ []

-- The last loop of `init`: the item of a part, and whether it is an error.
unfoldable pub item_of : Part → FormatItem × Bool
item_of p = if not p.item then (string_item p.text, false) else elim (find_item p.text p.format) [
  | none ↦ (string_item (error_format p.text), true)
  | some i ↦ (i, false)
]

unfoldable pub items_of : List Part → List FormatItem × Bool
items_of [] = ([], false)
items_of (p ∷ ps) = let rest = items_of ps in ((item_of p).0 ∷ rest.0, (item_of p).1 || rest.1)

pub record LogFormatter : Type 0 where
  pub pattern : List ℕ
  pub items : List FormatItem
  pub has_error : Bool

-- `LogFormatter::init`, which adds to the items that are there. The pattern's length is fuel enough.
unfoldable pub init : LogFormatter → Option LogFormatter
init f = elim (parse (length f.pattern) [] f.pattern) [
  | none ↦ none
  | some r ↦
      let made = items_of r.0 in
      some (record f { items = f.items ++ made.0; has_error = f.has_error || (r.1 || made.1) })
]

-- `LogFormatter::LogFormatter` and `reset`
unfoldable pub log_formatter : List ℕ → Option LogFormatter
log_formatter pattern = init (record { pattern = pattern; items = []; has_error = false })

unfoldable pub reset : List ℕ → LogFormatter → Option LogFormatter
reset pattern f = init (record f { pattern = pattern })

-- `format` of the items
unfoldable pub item_text : (List ℕ → ℕ → List ℕ) → Level → LogEvent → FormatItem → List ℕ
item_text strftime level e message_item = e.content
item_text strftime level e level_item = to_string level
item_text strftime level e elapse_item = decimal e.elapse
item_text strftime level e name_item = e.logger_name
item_text strftime level e thread_id_item = decimal e.thread_id
item_text strftime level e new_line_item = 10 ∷ []
item_text strftime level e filename_item = e.file
item_text strftime level e line_item = decimal e.line
item_text strftime level e tab_item = 9 ∷ []
item_text strftime level e fiber_id_item = decimal e.fiber_id
item_text strftime level e thread_name_item = e.thread_name
item_text strftime level e (date_time_item fmt) = strftime fmt e.time
item_text strftime level e (string_item text) = text

-- `LogFormatter::format`
unfoldable pub format_items : (List ℕ → ℕ → List ℕ) → Level → LogEvent → List FormatItem → List ℕ
format_items strftime level e [] = []
format_items strftime level e (i ∷ is) =
    item_text strftime level e i ++ format_items strftime level e is

unfoldable pub format : (List ℕ → ℕ → List ℕ) → Level → LogEvent → LogFormatter → List ℕ
format strftime level e f = format_items strftime level e f.items
