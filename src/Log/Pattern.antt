-- ===== src/Log/Pattern.antt =====
-- `LogFormatter::init`: from a pattern to the items of a formatter (log/logger.cpp). Texts are lists of
-- character codes, and a position in the pattern is what stands from there on.
use sylar_net_server_framewo.Common.{
  ℕ, zero, suc, Bool, true, false, not, ◌&&◌, ◌||◌, Option, none, some, List, [], ◌∷◌, ◌++◌, leb,
  ◌==◌, if◌then◌else◌,
}

abbrev pub percent : ℕ
percent = 37

abbrev pub brace_open : ℕ
brace_open = 123

abbrev pub brace_close : ℕ
brace_close = 125

-- `isalpha`
unfoldable pub is_alpha : ℕ → Bool
is_alpha c = (leb 65 c && leb c 90) || (leb 97 c && leb c 122)

-- An entry of `vec`: its text and its format, with `item` for the type 1.
pub record Part : Type 0 where
  pub item : Bool
  pub text : List ℕ
  pub format : List ℕ

-- What the inner loop leaves: `str`, `fmt`, whether `fmt_status` is 1, and the pattern from `n` on.
pub record Scan : Type 0 where
  pub str : List ℕ
  pub fmt : List ℕ
  pub in_format : Bool
  pub rest : List ℕ

abbrev pub is_empty : List ℕ → Bool
is_empty [] = true
is_empty (c ∷ cs) = false

-- `n == m_pattern.size()` after `++n`, where `name` goes from behind the `%` to there
abbrev pub at_end : List ℕ → List ℕ → List ℕ → List ℕ
at_end name str rest = if is_empty rest && is_empty str then name else str

-- The inner loop with `fmt_status == 1`: `name` goes from behind the `%` to `n`, and `format` from
-- behind the brace.
unfoldable pub scan_format : List ℕ → List ℕ → List ℕ → List ℕ → Scan
scan_format name format str [] = record { str = str; fmt = []; in_format = true; rest = [] }
scan_format name format str (c ∷ cs) =
    let more =
      scan_format (name ++ c ∷ []) (format ++ c ∷ []) (at_end (name ++ c ∷ []) str cs) cs in
    if c == brace_close
    then record { str = str; fmt = format; in_format = false; rest = cs }
    else more

-- The inner loop with `fmt_status == 0`.
unfoldable pub scan_name : List ℕ → List ℕ → List ℕ → Scan
scan_name name str [] = record { str = str; fmt = []; in_format = false; rest = [] }
scan_name name str (c ∷ cs) =
    let more = scan_name (name ++ c ∷ []) (at_end (name ++ c ∷ []) str cs) cs in
    if not (is_alpha c) && not (c == brace_open) && not (c == brace_close)
    then record { str = name; fmt = []; in_format = false; rest = c ∷ cs }
    else if c == brace_open
    then scan_format (name ++ c ∷ []) [] name cs
    else more

abbrev pub literal : List ℕ → Part
literal text = record { item = false; text = text; format = [] }

-- `if(!nstr.empty()) { vec.push_back(...) }`
abbrev pub flush : List ℕ → List Part
flush nstr = if is_empty nstr then [] else literal nstr ∷ []

-- "<<pattern_error>>"
abbrev pub pattern_error : List ℕ
pattern_error =
    60 ∷ 60 ∷ 112 ∷ 97 ∷ 116 ∷ 116 ∷ 101 ∷ 114 ∷ 110 ∷ 95 ∷ 101 ∷ 114 ∷ 114 ∷ 111 ∷ 114 ∷ 62 ∷ 62
    ∷ []

-- `m_pattern[i + 1] == '%'`
abbrev pub next_is_percent : List ℕ → Bool
next_is_percent [] = false
next_is_percent (c ∷ cs) = c == percent

-- The outer loop: the pattern from `i` on and `nstr`; the parts, and whether there was an error. It
-- runs out of fuel where the pattern is longer than that.
unfoldable pub parse : ℕ → List ℕ → List ℕ → Option (List Part × Bool)
parse fuel nstr [] = some (flush nstr, false)
parse zero nstr (c ∷ cs) = none
parse (suc fuel) nstr (c ∷ cs) =
    let plain = parse fuel (nstr ++ c ∷ []) cs in
    let s = scan_name [] [] cs in
    let behind = parse fuel [] s.rest in
    let broken = parse fuel nstr cs in
    if not (c == percent) || next_is_percent cs
    then plain
    else if s.in_format
    then elim broken [
      | none ↦ none
      | some r ↦ some (record { item = false; text = pattern_error; format = s.fmt } ∷ r.0, true)
    ]
    else elim behind [
      | none ↦ none
      | some r ↦
          some (flush nstr ++ (record { item = true; text = s.str; format = s.fmt } ∷ r.0), r.1)
    ]
