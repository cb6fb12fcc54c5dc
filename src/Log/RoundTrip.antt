-- ===== src/Log/RoundTrip.antt =====
-- Patterns that `LogFormatter::init` reads back (log/logger.cpp).
use sylar_net_server_framewo.Common.{
  ℕ, zero, suc, ◌+◌, ◌-◌, ◌≤◌, ◌≡◌, refl, sym, ap, ◌∙◌, Bool, true, false, not, ◌&&◌, ◌||◌, Option,
  some, List, [], ◌∷◌, ◌++◌, map, arith, ◌==◌, length, All, length-append, and_false,
}
use mathlib.Core.List.{append_assoc, append-nil}
use sylar_net_server_framewo.Log.Pattern.{
  Part, scan_format, scan_name, is_alpha, brace_open, brace_close, percent, parse, flush, literal,
  is_empty,
}
use sylar_net_server_framewo.Log.Items.{
  FormatItem, string_item, format_item, find_item, item_of, items_of, init, log_formatter,
}

-- What a pattern is written from: a text, `%` with a letter, and `%` with a letter and a format in
-- braces. A text is not empty.
pub data Piece : Type 0 where
  text : ℕ → List ℕ → Piece
  letter : ℕ → Piece
  braced : ℕ → List ℕ → Piece

unfoldable pub written : List Piece → List ℕ
written [] = []
written (text c s ∷ ps) = c ∷ s ++ written ps
written (letter c ∷ ps) = percent ∷ c ∷ written ps
written (braced c fmt ∷ ps) = percent ∷ c ∷ brace_open ∷ fmt ++ (brace_close ∷ written ps)

abbrev part : Piece → Part
part (text c s) = literal (c ∷ s)
part (letter c) = record { item = true; text = c ∷ []; format = [] }
part (braced c fmt) = record { item = true; text = c ∷ []; format = fmt }

-- A character that ends the name of an item.
abbrev stops : ℕ → Bool
stops c = not (is_alpha c) && not (c == brace_open) && not (c == brace_close)

-- What may follow a letter, and what may follow a text.
abbrev pub StopsName : List ℕ → Type 0
StopsName [] = Unit
StopsName (c ∷ cs) = (not (is_alpha c) && not (c == brace_open) && not (c == brace_close)) ≡ true

abbrev pub is_text : List Piece → Bool
is_text [] = false
is_text (text c s ∷ ps) = true
is_text (letter c ∷ ps) = false
is_text (braced c fmt ∷ ps) = false

-- Texts have no `%` and do not stand side by side; a letter is a letter, and is not run together with
-- what follows; a format has no closing brace.
abbrev pub Separated : List Piece → Type 0
Separated [] = Unit
Separated (text c s ∷ ps) =
    All (λ x. (x == percent) ≡ false) (c ∷ s) × (is_text ps ≡ false) × Separated ps
Separated (letter c ∷ ps) = (is_alpha c ≡ true) × StopsName (written ps) × Separated ps
Separated (braced c fmt ∷ ps) =
    (is_alpha c ≡ true) × All (λ x. (x == brace_close) ≡ false) fmt × Separated ps

alpha_ne :
    (c : ℕ)
    → is_alpha c ≡ true
    → ((c == percent) ≡ false) × ((c == brace_open) ≡ false) × ((c == brace_close) ≡ false)
unfolding is_alpha
alpha_ne c h = (ground arith, ground arith, ground arith)

scan_letter :
    (c : ℕ) (rest : List ℕ)
    → is_alpha c ≡ true
    → StopsName rest
    → scan_name [] [] (c ∷ rest) ≡ record { str = c ∷ []; fmt = []; in_format = false; rest = rest }
unfolding scan_name
scan_letter c [] h s = let (p, o, e) = alpha_ne c h in rw (h, o) refl
scan_letter c (d ∷ ds) h s = let (p, o, e) = alpha_ne c h in rw (h, o, s) refl

scan_braces :
    (name format : List ℕ) (c : ℕ) (fmt rest : List ℕ)
    → All (λ x. (x == brace_close) ≡ false) fmt
    → scan_format name format (c ∷ []) (fmt ++ brace_close ∷ rest)
      ≡ record { str = c ∷ []; fmt = format ++ fmt; in_format = false; rest = rest }
unfolding scan_format
scan_braces name format c [] rest h =
    λ i. record { str = c ∷ []; fmt = sym (append-nil format) i; in_format = false; rest = rest }
scan_braces name format c (f ∷ fmt) rest h =
    let test : (is_empty (fmt ++ brace_close ∷ rest) && false) ≡ false = and_false _ in
    rw (h.0, test)
      (scan_braces (name ++ f ∷ []) (format ++ f ∷ []) c fmt rest h.1 ∙ λ i. record {
        str = c ∷ [];
        fmt = append_assoc format (f ∷ []) fmt i;
        in_format = false;
        rest = rest;
      })

scan_braced :
    (c : ℕ) (fmt rest : List ℕ)
    → is_alpha c ≡ true
    → All (λ x. (x == brace_close) ≡ false) fmt
    → scan_name [] [] (c ∷ brace_open ∷ fmt ++ (brace_close ∷ rest))
      ≡ record { str = c ∷ []; fmt = fmt; in_format = false; rest = rest }
unfolding scan_name is_alpha
scan_braced c fmt rest h g =
    let (p, o, e) = alpha_ne c h in rw (h, o) (scan_braces (c ∷ brace_open ∷ []) [] c fmt rest g)

parse_text :
    (s nstr rest : List ℕ) (k fuel : ℕ)
    → k ≡ length s + fuel
    → All (λ x. (x == percent) ≡ false) s
    → parse k nstr (s ++ rest) ≡ parse fuel (nstr ++ s) rest
unfolding parse
parse_text [] nstr rest k fuel e h =
    let p : k ≡ fuel = omega arith in λ i. parse (p i) (sym (append-nil nstr) i) rest
parse_text (c ∷ s) nstr rest zero fuel e h = absurd (omega arith)
parse_text (c ∷ s) nstr rest (suc k) fuel e h = rw h.0 (
    parse_text s (nstr ++ c ∷ []) rest k fuel (omega arith) h.1 ∙ λ i.
    parse fuel (append_assoc nstr (c ∷ []) s i) rest)

-- An item, with the name that the inner loop finds.
parse_item :
    (fuel c : ℕ) (nstr cs fmt rest : List ℕ) (ps : List Part)
    → is_alpha c ≡ true
    → scan_name [] [] (c ∷ cs) ≡ record { str = c ∷ []; fmt = fmt; in_format = false; rest = rest }
    → parse fuel [] rest ≡ some (ps, false)
    → parse (suc fuel) nstr (percent ∷ c ∷ cs)
      ≡ some (flush nstr ++ (record { item = true; text = c ∷ []; format = fmt } ∷ ps), false)
unfolding parse
parse_item fuel c nstr cs fmt rest ps h scanned behind =
    let (p, o, e) = alpha_ne c h in
    rw (parse, p, scanned, behind)
      (λ i. some (
        flush nstr
            ++ (record { item = true; text = (scanned i).str; format = (scanned i).fmt } ∷ ps),
        false,
      ))

-- Where the text that was collected does not run into another.
abbrev Ready : List ℕ → List Piece → Type 0
Ready nstr ps = (is_empty nstr || not (is_text ps)) ≡ true

parse-written :
    (ps : List Piece) (fuel : ℕ) (nstr : List ℕ)
    → Separated ps
    → length (written ps) ≤ fuel
    → Ready nstr ps
    → parse fuel nstr (written ps) ≡ some (flush nstr ++ map part ps, false)
unfolding written
parse-written [] fuel nstr s h r =
    unfold parse in λ i. some (sym (append-nil (flush nstr)) i, false)
parse-written (text c t ∷ ps) fuel [] s h r =
    let room = length-append t (written ps) in
    parse_text (c ∷ t) [] (written ps) fuel (fuel - length (c ∷ t)) (omega (arith, room)) s.0
    ∙ parse-written ps (fuel - length (c ∷ t)) (c ∷ t) s.2 (omega (arith, room)) (ap not s.1)
parse-written (text c t ∷ ps) fuel (n ∷ nstr) s h r = cc
parse-written (letter c ∷ ps) zero nstr s h r = absurd (omega arith)
parse-written (letter c ∷ ps) (suc fuel) nstr s h r =
    parse_item fuel c nstr (written ps) [] (written ps) (map part ps) s.0
      (scan_letter c (written ps) s.0 s.1) (parse-written ps fuel [] s.2 (omega arith) refl)
parse-written (braced c fmt ∷ ps) zero nstr s h r = absurd (omega arith)
parse-written (braced c fmt ∷ ps) (suc fuel) nstr s h r =
    let room = length-append fmt (brace_close ∷ written ps) in
    parse_item fuel c nstr (brace_open ∷ fmt ++ (brace_close ∷ written ps)) fmt (written ps)
      (map part ps) s.0 (scan_braced c fmt (written ps) s.0 s.1)
      (parse-written ps fuel [] s.2 (omega (arith, room)) refl)

-- The item of a piece; a letter that is none has no item.
unfoldable pub piece_item : Piece → Option FormatItem
piece_item (text c s) = some (string_item (c ∷ s))
piece_item (letter c) = format_item c []
piece_item (braced c fmt) = format_item c fmt

pub data Items : List Piece → List FormatItem → Type 0 where
  no_items : Items [] []
  next_item :
      (p : Piece) (ps : List Piece) (i : FormatItem) (is : List FormatItem)
      → piece_item p ≡ some i
      → Items ps is
      → Items (p ∷ ps) (i ∷ is)

item_of-part : (p : Piece) (i : FormatItem) → piece_item p ≡ some i → item_of (part p) ≡ (i, false)
unfolding piece_item item_of find_item
item_of-part (text c s) i e = let q : string_item (c ∷ s) ≡ i = cc in λ j. (q j, false)
item_of-part (letter c) i e = rw (item_of, e) refl
item_of-part (braced c fmt) i e = rw (item_of, e) refl

items_of-parts :
    (ps : List Piece) (is : List FormatItem) → Items ps is → items_of (map part ps) ≡ (is, false)
unfolding items_of
items_of-parts _ _ no_items = refl
items_of-parts _ _ (next_item p ps i is e h) = rw (item_of-part p i e, items_of-parts ps is h) refl

-- A formatter that is made from a pattern of separated pieces, whose letters are known, has the items
-- of the pieces in their order, and no error.
pub log_formatter-written :
    (ps : List Piece) (is : List FormatItem)
    → Separated ps
    → Items ps is
    → log_formatter (written ps)
      ≡ some (record { pattern = written ps; items = is; has_error = false })
unfolding log_formatter init
log_formatter-written ps is s h =
    let e = parse-written ps (length (written ps)) [] s (omega arith) refl in
    rw (init, e, items_of-parts ps is h) refl
