-- ===== src/Log/Scanning.antt =====
-- The loops of `LogFormatter::init` end (log/logger.cpp).
use sylar_net_server_framewo.Common.{
  ℕ, zero, suc, ◌≤◌, ◌≡◌, refl, inl, inr, Bool, true, false, not, ◌&&◌, ◌||◌, some, List, [], ◌∷◌,
  ◌++◌, arith, ◌==◌, length, Bool-cases,
}
use sylar_net_server_framewo.Log.Pattern.{
  Part, scan_format, scan_name, at_end, is_alpha, brace_open, brace_close, percent, next_is_percent,
  parse, pattern_error, flush,
}

length-scan_format :
    (name format str cs : List ℕ) → length (scan_format name format str cs).rest ≤ length cs
unfolding scan_format
length-scan_format name format str [] = omega arith
length-scan_format name format str (c ∷ cs) =
    let ih =
      length-scan_format (name ++ c ∷ []) (format ++ c ∷ []) (at_end (name ++ c ∷ []) str cs) cs in
    elim (Bool-cases (c == brace_close)) [ inl e ↦ rw e (omega arith) | inr e ↦ rw e (omega arith) ]

-- The inner loop goes forward.
pub length-scan_name : (name str cs : List ℕ) → length (scan_name name str cs).rest ≤ length cs
unfolding scan_name
length-scan_name name str [] = omega arith
length-scan_name name str (c ∷ cs) =
    let ih = length-scan_name (name ++ c ∷ []) (at_end (name ++ c ∷ []) str cs) cs in
    let ih' = length-scan_format (name ++ c ∷ []) [] name cs in
    elim (Bool-cases (not (is_alpha c) && not (c == brace_open) && not (c == brace_close))) [
      | inl e ↦ rw e (omega arith)
      | inr e ↦ elim (Bool-cases (c == brace_open)) [
        | inl b ↦ rw (e, b) (omega arith)
        | inr b ↦ rw (e, b) (omega arith)
      ]
    ]

-- The outer loop ends on every pattern: its length is fuel enough.
pub parse-ends :
    (fuel : ℕ) (nstr cs : List ℕ)
    → length cs ≤ fuel
    → (parts : List Part) × (has_error : Bool) × (parse fuel nstr cs ≡ some (parts, has_error))
unfolding parse
parse-ends fuel nstr [] h = (flush nstr, false, refl)
parse-ends zero nstr (c ∷ cs) h = absurd (omega arith)
parse-ends (suc fuel) nstr (c ∷ cs) h =
    let s = scan_name [] [] cs in
    let (ps, e, plain) = parse-ends fuel (nstr ++ c ∷ []) cs (omega arith) in
    let (ps₂, e₂, broken) = parse-ends fuel nstr cs (omega arith) in
    let (ps₃, e₃, behind) = parse-ends fuel [] s.rest (omega (arith, length-scan_name [] [] cs)) in
    elim (Bool-cases (not (c == percent) || next_is_percent cs)) [
      | inl t ↦ (ps, e, rw t plain)
      | inr t ↦ elim (Bool-cases s.in_format) [
        | inl f ↦ (
          record { item = false; text = pattern_error; format = s.fmt } ∷ ps₂,
          true,
          rw (parse, t, f, broken) refl,
        )
        | inr f ↦ (
          flush nstr ++ (record { item = true; text = s.str; format = s.fmt } ∷ ps₃),
          e₃,
          rw (parse, t, f, behind) refl,
        )
      ]
    ]
