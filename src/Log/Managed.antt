-- ===== src/Log/Managed.antt =====
-- Adding and leaving out loggers and appenders keeps every formatter in place (log/logger.cpp).
use sylar_net_server_framewo.Common.{
  ℕ, zero, suc, ◌≤◌, ◌<◌, ◌≡◌, refl, sym, ap, ◌∙◌, subst, inl, inr, none, some, List, [], ◌∷◌, ◌++◌,
  arith, ◌==◌, length, get_elem?, set, All, All-append, length-append, Bool-cases, Option-cases,
  All-weaken, All-set, get-append,
}
use sylar_net_server_framewo.Common.Checked.{ok, aborted, undefined}
use sylar_net_server_framewo.Log.Items.{LogFormatter}
use sylar_net_server_framewo.Log.Defs.{
  Sink, LogAppender, Logger, LoggerManager, new_appender, new_logger, with_formatter, add_appender,
  del_appender, change_appenders, find_name, add_logger,
}
use sylar_net_server_framewo.Log.Loggers.{Good, Pointed, LoggerOk, IsValid, All-get, some_injective}

-- One place is set, and holds something that is as good.
pub Good-set :
    (n : ℕ) (heap : List LogAppender) (a b : ℕ) (v : LogAppender) (f : ℕ)
    → v.formatter ≡ some f
    → f < n
    → Good n heap a
    → Good n (set heap b v) a
Good-set n [] a b v f e s g = g
Good-set n (x ∷ heap) zero zero v f e s g = (v, f, refl, e, s)
Good-set n (x ∷ heap) zero (suc b) v f e s g = g
Good-set n (x ∷ heap) (suc a) zero v f e s g = g
Good-set n (x ∷ heap) (suc a) (suc b) v f e s g = Good-set n heap a b v f e s g

Good-set_self :
    (n : ℕ) (heap : List LogAppender) (a : ℕ) (v x : LogAppender) (f : ℕ)
    → get_elem? heap a ≡ some x
    → v.formatter ≡ some f
    → f < n
    → Good n (set heap a v) a
Good-set_self n [] a v x f k e s = cc
Good-set_self n (y ∷ heap) zero v x f k e s = (v, f, refl, e, s)
Good-set_self n (y ∷ heap) (suc a) v x f k e s = Good-set_self n heap a v x f k e s

pub LoggerOk-weaken :
    (n n' : ℕ) (heap heap' : List LogAppender)
    → n ≤ n'
    → ((a : ℕ) → Good n heap a → Good n' heap' a)
    → (g : Logger) → LoggerOk n heap g
    → LoggerOk n' heap' g
LoggerOk-weaken n n' heap heap' le f g h = record {
  goes_on = h.goes_on;
  formatted = omega (arith, h.formatted);
  attached = All-weaken (Good n heap) (Good n' heap') f g.appenders h.attached;
}

-- The root stays where a logger is set that keeps its root.
rooted-set :
    (gs : List Logger) (l : ℕ) (old new : Logger)
    → get_elem? gs l ≡ some old
    → new.root ≡ old.root
    → (g : Logger) × (get_elem? gs 0 ≡ some g) × (g.root ≡ none)
    → (g : Logger) × (get_elem? (set gs l new) 0 ≡ some g) × (g.root ≡ none)
rooted-set [] l old new e r h = cc
rooted-set (x ∷ gs) zero old new e r h =
    let p : old ≡ h.0 = some_injective (sym e ∙ h.1) in (new, refl, r ∙ ap (λ t. t.root) p ∙ h.2)
rooted-set (x ∷ gs) (suc l) old new e r h = h

pub Pointed-weaken : (n n' : ℕ) → n ≤ n' → (a : LogAppender) → Pointed n a → Pointed n' a
Pointed-weaken n n' h a (inl e) = inl e
Pointed-weaken n n' h a (inr (f, e, s)) = inr (f, e, omega arith)

pub ok_subst {ℓ κ} : {A : Type ℓ} {x y : A} (P : A → Type κ) → ok x ≡ ok y → P x → P y
ok_subst {x = x} P e h = subst P (ap (λ c. elim c [ ok z ↦ z | aborted ↦ x | undefined ↦ x ]) e) h

-- What a method does to one logger and to the appenders.
pub changed-IsValid :
    (m : LoggerManager) (l : ℕ) (old new : Logger) (heap : List LogAppender)
    (formatters : List LogFormatter)
    → IsValid m
    → get_elem? m.loggers l ≡ some old
    → new.root ≡ old.root
    → length m.formatters ≤ length formatters
    → ((a : ℕ) → Good (length m.formatters) m.appenders a → Good (length formatters) heap a)
    → LoggerOk (length formatters) heap new
    → All (Pointed (length formatters)) heap
    → IsValid
        (record m { formatters = formatters; appenders = heap; loggers = set m.loggers l new })
changed-IsValid m l old new heap formatters v e r le f g p = record {
  pointed = p;
  rooted = rooted-set m.loggers l old new e r v.rooted;
  every =
      All-set (LoggerOk (length formatters) heap) m.loggers l new
        (All-weaken (LoggerOk (length m.formatters) m.appenders) (LoggerOk (length formatters) heap)
          (LoggerOk-weaken (length m.formatters) (length formatters) m.appenders heap le f)
          m.loggers v.every)
        g;
}

-- The other loggers keep their appenders, which keep a formatter.
pub add_logger-IsValid :
    (f : LogFormatter) (name : List ℕ) (m : LoggerManager)
    → IsValid m
    → IsValid (add_logger f name m).1
unfolding add_logger new_logger
add_logger-IsValid f name m v = elim (Option-cases (find_name name m.names)) [
  | inr (l, e) ↦ rw (add_logger, e) v
  | inl e ↦
      let n = length m.formatters in
      let grown = length-append m.formatters (f ∷ []) in
      let more : n ≤ length (m.formatters ++ f ∷ []) = omega (arith, grown) in
      rw (add_logger, e)
        (record {
          pointed =
              All-weaken (Pointed n) (Pointed (length (m.formatters ++ f ∷ [])))
                (Pointed-weaken n (length (m.formatters ++ f ∷ [])) more) m.appenders v.pointed;
          rooted = (v.rooted.0, get-append m.loggers _ 0 v.rooted.0 v.rooted.1, v.rooted.2);
          every =
              All-append (LoggerOk (length (m.formatters ++ f ∷ [])) m.appenders) m.loggers _
                (All-weaken (LoggerOk n m.appenders)
                  (LoggerOk (length (m.formatters ++ f ∷ [])) m.appenders)
                  (LoggerOk-weaken n (length (m.formatters ++ f ∷ [])) m.appenders m.appenders more
                    (λ a g. (g.0, g.1, g.2, g.3, omega (arith, g.4))))
                  m.loggers v.every)
                (
                  record { goes_on = inr refl; formatted = omega (arith, grown); attached = tt },
                  tt,
                );
        })
]

pub new_appender-IsValid :
    (sink : Sink) (m : LoggerManager)
    → IsValid m
    → IsValid (record m { appenders = m.appenders ++ new_appender sink ∷ [] })
unfolding new_appender
new_appender-IsValid sink m v = record {
  pointed = All-append (Pointed (length m.formatters)) m.appenders _ v.pointed (inl refl, tt);
  rooted = v.rooted;
  every =
      All-weaken (LoggerOk (length m.formatters) m.appenders)
        (LoggerOk (length m.formatters) (m.appenders ++ new_appender sink ∷ []))
        (LoggerOk-weaken (length m.formatters) (length m.formatters) m.appenders
          (m.appenders ++ new_appender sink ∷ []) (omega arith)
          (λ a g. (g.0, g.1, get-append m.appenders _ a g.0 g.2, g.3, g.4)))
        m.loggers v.every;
}

-- The appender that is added gets the logger's formatter, or keeps its own.
with_formatter-some :
    (n f : ℕ) (a : LogAppender)
    → f < n
    → Pointed n a
    → (g : ℕ) × ((with_formatter f a).formatter ≡ some g) × (g < n)
with_formatter-some n f a h (inl e) = (f, simp (with_formatter, e) refl, h)
with_formatter-some n f a h (inr (g, e, s)) = (g, simp (with_formatter, e) refl, s)

pub add_appender-IsValid :
    (l a : ℕ) (m m' : LoggerManager) → IsValid m → add_appender l a m ≡ ok m' → IsValid m'
unfolding add_appender
add_appender-IsValid l a m m' v h = elim (Option-cases (get_elem? m.loggers l)) [
  | inl e ↦ let q : undefined ≡ ok m' = rw (add_appender, e) at h in cc
  | inr (logger, e) ↦ elim (Option-cases (get_elem? m.appenders a)) [
    | inl k ↦ let q : undefined ≡ ok m' = rw (add_appender, e, k) at h in cc
    | inr (x, k) ↦
        let n = length m.formatters in
        let q = rw (add_appender, e, k) at h in
        let old = All-get (LoggerOk n m.appenders) m.loggers l logger v.every e in
        let (f, p, s) =
          with_formatter-some n logger.formatter x old.formatted
            (All-get (Pointed n) m.appenders a x v.pointed k) in
        let new = with_formatter logger.formatter x in
        let kept : (b : ℕ) → Good n m.appenders b → Good n (set m.appenders a new) b =
          λ b. Good-set n m.appenders b a new f p s in
        ok_subst IsValid q (
          changed-IsValid m l logger (record logger { appenders = logger.appenders ++ a ∷ [] })
            (set m.appenders a new) m.formatters v e refl (omega arith) kept
            (record {
              goes_on = old.goes_on;
              formatted = old.formatted;
              attached =
                  All-append (Good n (set m.appenders a new)) logger.appenders (a ∷ [])
                    (All-weaken (Good n m.appenders) (Good n (set m.appenders a new)) kept
                      logger.appenders old.attached)
                    (Good-set_self n m.appenders a new x f k p s, tt);
            })
            (All-set (Pointed n) m.appenders a new v.pointed (inr (f, p, s))))
  ]
]

-- Leaving out appenders
pub All-del_appender :
    (P : ℕ → Type 0) (a : ℕ) (as' : List ℕ) → All P as' → All P (del_appender a as')
unfolding del_appender
All-del_appender P a [] h = tt
All-del_appender P a (b ∷ bs) h = elim (Bool-cases (b == a)) [
  | inl e ↦ rw e h.1
  | inr e ↦ rw e (h.0, All-del_appender P a bs h.1)
]

pub change_appenders-IsValid :
    (f : List ℕ → List ℕ) (l : ℕ) (m m' : LoggerManager)
    → ((P : ℕ → Type 0) (as' : List ℕ) → All P as' → All P (f as'))
    → IsValid m
    → change_appenders f l m ≡ ok m'
    → IsValid m'
unfolding change_appenders
change_appenders-IsValid f l m m' keeps v h = elim (Option-cases (get_elem? m.loggers l)) [
  | inl e ↦ let q : undefined ≡ ok m' = rw (change_appenders, e) at h in cc
  | inr (logger, e) ↦
      let n = length m.formatters in
      let q = rw (change_appenders, e) at h in
      let old = All-get (LoggerOk n m.appenders) m.loggers l logger v.every e in
      ok_subst IsValid q (
        changed-IsValid m l logger (record logger { appenders = f logger.appenders }) m.appenders
          m.formatters v e refl (omega arith) (λ a g. g)
          (record {
            goes_on = old.goes_on;
            formatted = old.formatted;
            attached = keeps (Good n m.appenders) logger.appenders old.attached;
          })
          v.pointed)
]
