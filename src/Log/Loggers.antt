-- ===== src/Log/Loggers.antt =====
-- Loggers always have what they log with (log/logger.cpp).
use sylar_net_server_framewo.Common.{
  ℕ, zero, suc, ◌<◌, ◌≡◌, refl, sym, ap, ◌∙◌, subst, ◌⊎◌, inl, inr, none, some, List, [], ◌∷◌, ◌++◌,
  arith, length, get_elem?, All, Bool-cases, Option-cases,
}
use sylar_net_server_framewo.Common.Checked.{ok}
use sylar_net_server_framewo.Log.Items.{Level, LogEvent, LogFormatter, format}
use sylar_net_server_framewo.Log.Defs.{
  Sink, LogAppender, Logger, LoggerManager, level_le, Strftime, emit, append_log, append_all, log,
}

List-cases {ℓ} : {A : Type ℓ} (xs : List A) → (xs ≡ []) ⊎ ((x : A) × (ys : List A) × (xs ≡ x ∷ ys))
List-cases [] = inl refl
List-cases (x ∷ xs) = inr (x, xs, refl)

-- An appender at `a` that has one of `n` formatters.
abbrev pub Good : ℕ → List LogAppender → ℕ → Type 0
Good n heap a =
    (appender : LogAppender) × (f : ℕ) × (get_elem? heap a ≡ some appender)
    × (appender.formatter ≡ some f)
    × (f < n)

-- A logger is the root or goes on to it, and each of its appenders has a formatter.
pub record LoggerOk (n : ℕ) (heap : List LogAppender) (g : Logger) : Type 0 where
  pub goes_on : (g.root ≡ none) ⊎ (g.root ≡ some 0)
  pub formatted : g.formatter < n
  pub attached : All (Good n heap) g.appenders

-- The formatter of an appender, if it has one, is one of `n`.
abbrev pub Pointed : ℕ → LogAppender → Type 0
Pointed n a = (a.formatter ≡ none) ⊎ (f : ℕ) × (a.formatter ≡ some f) × (f < n)

pub record IsValid (m : LoggerManager) : Type 0 where
  pub pointed : All (Pointed (length m.formatters)) m.appenders
  pub rooted : (g : Logger) × (get_elem? m.loggers 0 ≡ some g) × (g.root ≡ none)
  pub every : All (LoggerOk (length m.formatters) m.appenders) m.loggers

pub inside {ℓ} :
    {A : Type ℓ} (xs : List A) (i : ℕ) → i < length xs → (x : A) × (get_elem? xs i ≡ some x)
inside [] i h = absurd (omega arith)
inside (x ∷ xs) zero h = (x, refl)
inside (x ∷ xs) (suc i) h = inside xs i (omega arith)

pub some_injective {ℓ} : {A : Type ℓ} {x y : A} → some x ≡ some y → x ≡ y
some_injective {A = A} {x = x} e = ap (λ o. elim o [ none ↦ x | some z ↦ z ]) e

pub All-get {ℓ κ} :
    {A : Type ℓ} (P : A → Type κ) (xs : List A) (i : ℕ) (x : A)
    → All P xs
    → get_elem? xs i ≡ some x
    → P x
All-get P [] i x h e = cc
All-get P (y ∷ ys) zero x h e = let q : y ≡ x = some_injective e in subst P q h.0
All-get P (y ∷ ys) (suc i) x h e = All-get P ys i x h.1 e

module _ (strftime : Strftime) (formatters : List LogFormatter) (level : Level) (e : LogEvent) where
  append_log-ends :
      (a : LogAppender) (f : ℕ)
      → a.formatter ≡ some f
      → f < length formatters
      → (out : List (Sink × List ℕ)) × (append_log strftime formatters level e a ≡ ok out)
  unfolding append_log
  append_log-ends a f h s =
      let (formatter, g) = inside formatters f s in
      (
        emit a.sink (level_le a.level level) (format strftime level e formatter),
        simp (append_log, h, g) refl,
      )

module _ (strftime : Strftime) (m : LoggerManager) (level : Level) (e : LogEvent) where
  append_all-ends :
      (as' : List ℕ)
      → All (Good (length m.formatters) m.appenders) as'
      → (out : List (Sink × List ℕ)) × (append_all strftime m level e as' ≡ ok out)
  unfolding append_all
  append_all-ends [] h = ([], refl)
  append_all-ends (a ∷ as') h =
      let (appender, f, g, k, s) = h.0 in
      let (out, p) = append_log-ends strftime m.formatters level e appender f k s in
      let (rest, q) = append_all-ends as' h.1 in (out ++ rest, rw (append_all, g, p, q) refl)

  -- Whatever a logger's root does, it logs if its root does.
  log-with_root :
      (fuel l : ℕ) (g : Logger)
      → get_elem? m.loggers l ≡ some g
      → LoggerOk (length m.formatters) m.appenders g
      → ((r : ℕ)
          → g.root ≡ some r
          → (out : List (Sink × List ℕ)) × (log fuel strftime m r level e ≡ ok out))
      → (out : List (Sink × List ℕ)) × (log (suc fuel) strftime m l level e ≡ ok out)
  unfolding log
  log-with_root fuel l g h good root = elim (Bool-cases (level_le g.level level)) [
    | inr low ↦ ([], rw (log, h, low) refl)
    | inl high ↦ elim (List-cases g.appenders) [
      | inr (a, as', q) ↦
          let (out, p) =
            append_all-ends (a ∷ as')
              (subst (All (Good (length m.formatters) m.appenders)) q good.attached) in
          (out, simp (log, h, high, q) p)
      | inl q ↦ elim (Option-cases g.root) [
        | inl none_left ↦ ([], simp (log, h, high, q, none_left) refl)
        | inr (r, k) ↦ let (out, p) = root r k in (out, simp (log, h, high, q, k) p)
      ]
    ]
  ]

  -- In a valid manager every logger logs, or lets it be: no formatter is missing, and there is an end to
  -- the roots.
  pub log-ends :
      (l : ℕ)
      → IsValid m
      → l < length m.loggers
      → (out : List (Sink × List ℕ)) × (log 2 strftime m l level e ≡ ok out)
  log-ends l v h =
      let (g, k) = inside m.loggers l h in
      let (root, k₀, n₀) = v.rooted in
      let good = LoggerOk (length m.formatters) m.appenders in
      let at_root =
        log-with_root 0 0 root k₀ (All-get good m.loggers 0 root v.every k₀)
          (λ r q. let absurdity : none ≡ some r = sym n₀ ∙ q in cc) in
      let g_ok = All-get good m.loggers l g v.every k in
      log-with_root 1 l g k g_ok (λ r q. elim g_ok.goes_on [
        | inl n ↦ let absurdity : none ≡ some r = sym n ∙ q in cc
        | inr z ↦
            let same : 0 ≡ r = some_injective (sym z ∙ q) in
            subst (λ t. (out : List (Sink × List ℕ)) × (log 1 strftime m t level e ≡ ok out)) same
              at_root
      ])
