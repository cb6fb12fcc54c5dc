-- ===== src/Env/Arguments.antt =====
-- The command lines that `Env::init` takes, and what it makes of them (util/env.cc).
use sylar_net_server_framewo.Common.{
  absurd_bool, ℕ, ◌≡◌, ◌↔◌, refl, sym, ap, ◌∙◌, subst, inl, inr, true, false, none, some, List, [],
  ◌∷◌, ◌++◌, arith, ◌==◌, Bool-cases,
}
use sylar_net_server_framewo.Env.Defs.{Env, add, init_loop, init, dash, slash, before_last_slash}

-- `-key`, and `-key value`.
pub data Opt : Type 0 where
  flag : ℕ → List ℕ → Opt
  valued : ℕ → List ℕ → List ℕ → Opt

pub written : List Opt → List (List ℕ)
written [] = []
written (flag k ks ∷ os) = (dash ∷ k ∷ ks) ∷ written os
written (valued k ks v ∷ os) = (dash ∷ k ∷ ks) ∷ v ∷ written os

-- A value that starts with a dash would be read as a key.
abbrev pub IsValue : List ℕ → Type 0
IsValue [] = Unit
IsValue (c ∷ v) = (c == dash) ≡ false

abbrev pub Readable : List Opt → Type 0
Readable [] = Unit
Readable (flag k ks ∷ os) = Readable os
Readable (valued k ks v ∷ os) = IsValue v × Readable os

-- Every option is added, in the order of the command line; a key without a value has the empty one.
pub add_all : List Opt → Env → Env
add_all [] e = e
add_all (flag k ks ∷ os) e = add_all os (add (k ∷ ks) [] e)
add_all (valued k ks v ∷ os) e = add_all os (add (k ∷ ks) v e)

loop_value :
    (k v : List ℕ) (rest : List (List ℕ)) (e : Env)
    → IsValue v
    → init_loop (some k) (v ∷ rest) e ≡ init_loop none rest (add k v e)
unfolding init_loop
loop_value k [] rest e h = refl
loop_value k (c ∷ []) rest e h = rw h refl
loop_value k (c ∷ d ∷ v) rest e h = rw h refl

-- Both states of the loop, without a key and with one.
loop-written :
    (os : List Opt)
    → Readable os
    → ((e : Env) → init_loop none (written os) e ≡ (true, add_all os e))
      × ((key : List ℕ) (e : Env)
          → init_loop (some key) (written os) e ≡ (true, add_all os (add key [] e)))
unfolding init_loop written add_all
loop-written [] h = ((λ e. refl), (λ key e. refl))
loop-written (flag k ks ∷ os) h =
    let (free, keyed) = loop-written os h in
    ((λ e. keyed (k ∷ ks) e), (λ key e. keyed (k ∷ ks) (add key [] e)))
loop-written (valued k ks v ∷ os) h =
    let (free, keyed) = loop-written os h.1 in
    (
      (λ e. loop_value (k ∷ ks) v (written os) e h.0 ∙ free (add (k ∷ ks) v e)),
      (λ key e.
          loop_value (k ∷ ks) v (written os) (add key [] e) h.0
          ∙ free (add (k ∷ ks) v (add key [] e))),
    )

-- How a command line reads that is taken.
abbrev pub Reads : List (List ℕ) → Env → Env → Type 0
Reads arguments e e' =
    (os : List Opt) × Readable os × (arguments ≡ written os) × (e' ≡ add_all os e)

then_flag :
    (k : ℕ) (ks : List ℕ) (rest : List (List ℕ)) (e e' : Env)
    → Reads rest (add (k ∷ ks) [] e) e'
    → Reads ((dash ∷ k ∷ ks) ∷ rest) e e'
unfolding written add_all
then_flag k ks rest e e' (os, r, p, q) = (flag k ks ∷ os, r, ap (◌∷◌ (dash ∷ k ∷ ks)) p, q)

then_value :
    (k : ℕ) (ks v : List ℕ) (rest : List (List ℕ)) (e e' : Env)
    → IsValue v
    → Reads rest (add (k ∷ ks) v e) e'
    → Reads ((dash ∷ k ∷ ks) ∷ v ∷ rest) e e'
unfolding written add_all
then_value k ks v rest e e' h (os, r, p, q) =
    (valued k ks v ∷ os, (h, r), ap (λ t. (dash ∷ k ∷ ks) ∷ v ∷ t) p, q)

loop-Reads :
    (arguments : List (List ℕ)) (e' : Env)
    → ((e : Env) → init_loop none arguments e ≡ (true, e') → Reads arguments e e')
      × ((k : ℕ) (ks : List ℕ) (e : Env)
          → init_loop (some (k ∷ ks)) arguments e ≡ (true, e')
          → Reads ((dash ∷ k ∷ ks) ∷ arguments) e e')
unfolding init_loop written add_all
loop-Reads [] e' = (
  (λ e h. ([], tt, refl, sym (ap (λ r. r.1) h))),
  (λ k ks e h. (flag k ks ∷ [], tt, refl, sym (ap (λ r. r.1) h))),
)
loop-Reads ([] ∷ rest) e' =
    let (free, keyed) = loop-Reads rest e' in
    (
      (λ e h. absurd_bool (ap (λ r. r.0) h)),
      (λ k ks e h. then_value k ks [] rest e e' tt (free (add (k ∷ ks) [] e) h)),
    )
loop-Reads ((c ∷ []) ∷ rest) e' =
    let (free, keyed) = loop-Reads rest e' in
    (
      (λ e h. absurd_bool (ap (λ r. r.0) h)),
      (λ k ks e h. elim (Bool-cases (c == dash)) [
        | inl t ↦ let q : false ≡ true = ap (λ r. r.0) (rw t at h) in absurd_bool q
        | inr t ↦
            let q = rw t at h in
            then_value k ks (c ∷ []) rest e e' t (free (add (k ∷ ks) (c ∷ []) e) q)
      ]),
    )
loop-Reads ((c ∷ d ∷ arg) ∷ rest) e' =
    let (free, keyed) = loop-Reads rest e' in
    (
      (λ e h. elim (Bool-cases (c == dash)) [
        | inl t ↦
            let q = rw t at h in
            let same : dash ≡ c = ground arith in
            subst (λ x. Reads ((x ∷ d ∷ arg) ∷ rest) e e') same (keyed d arg e q)
        | inr t ↦ let q : false ≡ true = ap (λ r. r.0) (rw t at h) in absurd_bool q
      ]),
      (λ k ks e h. elim (Bool-cases (c == dash)) [
        | inl t ↦
            let q = rw t at h in
            let same : dash ≡ c = ground arith in
            then_flag k ks ((c ∷ d ∷ arg) ∷ rest) e e' (
              subst (λ x. Reads ((x ∷ d ∷ arg) ∷ rest) (add (k ∷ ks) [] e) e') same
                (keyed d arg (add (k ∷ ks) [] e) q))
        | inr t ↦
            let q = rw t at h in
            then_value k ks (c ∷ d ∷ arg) rest e e' t (free (add (k ∷ ks) (c ∷ d ∷ arg) e) q)
      ]),
    )

-- The environment before the arguments are read.
abbrev pub started : List ℕ → List ℕ → Env → Env
started path program e = record e {
  exe = path;
  cwd = before_last_slash path ++ slash ∷ [];
  program = program;
}

-- `init` takes a command line if and only if it is written from options, each a key with a dash in
-- front of it and possibly a value without one; it then adds the options in their order.
pub init_iff :
    (path program : List ℕ) (arguments : List (List ℕ)) (e e' : Env)
    → (init path program arguments e ≡ (true, e')) ↔ Reads arguments (started path program e) e'
unfolding init
init_iff path program arguments e e' = (
  (λ h. (loop-Reads arguments e').0 (started path program e) h),
  (λ (os, r, p, q).
      ap (λ t. init_loop none t (started path program e)) p
      ∙ (loop-written os r).0 (started path program e)
      ∙ ap (λ t. (true, t)) (sym q)),
)
