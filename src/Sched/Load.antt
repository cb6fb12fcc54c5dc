-- ===== src/Sched/Load.antt =====
-- `LoadCounter` (fiber/scheduler.h and .cpp): what `getTimeUsec` answers is an argument of each call.
use native.Mathlib.Nat.{div-le_of_le-mul}
use sylar_net_server_framewo.Common.{
  subst, ℕ, ◌+◌, ◌-◌, ◌*◌, ◌/◌, ◌%◌, ◌^◌, ◌≤◌, ◌<◌, ◌≡◌, refl, ap, ◌∙◌, sym, inl, inr, Bool, true,
  false, List, [], ◌∷◌, ◌++◌, arith, tests, ltb, ◌==◌, if◌then◌else◌, length, drop, length-append,
  length-drop, Bool-cases,
}

pub record TimeRecord : Type 0 where
  pub sleep : Bool
  pub duration : ℕ

-- `records` has the oldest entry first.
pub record LoadCounter : Type 0 where
  pub sleeping : Bool
  pub max_size : ℕ
  pub last_wake : ℕ
  pub last_sleep : ℕ
  pub records : List TimeRecord

-- Unsigned arithmetic on 64 bits.
abbrev pub add64 : ℕ → ℕ → ℕ
add64 a b = (a + b) % 2 ^ 64

abbrev pub sub64 : ℕ → ℕ → ℕ
sub64 a b = (a + 2 ^ 64 - b) % 2 ^ 64

unfoldable pub load_counter : ℕ → ℕ → LoadCounter
load_counter max_size now = record {
  sleeping = true;
  max_size = max_size;
  last_wake = now;
  last_sleep = now;
  records = [];
}

-- `emplace_back`, and `pop_front` if the list has got too long.
unfoldable pub add_record : TimeRecord → LoadCounter → LoadCounter
add_record r l =
    let records = l.records ++ r ∷ [] in
    record l { records = if ltb l.max_size (length records) then drop 1 records else records }

unfoldable pub start_sleep : ℕ → LoadCounter → LoadCounter
start_sleep now l =
    add_record (record { sleep = false; duration = sub64 now l.last_wake })
      (record l { sleeping = true; last_sleep = now })

unfoldable pub start_work : ℕ → LoadCounter → LoadCounter
start_work now l =
    add_record (record { sleep = true; duration = sub64 now l.last_sleep })
      (record l { sleeping = false; last_wake = now })

-- The loop of `getLoad`: the sums of the durations asleep and at work.
unfoldable pub sum_records : List TimeRecord → ℕ × ℕ → ℕ × ℕ
sum_records [] (slept, run) = (slept, run)
sum_records (r ∷ rs) (slept, run) =
    sum_records rs
      (if r.sleep then (add64 slept r.duration, run) else (slept, add64 run r.duration))

unfoldable pub load_of : ℕ → ℕ → ℕ
load_of slept run =
    let total = add64 slept run in if total == 0 then 0 else 100 * run % 2 ^ 64 / total % 2 ^ 32

unfoldable pub get_load : ℕ → LoadCounter → ℕ
get_load now l =
    let sums = sum_records l.records (0, 0) in
    if length l.records == 0
    then 0
    else if l.sleeping
    then load_of (add64 sums.0 (sub64 now l.last_sleep)) sums.1
    else load_of sums.0 (add64 sums.1 (sub64 now l.last_wake))

-- The exact sums of the durations that are asleep, or at work.
abbrev pub time : Bool → List TimeRecord → ℕ
time b [] = 0
time true (r ∷ rs) = (if r.sleep then r.duration else 0) + time true rs
time false (r ∷ rs) = (if r.sleep then 0 else r.duration) + time false rs

pub sum_records-time :
    (rs : List TimeRecord) (slept run : ℕ)
    → slept + time true rs + (run + time false rs) < 2 ^ 64
    → sum_records rs (slept, run) ≡ (slept + time true rs, run + time false rs)
unfolding sum_records
sum_records-time [] slept run h = ground arith
sum_records-time (r ∷ rs) slept run h = elim (Bool-cases r.sleep) [
  | inl s ↦
      let e : add64 slept r.duration ≡ slept + r.duration = ground arith in
      rw (s, e) (sum_records-time rs (slept + r.duration) run (ground arith) ∙ ground arith)
  | inr w ↦
      let e : add64 run r.duration ≡ run + r.duration = ground arith in
      rw (w, e) (sum_records-time rs slept (run + r.duration) (ground arith) ∙ ground arith)
]

add_record-bounded :
    (r : TimeRecord) (l : LoadCounter)
    → length l.records ≤ l.max_size
    → length (add_record r l).records ≤ l.max_size
unfolding add_record
add_record-bounded r l h =
    let n : length (l.records ++ r ∷ []) ≡ length l.records + 1 =
      length-append l.records (r ∷ []) in
    let d = length-drop 1 (l.records ++ r ∷ []) in
    elim (Bool-cases (ltb l.max_size (length (l.records ++ r ∷ [])))) [
      | inl long ↦ rw long (omega (tests, n, d))
      | inr short ↦ rw short (omega (tests, n))
    ]

-- The number of records never exceeds the limit.
pub records-bounded :
    (now : ℕ) (l : LoadCounter)
    → length l.records ≤ l.max_size
    → (length (start_sleep now l).records ≤ l.max_size)
      × (length (start_work now l).records ≤ l.max_size)
unfolding start_sleep start_work
records-bounded now l h = (add_record-bounded _ _ h, add_record-bounded _ _ h)

-- The time asleep and at work up to `now`, without any wrap.
abbrev pub slept_until : ℕ → LoadCounter → ℕ
slept_until now l = time true l.records + (if l.sleeping then now - l.last_sleep else 0)

abbrev pub worked_until : ℕ → LoadCounter → ℕ
worked_until now l = time false l.records + (if l.sleeping then 0 else now - l.last_wake)

abbrev pub percent : ℕ → ℕ → ℕ
percent slept run = if slept + run == 0 then 0 else 100 * run / (slept + run)

percent-le : (slept run : ℕ) → percent slept run ≤ 100
percent-le slept run = elim (Bool-cases (slept + run == 0)) [
  | inl z ↦ rw z (omega arith)
  | inr p ↦ rw p (div-le_of_le-mul (slept + run) {m = 100 * run} {n = 100} (omega arith))
]

load_of-percent :
    (slept run : ℕ) → 100 * (slept + run) < 2 ^ 64 → load_of slept run ≡ percent slept run
unfolding load_of
load_of-percent slept run h =
    let t : (slept + run) % 2 ^ 64 ≡ slept + run = omega arith in
    let n : 100 * run % 2 ^ 64 ≡ 100 * run = omega arith in
    elim (Bool-cases (slept + run == 0)) [
      | inl z ↦ rw (t, z) refl
      | inr p ↦
          let le : 100 * run / (slept + run) ≤ 100 =
            div-le_of_le-mul (slept + run) {m = 100 * run} {n = 100} (omega (tests)) in
          rw (t, n, p) (omega (arith, le))
    ]

module _ (now : ℕ) (l : LoadCounter) (small : now < 2 ^ 64) (s : l.last_sleep ≤ now)
    (w : l.last_wake ≤ now) (h : 100 * (slept_until now l + worked_until now l) < 2 ^ 64) where
  sums : sum_records l.records (0, 0) ≡ (time true l.records, time false l.records)
  sums = sum_records-time l.records 0 0 (omega arith) ∙ ground arith

  get_load-eq :
      get_load now l
      ≡ (if length l.records == 0 then 0 else percent (slept_until now l) (worked_until now l))
  unfolding get_load
  get_load-eq = elim (Bool-cases (length l.records == 0)) [
    | inl none_yet ↦ rw none_yet refl
    | inr some_yet ↦ elim (Bool-cases l.sleeping) [
      | inl on ↦
          let e : slept_until now l ≡ time true l.records + (now - l.last_sleep) = rw on refl in
          let t : (time true l.records + (now + 2 ^ 64 - l.last_sleep) % 2 ^ 64) % 2 ^ 64
              ≡ time true l.records + (now - l.last_sleep) =
            omega (arith, e) in
          let r : time false l.records ≡ time false l.records + 0 = omega arith in
          rw (some_yet, on, sums, t)
            (load_of-percent (time true l.records + (now - l.last_sleep)) (time false l.records)
                (omega (arith, e))
              ∙ ap (percent (time true l.records + (now - l.last_sleep))) r)
      | inr off ↦
          let e : worked_until now l ≡ time false l.records + (now - l.last_wake) = rw off refl in
          let t : (time false l.records + (now + 2 ^ 64 - l.last_wake) % 2 ^ 64) % 2 ^ 64
              ≡ time false l.records + (now - l.last_wake) =
            omega (arith, e) in
          let r : time true l.records ≡ time true l.records + 0 = omega arith in
          rw (some_yet, off, sums, t)
            (load_of-percent (time true l.records) (time false l.records + (now - l.last_wake))
                (omega (arith, e))
              ∙ ap (λ x. percent x (time false l.records + (now - l.last_wake))) r)
    ]
  ]

  -- While the clock does not run backwards and the times are too short to wrap, the load is the share
  -- of the time at work in the whole time, in percent and rounded down, or 0 if there is no record; so
  -- it is at most 100.
  pub get_load-percent :
      (get_load now l
        ≡ (if length l.records == 0 then 0 else percent (slept_until now l) (worked_until now l)))
      × (get_load now l ≤ 100)
  get_load-percent = (
    get_load-eq,
    subst (λ x. x ≤ 100) (sym get_load-eq)
        (elim (Bool-cases (length l.records == 0)) [
          | inl none_yet ↦ rw none_yet (omega arith)
          | inr some_yet ↦ rw some_yet (percent-le _ _)
        ]),
  )
