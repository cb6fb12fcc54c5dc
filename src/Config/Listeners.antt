-- ===== src/Config/Listeners.antt =====
-- The listeners of a variable (config/config.h).
use sylar_net_server_framewo.Common.{
  ℕ, ◌+◌, ◌%◌, ◌^◌, ◌≡◌, refl, ◌∙◌, inl, inr, true, false, none, some, List, [], ◌∷◌, arith, ltb,
  ◌==◌, Bool-cases,
}
use sylar_net_server_framewo.Config.Defs.{
  ConfigVar, put_listener, erase_listener, find_listener, add_listener, del_listener, get_listener,
}

find-put_same :
    (key cb : ℕ) (cs : List (ℕ × ℕ)) → find_listener key (put_listener key cb cs) ≡ some cb
unfolding find_listener put_listener
find-put_same key cb [] = let e : (key == key) ≡ true = ground arith in rw (find_listener, e) refl
find-put_same key cb (c ∷ cs) =
    let e : (key == key) ≡ true = ground arith in
    elim (Bool-cases (key == c.0)) [
      | inl s ↦ rw (put_listener, s) (rw (find_listener, e) refl)
      | inr s ↦
          let s' : (c.0 == key) ≡ false = ground arith in
          elim (Bool-cases (ltb key c.0)) [
            | inl l ↦ rw (put_listener, s, l) (rw (find_listener, e) refl)
            | inr l ↦ rw (put_listener, s, l) (rw (find_listener, s') (find-put_same key cb cs))
          ]
    ]

find-put_other :
    (key k cb : ℕ) (cs : List (ℕ × ℕ))
    → (key == k) ≡ false
    → find_listener k (put_listener key cb cs) ≡ find_listener k cs
unfolding find_listener put_listener
find-put_other key k cb [] h = rw (find_listener, h) refl
find-put_other key k cb (c ∷ cs) h = elim (Bool-cases (key == c.0)) [
  | inl s ↦
      let s' : (c.0 == k) ≡ false = ground arith in
      rw (put_listener, s) (rw (find_listener, h, s') refl)
  | inr s ↦ elim (Bool-cases (ltb key c.0)) [
    | inl l ↦ rw (put_listener, s, l) (rw (find_listener, h) refl)
    | inr l ↦
        rw (put_listener, s, l)
          (elim (Bool-cases (c.0 == k)) [
            | inl q ↦ rw (find_listener, q) refl
            | inr q ↦ rw (find_listener, q) (find-put_other key k cb cs h)
          ])
  ]
]

find-erase_same : (key : ℕ) (cs : List (ℕ × ℕ)) → find_listener key (erase_listener key cs) ≡ none
unfolding find_listener erase_listener
find-erase_same key [] = refl
find-erase_same key (c ∷ cs) = elim (Bool-cases (c.0 == key)) [
  | inl s ↦ rw (erase_listener, s) (find-erase_same key cs)
  | inr s ↦ rw (erase_listener, s) (rw (find_listener, s) (find-erase_same key cs))
]

find-erase_other :
    (key k : ℕ) (cs : List (ℕ × ℕ))
    → (key == k) ≡ false
    → find_listener k (erase_listener key cs) ≡ find_listener k cs
unfolding find_listener erase_listener
find-erase_other key k [] h = refl
find-erase_other key k (c ∷ cs) h = elim (Bool-cases (c.0 == key)) [
  | inl s ↦
      let s' : (c.0 == k) ≡ false = ground arith in
      rw (erase_listener, s) (rw (find_listener, s') (find-erase_other key k cs h))
  | inr s ↦
      rw (erase_listener, s)
        (elim (Bool-cases (c.0 == k)) [
          | inl q ↦ rw (find_listener, q) refl
          | inr q ↦ rw (find_listener, q) (find-erase_other key k cs h)
        ])
]

-- A listener is found under the key that `addListener` returns until it is deleted; then nothing is
-- there. The listeners with other keys stay in both calls.
pub get_listener-add_listener :
    {V : Type 0} (cb fun_id : ℕ) (var : ConfigVar V)
    → (get_listener (add_listener cb fun_id var).0 (add_listener cb fun_id var).1 ≡ some cb)
      × (get_listener
            (add_listener cb fun_id var).0
            (del_listener (add_listener cb fun_id var).0 (add_listener cb fun_id var).1)
          ≡ none)
      × ((k : ℕ)
          → ((add_listener cb fun_id var).0 == k) ≡ false
          → (get_listener k (add_listener cb fun_id var).1 ≡ get_listener k var)
            × (get_listener k
                  (del_listener (add_listener cb fun_id var).0 (add_listener cb fun_id var).1)
                ≡ get_listener k var))
unfolding add_listener del_listener get_listener
get_listener-add_listener cb fun_id var =
    let key = (fun_id + 1) % 2 ^ 64 in
    let cbs = put_listener key cb var.cbs in
    (
      find-put_same key cb var.cbs,
      find-erase_same key cbs,
      (λ k h. (
        find-put_other key k cb var.cbs h,
        find-erase_other key k cbs h ∙ find-put_other key k cb var.cbs h,
      )),
    )
