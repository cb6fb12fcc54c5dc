-- ===== src/Hooks/Io.antt =====
-- When a hooked call returns, and with what (util/hook.cpp).
use sylar_net_server_framewo.Common.{
  ◌≡◌, refl, ap, ◌∙◌, ◌⊎◌, inl, inr, Bool, true, false, not, ◌&&◌, Option, none, some, List, [],
  ◌∷◌, ◌++◌, if◌then◌else◌, All,
}
use sylar_net_server_framewo.Hooks.Defs.{
  eintr, eagain, ebadf, etimedout, other, Answer, value, error, Attempt, attempt, io_loop,
}

-- An attempt after which the call goes on: it was interrupted, or it would block, the fiber waited for
-- the event and the time was not up.
abbrev pub goes_on : Bool → Attempt → Bool
goes_on timed a = elim a.answer [
  | value n ↦ false
  | error e ↦ elim e [ eintr ↦ true | eagain ↦ a.added && not (timed && a.expired) | _ ↦ false ]
]

-- What the other attempts make the call return.
abbrev pub final : Attempt → Answer
final a = elim a.answer [
  | value n ↦ value n
  | error e ↦ elim e [
    | eagain ↦ if a.added then error etimedout else error eagain
    | eintr ↦ error eintr
    | ebadf ↦ error ebadf
    | etimedout ↦ error etimedout
    | other n ↦ error (other n)
  ]
]

attempt-cases :
    (timed : Bool) (answer : Answer) (added expired : Bool) (rest : Option Answer)
    → let a : Attempt = record { answer = answer; added = added; expired = expired } in
      ((goes_on timed a ≡ true) × (attempt timed a rest ≡ rest))
      ⊎ ((goes_on timed a ≡ false) × (attempt timed a rest ≡ some (final a)))
attempt-cases timed (value n) added expired rest = inr (refl, refl)
attempt-cases timed (error eintr) added expired rest = inl (refl, refl)
attempt-cases timed (error eagain) false expired rest = inr (refl, refl)
attempt-cases false (error eagain) true expired rest = inl (refl, refl)
attempt-cases true (error eagain) true true rest = inr (refl, refl)
attempt-cases true (error eagain) true false rest = inl (refl, refl)
attempt-cases timed (error ebadf) added expired rest = inr (refl, refl)
attempt-cases timed (error etimedout) added expired rest = inr (refl, refl)
attempt-cases timed (error (other n)) added expired rest = inr (refl, refl)

-- The loop of `do_io`: it waits for good only while every attempt was interrupted or would block; else
-- the first other attempt ends it, with its own answer, or with ETIMEDOUT where the time was up, or
-- with EAGAIN where the event could not be added. So an interrupted call is never reported.
pub io_loop-first :
    (timed : Bool) (attempts : List Attempt)
    → (All (λ a. goes_on timed a ≡ true) attempts × (io_loop timed attempts ≡ none))
      ⊎ ((before : List Attempt) × (a : Attempt) × (after : List Attempt) × (attempts
            ≡ before ++ a ∷ after)
          × All (λ x. goes_on timed x ≡ true) before
          × (goes_on timed a ≡ false)
          × (io_loop timed attempts ≡ some (final a)))
unfolding io_loop
io_loop-first timed [] = inl (tt, refl)
io_loop-first timed (a ∷ more) =
    elim (attempt-cases timed a.answer a.added a.expired (io_loop timed more)) [
      | inr (stop, e) ↦ inr ([], a, more, refl, tt, stop, e)
      | inl (on, e) ↦ elim (io_loop-first timed more) [
        | inl (all_on, f) ↦ inl ((on, all_on), e ∙ f)
        | inr (before, b, after, split, h, stop, f) ↦
            inr (a ∷ before, b, after, ap (◌∷◌ a) split, (on, h), stop, e ∙ f)
      ]
    ]
