-- ===== src/DataQueue/InOrder.antt =====
-- The numbers are printed in order, and all of them.
use notes_coding.Base.{
  ℕ, zero, suc, ◌+◌, ◌≤◌, ◌≡◌, refl, sym, ◌∙◌, ap, inl, inr, ◌⊎◌, arith, true, false, some, [], ◌∷◌,
  ◌++◌, leb, ◌==◌, Bool-cases,
}
use notes_coding.DataQueue.{last_number, State, prepare, process, Reach}
use notes_coding.DataQueue.Invariant.{numbers, IsInOrder, process-taken, Reach-IsInOrder}

-- The second thread has ended, all has been printed in order, and nothing is left.
pub record Finished (s : State) : Type 0 where
  pub over : s.ended ≡ true
  pub all : s.printed ≡ numbers 0 (suc last_number)
  pub none_left : s.data_queue ≡ []

-- One of the threads has a step of its own, which is not a wake-up for no reason.
abbrev pub GoesOn : State → Type 0
GoesOn s = (g : State) × ((prepare s ≡ some g) ⊎ (process s ≡ some g))

true≢false : true ≡ false → ⊥
true≢false e = cc

-- When all has been prepared, notified of, and the second thread has not ended, there is something in
-- the queue, so that it does not sleep.
takes :
    (m : ℕ) (s : State) (is : IsInOrder s)
    → is.m ≡ m
    → s.ended ≡ false
    → s.notifies ≡ false
    → leb s.i last_number ≡ false
    → GoesOn s
takes zero s is none_left on quiet done =
    let full : (is.k == suc last_number) ≡ true =
      filled is.k s.i is.bound (is.count ∙ ap (λ m. is.k + m) none_left) done in
    absurd (true≢false (sym full ∙ sym is.over ∙ on))
  where
    filled :
        (k i : ℕ)
        → i ≤ suc last_number
        → i ≡ k + 0
        → leb i last_number ≡ false
        → (k == suc last_number) ≡ true
    filled k i bound e done = ground arith
takes (suc m) s is more on quiet done = elim (Bool-cases s.sleeps) [
  | inl down ↦
      let empty : suc m ≡ 0 = sym more ∙ is.woken down quiet in absurd (omega (arith, empty))
  | inr up ↦ (_, inr (process-taken s is.k m on up (is.queued ∙ ap (numbers is.k) more)))
]

-- In every state that the threads can reach, either the second one has ended, the numbers up to 1000
-- have been printed in order and the queue is empty, or one of the threads can go on without a wake-up
-- for no reason: no notification that the second thread waits for is missed.
pub Reach-GoesOn : (s : State) → Reach s → Finished s ⊎ GoesOn s
unfolding prepare numbers
Reach-GoesOn s r =
    let is : IsInOrder s = Reach-IsInOrder s r in
    elim (Bool-cases s.ended) [
      | inl off ↦
          let full : is.k ≡ suc last_number = filled is.k (sym is.over ∙ off) in
          let left : is.m ≡ 0 = omega (arith, is.count, is.bound, full) in
          inl (record {
            over = off;
            all = is.said ∙ ap (numbers 0) full;
            none_left = is.queued ∙ ap (numbers is.k) left;
          })
      | inr on ↦ elim (Bool-cases s.notifies) [
        | inl loud ↦
            inr (record s { notifies = false; sleeps = false }, inl (rw (prepare, loud) refl))
        | inr quiet ↦ elim (Bool-cases (leb s.i last_number)) [
          | inl more ↦ inr (
            record s { i = s.i + 1; data_queue = s.data_queue ++ s.i ∷ []; notifies = true },
            inl (rw (prepare, quiet, more) refl),
          )
          | inr done ↦ inr (takes is.m s is refl on quiet done)
        ]
      ]
    ]
  where
    filled : (k : ℕ) → (k == suc last_number) ≡ true → k ≡ suc last_number
    filled k e = ground arith
