-- ===== src/Alternate.antt =====
-- cpp-living-code/concurrency_related/output_alternately.cpp: two threads that print the characters of
-- a string in turns. A step is the test of a thread's loop, which it makes without the mutex, or what
-- it does with the mutex.
pub mod Turns
mod Tests
use notes_coding.Base.{
  ℕ, suc, ◌+◌, ◌≡◌, Bool, true, false, not, Option, none, some, List, [], ◌∷◌, ◌++◌, ltb,
  if◌then◌else◌, length, get_elem?,
}

-- `test01` and `test02`
pub data Thread : Type 0 where
  test01 test02 : Thread

-- Where a thread is: before the test of its loop, before it takes the mutex, or at its end.
pub data Place : Type 0 where
  at_loop at_lock at_end : Place

-- `printed` has the lines, with the thread that printed them.
pub record State : Type 0 where
  pub flag : Bool
  pub idx : ℕ
  pub printed : List (Thread × ℕ)
  pub place : Thread → Place

abbrev pub init : State
init = record { flag = true; idx = 0; printed = []; place = λ t. at_loop }

-- `place` with thread `t` at `p`.
abbrev pub moved : (Thread → Place) → Thread → Place → Thread → Place
moved f test01 p test01 = p
moved f test01 p test02 = f test02
moved f test02 p test01 = f test01
moved f test02 p test02 = p

-- `if (flag)` and `if (!flag)`
abbrev pub may_print : Thread → Bool → Bool
may_print test01 flag = flag
may_print test02 flag = not flag

module _ (str : List ℕ) where
  -- `idx < length`, before the loop goes on.
  pub test_loop : Thread → State → State
  test_loop t s = record s {
    place = moved s.place t (if ltb s.idx (length str) then at_lock else at_end);
  }

  -- What a thread does with the mutex: `none` where `str` is read beyond its end.
  pub with_lock : Thread → State → Option State
  with_lock t s =
      let s' : State = record s { place = moved s.place t at_loop } in
      if may_print t s.flag
      then if ltb s.idx (length str)
        then elim (get_elem? str s.idx) [
          | none ↦ none
          | some c ↦
              some (record s' {
                flag = not s.flag;
                idx = s.idx + 1;
                printed = s.printed ++ (t, c) ∷ [];
              })
        ]
        else some s'
      else some s'

  pub data Step (s : State) : State → Type 0 where
    tests : (t : Thread) → s.place t ≡ at_loop → Step s (test_loop t s)
    locks : (t : Thread) {g : State} → s.place t ≡ at_lock → with_lock t s ≡ some g → Step s g

  pub data Reach : State → Type 0 where
    start : Reach init
    later : {s g : State} → Reach s → Step s g → Reach g
