-- ===== src/ThreadsafeStack.antt =====
-- cpp-concurrency-in-action/ch3_在线程间共享数据/threadsafe_stack.cpp: a stack whose operations hold a
-- mutex from their start to their end, so that the calls of any threads come one after the other.
pub mod Shared
mod Tests
use notes_coding.Base.{ℕ, ◌+◌, ◌≡◌, Bool, true, false, List, [], ◌∷◌, ◌++◌}

-- `elements` is `data`, its top first; `pushed` and `popped` are the values that went in and came out,
-- each with the thread, and `failures` counts the exceptions `empty_stack`.
pub record Stack (A : Type 0) : Type 0 where
  pub elements : List A
  pub pushed : List A
  pub popped : List (ℕ × A)
  pub failures : ℕ

module _ {A : Type 0} where
  abbrev pub new_stack : Stack A
  new_stack = record { elements = []; pushed = []; popped = []; failures = 0 }

  pub push : (new_value : A) → Stack A → Stack A
  push new_value s = record s { elements = new_value ∷ s.elements; pushed = new_value ∷ s.pushed }

  -- Both forms of `pop`, called by a thread.
  abbrev pub pop_from : (thread : ℕ) → List A → Stack A → Stack A
  pop_from thread [] s = record s { failures = s.failures + 1 }
  pop_from thread (x ∷ xs) s = record s { elements = xs; popped = (thread, x) ∷ s.popped }

  pub pop : (thread : ℕ) → Stack A → Stack A
  pop thread s = pop_from thread s.elements s

  pub empty : Stack A → Bool
  empty s = elim s.elements [ [] ↦ true | x ∷ xs ↦ false ]

  pub data Reach : Stack A → Type 0 where
    start : Reach new_stack
    pushes : {s : Stack A} (new_value : A) → Reach s → Reach (push new_value s)
    pops : {s : Stack A} (thread : ℕ) → Reach s → Reach (pop thread s)
