-- ===== src/Singleton.antt =====
-- cpp-living-code/design_patterns/Singleton/singleton.cpp and cpp-concurrency-in-action/
-- ch3_在线程间共享数据/code_3_11.cpp: an object that is made when it is first asked for. Any number of
-- threads call `getInstance` once each; a step is one read or write of the shared variables. The steps
-- come one after the other, which C++ promises only where there is no data race (Singleton/Races).
pub mod Invariant
pub mod Once
pub mod Progress
pub mod Races
pub mod Twice
mod Tests
use notes_coding.Base.{ℕ, suc, ◌+◌, ◌≡◌, Option, none, some, update}

-- `getInstance` without a mutex, `foo` with the mutex around the test, and `getInstance` with a test
-- before the mutex and one with it.
pub data Version : Type 0 where
  unguarded guarded double_checked : Version

-- Where a thread is: before its first test, before the mutex, before the test with the mutex, before
-- `new`, before it stores the new object, before it reads what it returns, and at the end.
pub data Place : Type 0 where
  at_first at_lock at_second at_new at_return : Place
  at_store : (made : ℕ) → Place
  returned : Option ℕ → Place

-- `m_instance`, null as `none`; the number of objects made, which are numbered from 0; the thread that
-- has `m_mutex`; and the places of the threads.
pub record State : Type 0 where
  pub m_instance : Option ℕ
  pub made : ℕ
  pub owner : Option ℕ
  pub place : ℕ → Place

abbrev pub entry : Version → Place
entry unguarded = at_first
entry guarded = at_lock
entry double_checked = at_first

abbrev pub init : Version → State
init v = record { m_instance = none; made = 0; owner = none; place = λ i. entry v }

-- Where the first test leads when it sees null.
abbrev pub after_first : Version → Place
after_first unguarded = at_new
after_first guarded = at_lock
after_first double_checked = at_lock

abbrev pub go : (i : ℕ) → Place → State → State
go i p s = record s { place = update s.place i p }

abbrev pub if_none : Option ℕ → Option State → Option State → Option State
if_none none a b = a
if_none (some n) a b = b

-- What thread `i` does next at a place: `none` where it waits for the mutex or is at its end. The
-- mutex is given up where the scope of the lock ends.
pub advance : Version → (i : ℕ) → Place → State → Option State
advance v i at_first s =
    if_none s.m_instance (some (go i (after_first v) s)) (some (go i at_return s))
advance v i at_lock s = if_none s.owner (some (record (go i at_second s) { owner = some i })) none
advance v i at_second s =
    if_none s.m_instance (some (go i at_new s)) (some (record (go i at_return s) { owner = none }))
advance v i at_new s = some (record (go i (at_store s.made) s) { made = suc s.made })
advance v i (at_store n) s = some (record (go i at_return s) { m_instance = some n; owner = none })
advance v i at_return s = some (go i (returned s.m_instance) s)
advance v i (returned r) s = none

pub data Reach (v : Version) : State → Type 0 where
  start : Reach v (init v)
  later : {s g : State} (i : ℕ) → Reach v s → advance v i (s.place i) s ≡ some g → Reach v g
