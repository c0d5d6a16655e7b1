-- ===== src/DataQueue.antt =====
-- cpp-concurrency-in-action/ch4_等待事件或等待其他条件/condition_variable.cpp: a thread that puts the
-- numbers up to 1000 into a queue, and one that takes them out and prints them. A step is what one of
-- them does with the mutex, or a call of `notify_one`; the second sleeps when it finds the queue empty,
-- until it is notified or wakes for no reason, and then looks again.
pub mod Invariant
pub mod InOrder
mod Tests
use notes_coding.Base.{
  ℕ, ◌+◌, ◌≡◌, Bool, true, false, Option, none, some, List, [], ◌∷◌, ◌++◌, leb, ◌==◌, if◌then◌else◌,
}

-- The last number that is prepared, and the one after which the loop is left.
abbrev pub last_number : ℕ
last_number = 1000

-- `i` is the number that the first thread puts into the queue next; `notifies` says whether it has put
-- one and not called `notify_one` yet; `sleeps` whether the second waits for `data_cond`, and `ended`
-- whether it has left its loop.
pub record State : Type 0 where
  pub i : ℕ
  pub data_queue : List ℕ
  pub printed : List ℕ
  pub notifies : Bool
  pub sleeps : Bool
  pub ended : Bool

abbrev pub init : State
init = record {
  i = 0;
  data_queue = [];
  printed = [];
  notifies = false;
  sleeps = false;
  ended = false;
}

-- The next step of `data_preparation_thread`: `none` when its loop has ended. A notification is lost
-- when nobody sleeps.
pub prepare : State → Option State
prepare s =
    if s.notifies
    then some (record s { notifies = false; sleeps = false })
    else if leb s.i last_number
    then some (record s { i = s.i + 1; data_queue = s.data_queue ++ s.i ∷ []; notifies = true })
    else none

-- What the second thread does when it looks at the queue: it sleeps when there is nothing.
abbrev pub look : List ℕ → State → Option State
look [] s = some (record s { sleeps = true })
look (i ∷ rest) s =
    some (record s { data_queue = rest; printed = s.printed ++ i ∷ []; ended = i == last_number })

-- The next step of `data_processing_thread`: `none` while it sleeps, or when its loop has ended.
pub process : State → Option State
process s = if s.ended then none else if s.sleeps then none else look s.data_queue s

-- A step of one of the threads, or a wake-up without a notification.
pub data Step (s : State) : State → Type 0 where
  prepares : {g : State} → prepare s ≡ some g → Step s g
  processes : {g : State} → process s ≡ some g → Step s g
  wakes_up : Step s (record s { sleeps = false })

pub data Reach : State → Type 0 where
  start : Reach init
  later : {s g : State} → Reach s → Step s g → Reach g
