-- ===== src/HierarchicalMutex.antt =====
-- cpp-concurrency-in-action/ch3_在线程间共享数据/code_3_8.cpp: a mutex that refuses to be locked out
-- of order. Threads and mutexes are numbered; `hierarchy_value` is a parameter, one for each mutex.
-- A step is what a thread does between two points where others can come in.
pub mod Order
pub mod Progress
mod Tests
use notes_coding.Base.{
  ℕ, ◌^◌, ◌-◌, ◌<◌, ◌≤◌, ◌≡◌, ◌≢◌, Bool, Option, none, some, leb, ◌==◌, if◌then◌else◌, update,
}

-- `ULONG_MAX`
abbrev pub ulong_max : ℕ
ulong_max = 2 ^ 64 - 1

-- `owner` is who holds the `internal_mutex`, and `waiting` the mutex whose `internal_mutex.lock()` a
-- thread is in; `previous` is `previous_hierarchy_value`, one for each mutex, and `this_thread` is
-- `this_thread_hierarchy_value`, one for each thread.
pub record State : Type 0 where
  pub owner : ℕ → Option ℕ
  pub previous : ℕ → ℕ
  pub this_thread : ℕ → ℕ
  pub waiting : ℕ → Option ℕ

abbrev pub init : State
init = record {
  owner = λ m. none;
  previous = λ m. 0;
  this_thread = λ i. ulong_max;
  waiting = λ i. none;
}

module _ (hierarchy_value : ℕ → ℕ) where
  -- `check_for_hierarchy_violation()`: whether it throws.
  pub violates : (i m : ℕ) → State → Bool
  violates i m s = leb (s.this_thread i) (hierarchy_value m)

  -- `update_heirarchy_value()`
  pub update_hierarchy_value : (i m : ℕ) → State → State
  update_hierarchy_value i m s = record s {
    previous = update s.previous m (s.this_thread i);
    this_thread = update s.this_thread i (hierarchy_value m);
  }

  -- `lock()` up to the wait: `none` if it throws.
  pub lock : (i m : ℕ) → State → Option State
  unfolding violates
  lock i m s =
      if violates i m s then none else some (record s { waiting = update s.waiting i (some m) })

  -- The rest of `lock()`, once the internal mutex is free.
  pub locked : (i m : ℕ) → State → State
  unfolding update_hierarchy_value
  locked i m s =
      update_hierarchy_value i m
        (record s { owner = update s.owner m (some i); waiting = update s.waiting i none })

  -- `unlock()`: `none` if it throws.
  pub unlock : (i m : ℕ) → State → Option State
  unlock i m s =
      if s.this_thread i == hierarchy_value m
      then some (record s {
        this_thread = update s.this_thread i (s.previous m);
        owner = update s.owner m none;
      })
      else none

  -- `try_lock()` where the internal mutex is free; `none` if it throws.
  pub try_lock : (i m : ℕ) → State → Option State
  unfolding violates update_hierarchy_value
  try_lock i m s =
      if violates i m s
      then none
      else some (update_hierarchy_value i m (record s { owner = update s.owner m (some i) }))

  -- A step of a thread. Only the holder unlocks. A call that throws changes nothing, and a `try_lock`
  -- of a mutex that is held returns false.
  pub data Step (s : State) : State → Type 0 where
    ask : (i m : ℕ) {t : State} → s.waiting i ≡ none → lock i m s ≡ some t → Step s t
    take : (i m : ℕ) → s.waiting i ≡ some m → s.owner m ≡ none → Step s (locked i m s)
    try_take :
        (i m : ℕ) {t : State}
        → s.waiting i ≡ none
        → s.owner m ≡ none
        → try_lock i m s ≡ some t
        → Step s t
    give_back :
        (i m : ℕ) {t : State}
        → s.waiting i ≡ none
        → s.owner m ≡ some i
        → unlock i m s ≡ some t
        → Step s t

  pub data Reach : State → Type 0 where
    start : Reach init
    later : {s t : State} → Reach s → Step s t → Reach t
