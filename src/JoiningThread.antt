-- ===== src/JoiningThread.antt =====
-- cpp-concurrency-in-action/ch2_线程的基本管控/joining_thread.cpp and scoped_thread.cpp: objects that own
-- a thread and wait for its end. Objects and threads are numbered.
pub mod Owned
pub mod Runs
pub mod Assign
mod Tests
use notes_coding.Base.{
  ℕ, zero, suc, ◌+◌, Bool, true, false, Option, none, some, List, [], ◌∷◌, ◌++◌, update,
}

-- `t` has the thread of an object, `none` for one without a thread and for one that is not alive;
-- `started` counts the threads, `joins` how often each was waited for.
pub record State : Type 0 where
  pub t : ℕ → Option ℕ
  pub started : ℕ
  pub joins : ℕ → ℕ
  pub detached : ℕ → Bool

abbrev pub init : State
init = record { t = λ x. none; started = 0; joins = λ k. 0; detached = λ k. false }

-- `std::thread`. What it refuses is `none`: an exception of `join` and `detach`, and `std::terminate`
-- where a thread would be lost.
abbrev pub join_at : (x : ℕ) → Option ℕ → State → Option State
join_at x none s = none
join_at x (some k) s =
    some (record s { t = update s.t x none; joins = update s.joins k (s.joins k + 1) })

abbrev pub detach_at : (x : ℕ) → Option ℕ → State → Option State
detach_at x none s = none
detach_at x (some k) s =
    some (record s { t = update s.t x none; detached = update s.detached k true })

-- `x` is given what `y` had, which is left without a thread.
abbrev pub move_to : (x y : ℕ) → State → State
move_to x y s = record s { t = update (update s.t x (s.t y)) y none }

abbrev pub assign_at : (x y : ℕ) → Option ℕ → State → Option State
assign_at x y none s = some (move_to x y s)
assign_at x y (some k) s = none

abbrev pub destroy_at : (x : ℕ) → Option ℕ → State → Option State
destroy_at x none s = some s
destroy_at x (some k) s = none

-- A construction from a function, in a new object `x`.
pub start : (x : ℕ) → State → State
start x s = record s { t = update s.t x (some s.started); started = suc s.started }

-- A construction from a thread or another object, `y`.
pub move_construct : (x y : ℕ) → State → State
move_construct x y s = move_to x y s

pub join : (x : ℕ) → State → Option State
join x s = join_at x (s.t x) s

pub detach : (x : ℕ) → State → Option State
detach x s = detach_at x (s.t x) s

-- `if (joinable()) join();`
pub join_if : (x : ℕ) → Option ℕ → State → Option State
join_if x none s = some s
join_if x (some k) s = join_at x (some k) s

abbrev pub and_then : Option State → (State → Option State) → Option State
and_then none f = none
and_then (some s) f = f s

-- Both assignments: from another object and from a thread.
pub assign : (x y : ℕ) → State → Option State
unfolding join_if
assign x y s = and_then (join_if x (s.t x) s) (λ g. assign_at x y (g.t x) g)

pub destroy : (x : ℕ) → State → Option State
unfolding join_if
destroy x s = and_then (join_if x (s.t x) s) (λ g. destroy_at x (g.t x) g)

pub swap : (x y : ℕ) → State → State
swap x y s = record s { t = update (update s.t x (s.t y)) y (s.t x) }

abbrev pub keep_scoped : Option ℕ → State → Option State
keep_scoped none s = none
keep_scoped (some k) s = some s

-- `scoped_thread`: a construction from the thread `y`, `none` for `No thread`, and the destructor.
pub scoped_thread : (x y : ℕ) → State → Option State
scoped_thread x y s = let g : State = move_to x y s in keep_scoped (g.t x) g

pub destroy_scoped : (x : ℕ) → State → Option State
unfolding join
destroy_scoped x s = and_then (join x s) (λ g. destroy_at x (g.t x) g)

pub data Op : Type 0 where
  starts joins detaches ends scope_ends : (x : ℕ) → Op
  moves assigns swaps scopes : (x y : ℕ) → Op

pub apply : Op → State → Option State
unfolding start join detach destroy destroy_scoped move_construct assign swap scoped_thread
apply (starts x) s = some (start x s)
apply (joins x) s = join x s
apply (detaches x) s = detach x s
apply (ends x) s = destroy x s
apply (scope_ends x) s = destroy_scoped x s
apply (moves x y) s = some (move_construct x y s)
apply (assigns x y) s = assign x y s
apply (swaps x y) s = some (swap x y s)
apply (scopes x y) s = scoped_thread x y s

pub apply_all : List Op → State → Option State
unfolding apply
apply_all [] s = some s
apply_all (o ∷ os) s = and_then (apply o s) (λ g. apply_all os g)
