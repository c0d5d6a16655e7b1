-- ===== src/TimeHeap.antt =====
-- high-performance-server-programming-linux/ch11/time_heap.h: timers in a `std::set`, ordered by the
-- time at which they expire. `timers` is what the shared pointers point to; `calls` records the
-- callbacks, with their client data.
pub mod Order
pub mod Due
mod Tests
use notes_coding.Base.{
  ℕ, Bool, true, false, ◌&&◌, Option, none, some, List, [], ◌∷◌, ◌++◌, ltb, ◌==◌, if◌then◌else◌,
  update,
}
use notes_coding.Memory.{Ptr, null}

pub record HeapTimer : Type 0 where
  pub expire : ℕ
  pub cb_func : Option ℕ
  pub user_data : ℕ

pub record TimeHeap : Type 0 where
  pub array : List Ptr
  pub timers : Ptr → HeapTimer
  pub calls : List (ℕ × ℕ)

-- `Comparator::operator()`
pub less : (Ptr → HeapTimer) → (lhs rhs : Ptr) → Bool
less timers lhs rhs =
    if lhs == null && rhs == null
    then false
    else if lhs == null
    then true
    else if rhs == null
    then false
    else if ltb (timers lhs).expire (timers rhs).expire
    then true
    else if ltb (timers rhs).expire (timers lhs).expire
    then false
    else ltb lhs rhs

-- `array.insert(timer)`: a set takes no second element that is neither less nor greater.
pub insert : (Ptr → HeapTimer) → Ptr → List Ptr → List Ptr
unfolding less
insert timers t [] = t ∷ []
insert timers t (x ∷ xs) =
    let rest = insert timers t xs in
    if less timers t x then t ∷ x ∷ xs else if less timers x t then x ∷ rest else x ∷ xs

-- `addTimer(timer)`
pub add_timer : Ptr → TimeHeap → TimeHeap
unfolding insert
add_timer timer h = if timer == null then h else record h { array = insert h.timers timer h.array }

-- `delTimer(timer)`: the timer stays, without its callback.
pub del_timer : Ptr → TimeHeap → TimeHeap
del_timer timer h =
    if timer == null
    then h
    else record h { timers = update h.timers timer (record (h.timers timer) { cb_func = none }) }

-- `top()`
pub top : TimeHeap → Ptr
top h = elim h.array [ [] ↦ null | x ∷ xs ↦ x ]

-- `popTimer()`
pub pop_timer : TimeHeap → TimeHeap
pop_timer h = elim h.array [ [] ↦ h | x ∷ xs ↦ record h { array = xs } ]

-- `if (cb_func) cb_func(user_data);`
pub call_back : HeapTimer → List (ℕ × ℕ) → List (ℕ × ℕ)
call_back t calls = elim t.cb_func [ none ↦ calls | some f ↦ calls ++ (f, t.user_data) ∷ [] ]

-- The loop of `tick` over the timers that are left: what stays, and the calls.
pub tick_loop : (Ptr → HeapTimer) → (now : ℕ) → List Ptr → List (ℕ × ℕ) → List Ptr × List (ℕ × ℕ)
unfolding call_back
tick_loop timers now [] calls = ([], calls)
tick_loop timers now (x ∷ xs) calls =
    let rest = tick_loop timers now xs (call_back (timers x) calls) in
    if ltb now (timers x).expire then (x ∷ xs, calls) else rest

-- `tick()` at the time `now`
pub tick : (now : ℕ) → TimeHeap → TimeHeap
unfolding tick_loop
tick now h =
    let (array, calls) = tick_loop h.timers now h.array h.calls in
    record h { array = array; calls = calls }
