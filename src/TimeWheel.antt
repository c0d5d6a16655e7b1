-- ===== src/TimeWheel.antt =====
-- high-performance-server-programming-linux/ch11/time_wheel.h: timers in 60 slots. The linked list of
-- a slot is the list of its timers, head first; callbacks and deletions are recorded in `trace`.
pub mod Slot
pub mod Position
pub mod Fires
pub mod Destroy
mod Tests
use notes_coding.Base.{
  ℤ, pos, negsuc, ℕ, zero, suc, ◌+◌, ◌-◌, ◌/◌, ◌%◌, Bool, List, [], ◌∷◌, ◌++◌, Option, none, some,
  ltb, ◌==◌, if◌then◌else◌, get_elem?, set, replicate,
}
use notes_coding.Memory.{Ptr, null}

-- `N`
abbrev pub slot_count : ℕ
slot_count = 60

-- `SI`, in seconds
abbrev pub slot_interval : ℕ
slot_interval = 1

-- `rotation` is never negative.
pub record TwTimer : Type 0 where
  pub address : Ptr
  pub rotation : ℕ
  pub time_slot : ℕ

pub data Event : Type 0 where
  called deleted : Ptr → Event

pub record TimeWheel : Type 0 where
  pub slots : List (List TwTimer)
  pub cur_slot : ℕ
  pub trace : List Event

-- `if (timeout < SI) ticks = 1; else ticks = timeout / SI;`
pub ticks_of : ℕ → ℕ
ticks_of timeout = if ltb timeout slot_interval then 1 else timeout / slot_interval

abbrev pub slot_at : List (List TwTimer) → ℕ → List TwTimer
slot_at slots i = elim (get_elem? slots i) [ none ↦ [] | some xs ↦ xs ]

-- `addTimer(timeout)`, where `new TwTimer` returns `p`: the pointer that it returns, and the wheel.
pub add_timer : (p : Ptr) → (timeout : ℤ) → TimeWheel → Ptr × TimeWheel
unfolding ticks_of
add_timer p (negsuc n) w = (null, w)
add_timer p (pos timeout) w =
    let ticks : ℕ = ticks_of timeout in
    let ts : ℕ = (w.cur_slot + ticks % slot_count) % slot_count in
    let timer : TwTimer = record { address = p; rotation = ticks / slot_count; time_slot = ts } in
    (p, record w { slots = set w.slots ts (timer ∷ slot_at w.slots ts) })

-- The list without the timer at `p`.
pub unlink : Ptr → List TwTimer → List TwTimer
unlink p [] = []
unlink p (x ∷ xs) = if x.address == p then xs else x ∷ unlink p xs

-- `delTimer(timer)`
pub del_timer : TwTimer → TimeWheel → TimeWheel
unfolding unlink
del_timer timer w = if timer.address == null then w else record w {
  slots = set w.slots timer.time_slot (unlink timer.address (slot_at w.slots timer.time_slot));
  trace = w.trace ++ deleted timer.address ∷ [];
}

-- The loop of `tick` over a slot: what stays in the slot, and the trace.
pub tick_slot : List TwTimer → List Event → List TwTimer × List Event
tick_slot [] trace = ([], trace)
tick_slot (x ∷ xs) trace =
    let waits : Bool = ltb 0 x.rotation in
    let trace : List Event =
      if waits then trace else trace ++ called x.address ∷ deleted x.address ∷ [] in
    let (rest, trace) = tick_slot xs trace in
    (if waits then record x { rotation = x.rotation - 1 } ∷ rest else rest, trace)

-- `tick()`
pub tick : TimeWheel → TimeWheel
unfolding tick_slot
tick w =
    let (xs, trace) = tick_slot (slot_at w.slots w.cur_slot) w.trace in
    record {
      slots = set w.slots w.cur_slot xs;
      cur_slot = (w.cur_slot + 1) % slot_count;
      trace = trace;
    }

-- `tick()`, `n` times.
pub ticks : ℕ → TimeWheel → TimeWheel
ticks zero w = w
ticks (suc n) w = ticks n (tick w)

-- `TimeWheel()`
abbrev pub construct : TimeWheel
construct = record { slots = replicate slot_count []; cur_slot = 0; trace = [] }

-- The inner loop of `~TimeWheel()`.
pub destroy_slot : List TwTimer → List Event → List Event
destroy_slot [] trace = trace
destroy_slot (x ∷ xs) trace = destroy_slot xs (trace ++ deleted x.address ∷ [])

-- The outer one over the slots from `i` on, `n` of them.
pub destroy_slots : (n i : ℕ) → TimeWheel → TimeWheel
unfolding destroy_slot
destroy_slots zero i w = w
destroy_slots (suc n) i w =
    destroy_slots n (i + 1)
      (record w { slots = set w.slots i []; trace = destroy_slot (slot_at w.slots i) w.trace })

-- `~TimeWheel()`
pub destroy : TimeWheel → TimeWheel
unfolding destroy_slots
destroy w = destroy_slots slot_count 0 w
