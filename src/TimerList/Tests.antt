-- ===== src/TimerList/Tests.antt =====
-- The timer list at concrete lists: three timers, in memory at the addresses 1, 2 and 3, and a
-- fresh one at 4.
use notes_coding.Base.{ℕ, refl, Option, none, some, List, [], ◌∷◌, arith, ◌==◌, if◌then◌else◌}
use notes_coding.Memory.{Ptr, Node}
use notes_coding.Memory.Chain.{node}
use notes_coding.Memory.Ends.{Ends}
use notes_coding.TimerList.{UtilTimer, Timers, add_timer, put_off, del_timer, tick, destroy}
use notes_coding.TimerList.Spec.{Cell, Holds, IsSorted}
use notes_coding.TimerList.Delete.{Deleted, del_timer-remove}
use notes_coding.TimerList.Due.{Served, tick-Served}
use notes_coding.TimerList.Order.{Keeps, add_timer-Keeps, put_off-Keeps}
use notes_coding.TimerList.Destroy.{Gone, destroy-Gone}

abbrev timer : ℕ → UtilTimer
timer n = record { expire = n; cb_func = 7; user_data = n }

abbrev three : List Cell
three = (1, timer 10) ∷ (2, timer 20) ∷ (3, timer 30) ∷ []

abbrev memory : Ptr → Option (Node UtilTimer)
memory a =
    if a == 1
    then some (node (timer 10) 0 2)
    else if a == 2
    then some (node (timer 20) 1 3)
    else if a == 3
    then some (node (timer 30) 2 0)
    else if a == 4
    then some (node (timer 25) 0 0)
    else none

abbrev start : Timers
start = record { nodes = memory; fields = record { head = 1; tail = 3; calls = [] } }

start-Holds : Holds start three
start-Holds = record {
  linked = (refl, (refl, (refl, tt)));
  distinct = (refl, refl, (refl, refl, (refl, refl, tt)));
  head = refl;
  tail = refl;
}

start-IsSorted : IsSorted three
start-IsSorted = omega arith

add_timer-Keeps_example : Ends (λ _ g. Keeps start g ((4, timer 25) ∷ three)) (add_timer 3 4 start)
add_timer-Keeps_example =
    add_timer-Keeps 3 start 4 (timer 25) three start-Holds start-IsSorted refl refl refl
      (omega arith)

put_off-Keeps_example :
    Ends
      (λ _ g.
        Keeps start g ((1, timer 10) ∷ (2, record (timer 20) { expire = 40 }) ∷ (3, timer 30) ∷ []))
      (put_off 3 2 40 start)
put_off-Keeps_example =
    put_off-Keeps 3 start 2 (timer 20) ((1, timer 10) ∷ []) ((3, timer 30) ∷ []) 40 start-Holds
      start-IsSorted (omega arith) (omega arith)

del_timer-remove_example :
    Ends (λ _ g. Deleted start g 2 three ((1, timer 10) ∷ (3, timer 30) ∷ [])) (del_timer 2 start)
del_timer-remove_example =
    del_timer-remove start 2 (timer 20) ((1, timer 10) ∷ []) ((3, timer 30) ∷ []) start-Holds

tick-Served_example : Ends (λ _ g. Served 20 start g three) (tick 4 20 start)
tick-Served_example = tick-Served 4 20 start three start-Holds start-IsSorted (omega arith)

destroy-Gone_example : Ends (λ _ g. Gone start g three) (destroy 4 start)
destroy-Gone_example = destroy-Gone 4 start three start-Holds (omega arith)
