-- ===== src/TimeHeap/Tests.antt =====
-- The time heap on small inputs.
use notes_coding.Base.{◌*◌, refl, arith, some, [], ◌∷◌}
use notes_coding.TimeHeap.{TimeHeap, tick}
use notes_coding.TimeHeap.Order.{IsAscending, less_lem}
use notes_coding.TimeHeap.Due.{Ticked, tick-Ticked}

-- The timer at `p` expires at `10 * p`.
abbrev two_timers : TimeHeap
two_timers = record {
  array = 1 ∷ 3 ∷ [];
  timers = λ p. record { expire = 10 * p; cb_func = some 7; user_data = p };
  calls = [];
}

two_timers-IsAscending : IsAscending two_timers.timers two_timers.array
two_timers-IsAscending = ((less_lem _ 1 3 refl refl (omega arith), tt), (tt, tt))

tick-Ticked_example : Ticked 15 two_timers (tick 15 two_timers)
tick-Ticked_example = tick-Ticked 15 two_timers (refl, (refl, tt)) two_timers-IsAscending
