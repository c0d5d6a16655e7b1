-- ===== src/DataQueue/Tests.antt =====
-- The second thread has slept, and the number 0 has been prepared, notified of, and taken out.
use notes_coding.Base.{refl, true, false, ◌⊎◌, [], ◌∷◌}
use notes_coding.DataQueue.{State, init, prepare, process, prepares, processes, Reach, start, later}
use notes_coding.DataQueue.InOrder.{Finished, GoesOn, Reach-GoesOn}

abbrev asleep : State
asleep = record init { sleeps = true }

abbrev put : State
put = record asleep { i = 1; data_queue = 0 ∷ []; notifies = true }

abbrev notified : State
notified = record put { notifies = false; sleeps = false }

abbrev one_printed : State
one_printed = record notified { data_queue = []; printed = 0 ∷ [] }

one_printed-Reach : Reach one_printed
unfolding prepare process
one_printed-Reach =
    let slept : Reach asleep = later start (processes refl) in
    let added : Reach put = later slept (prepares refl) in
    let told : Reach notified = later added (prepares refl) in later told (processes refl)

Reach-GoesOn_example : Finished one_printed ⊎ GoesOn one_printed
Reach-GoesOn_example = Reach-GoesOn one_printed one_printed-Reach
