-- ===== src/UnifiedEvents/Tests.antt =====
-- A hang-up and a SIGTERM, read together after a connection.
use notes_coding.Base.{◌≡◌, refl, arith, true, false, [], ◌∷◌}
use notes_coding.UnifiedEvents.{
  sighup, sigterm, connection, signals, State, init, handle, read_signals, sig_handler, interrupt,
  waits, next, Reach, start, later,
}
use notes_coding.UnifiedEvents.InOrder.{asks_to_stop, IsInOrder, Reach-IsInOrder}
use notes_coding.UnifiedEvents.Wakes.{Reach-all_read}
use notes_coding.UnifiedEvents.Stalls.{Stalled, flood-Stalled}

abbrev two : State
two = sig_handler 500 11 sigterm (sig_handler 500 11 sighup (init 3))

abbrev reported_two : State
reported_two = record two { edge = false; events = connection 7 ∷ signals ∷ [] }

abbrev told : State
told =
    handle signals (record (handle (connection 7) (record reported_two { events = signals ∷ [] })) {
      events = [];
    })

told-Reach : Reach 500 11 3 told
unfolding sig_handler handle read_signals
told-Reach =
    later
      (later
        (later (later (later start (interrupt sighup)) (interrupt sigterm))
          (waits (7 ∷ []) [] refl refl))
        (next (connection 7) (signals ∷ []) refl))
      (next signals [] refl)

told_to_stop : (told.stop_server ≡ true) × (told.handled ≡ sighup ∷ sigterm ∷ [])
unfolding sig_handler handle read_signals
told_to_stop = (refl, refl)

Reach-IsInOrder_example : IsInOrder 3 told
Reach-IsInOrder_example = Reach-IsInOrder 500 11 told-Reach

Reach-all_read_example :
    (told.handled ≡ told.written) × (told.stop_server ≡ asks_to_stop told.written)
unfolding sig_handler handle read_signals
Reach-all_read_example = Reach-all_read 500 11 (omega arith) told-Reach refl refl

flood-Stalled_example : (s : State) × (Reach 2000 11 3 s × Stalled s)
flood-Stalled_example = flood-Stalled 2000 11 3 (omega arith)
