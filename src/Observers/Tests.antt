-- ===== src/Observers/Tests.antt =====
-- Two displays, one of them registered twice, and a splitter of three files.
use notes_coding.Base.{ℕ, ◌≡◌, refl, [], ◌∷◌}
use notes_coding.Observers.{
  Weather, set_measurements, Splitter, notify, notify_observers, update_display, current_conditions,
}
use notes_coding.Observers.Notify.{Notified, set_measurements-Notified}

abbrev weather : Weather ℕ
weather = record {
  observers = 1 ∷ 2 ∷ 1 ∷ [];
  temprature = 0;
  humidity = 0;
  pressure = 0;
  displays = λ o. record { temprature = 0; humidity = 0 };
  lines = [];
}

abbrev splitter : Splitter ℕ
splitter = record { file_number = 3; progress_list = 1 ∷ 2 ∷ 1 ∷ []; calls = [] }

printed :
    (set_measurements 80 65 30 weather).lines
    ≡ current_conditions 1 80 65 ∷ current_conditions 2 80 65 ∷ current_conditions 1 80 65 ∷ []
unfolding set_measurements notify notify_observers update_display
printed = refl

set_measurements-Notified_example :
    Notified weather (set_measurements 80 65 30 weather) 80 65 (1 ∷ 2 ∷ 1 ∷ [])
set_measurements-Notified_example = set_measurements-Notified 80 65 30 weather
