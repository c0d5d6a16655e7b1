-- ===== src/Observers.antt =====
-- head-first-design-pattern/ch2_观察者模式/Weather.cpp and cpp-living-code/design_patterns/observer/
-- observer.cpp: subjects that call their observers. Observers are numbered; `F` stands for `float`.
pub mod Notify
pub mod Removal
mod Tests
use notes_coding.Base.{ℕ, zero, suc, ◌+◌, List, [], ◌∷◌, ◌++◌, ◌==◌, if◌then◌else◌, update}

-- What a `CurrentConditionDisplay` keeps, and what it prints.
pub record Display (F : Type 0) : Type 0 where
  pub temprature : F
  pub humidity : F

pub data Line (F : Type 0) : Type 0 where
  current_conditions : (observer : ℕ) (temprature humidity : F) → Line F

-- `WeatherData` and the displays.
pub record Weather (F : Type 0) : Type 0 where
  pub observers : List ℕ
  pub temprature : F
  pub humidity : F
  pub pressure : F
  pub displays : ℕ → Display F
  pub lines : List (Line F)

-- The first `o` is erased.
pub remove_first : (o : ℕ) → List ℕ → List ℕ
remove_first o [] = []
remove_first o (x ∷ xs) = let rest : List ℕ = remove_first o xs in if x == o then xs else x ∷ rest

-- `list::remove`
pub remove_each : (o : ℕ) → List ℕ → List ℕ
remove_each o [] = []
remove_each o (x ∷ xs) = let rest : List ℕ = remove_each o xs in if x == o then rest else x ∷ rest

module _ {F : Type 0} where
  pub register_observer : (o : ℕ) → Weather F → Weather F
  register_observer o w = record w { observers = w.observers ++ o ∷ [] }

  pub remove_observer : (o : ℕ) → Weather F → Weather F
  unfolding remove_first
  remove_observer o w = record w { observers = remove_first o w.observers }

  -- `update` and `display` of the display `observer`.
  pub update_display : (observer : ℕ) (temp humi pres : F) → Weather F → Weather F
  update_display observer temp humi pres w = record w {
    displays = update w.displays observer (record { temprature = temp; humidity = humi });
    lines = w.lines ++ current_conditions observer temp humi ∷ [];
  }

  pub notify : (observers : List ℕ) → Weather F → Weather F
  unfolding update_display
  notify [] w = w
  notify (o ∷ os) w = notify os (update_display o w.temprature w.humidity w.pressure w)

  pub notify_observers : Weather F → Weather F
  unfolding notify
  notify_observers w = notify w.observers w

  pub set_measurements : (temp humi pres : F) → Weather F → Weather F
  unfolding notify_observers
  set_measurements temp humi pres w =
      notify_observers (record w { temprature = temp; humidity = humi; pressure = pres })

-- `FileSplitter`, with the calls of `DoProgress` that it has made.
pub record Splitter (F : Type 0) : Type 0 where
  pub file_number : ℕ
  pub progress_list : List ℕ
  pub calls : List (ℕ × F)

-- `ratio i n` stands for the float `i / n`.
module _ {F : Type 0} (ratio : ℕ → ℕ → F) where
  pub call_all : (observers : List ℕ) (value : F) → Splitter F → Splitter F
  call_all [] value s = s
  call_all (o ∷ os) value s = call_all os value (record s { calls = s.calls ++ (o, value) ∷ [] })

  pub on_progress : (value : F) → Splitter F → Splitter F
  unfolding call_all
  on_progress value s = call_all s.progress_list value s

  -- The loop of `split` from `i` on, `n` rounds.
  pub split_from : (n i : ℕ) → Splitter F → Splitter F
  unfolding on_progress
  split_from zero i s = s
  split_from (suc n) i s = split_from n (i + 1) (on_progress (ratio (i + 1) s.file_number) s)

  pub split : Splitter F → Splitter F
  unfolding split_from
  split s = split_from s.file_number 0 s

module _ {F : Type 0} where
  pub add_progress : (o : ℕ) → Splitter F → Splitter F
  add_progress o s = record s { progress_list = s.progress_list ++ o ∷ [] }

  pub remove_progress : (o : ℕ) → Splitter F → Splitter F
  unfolding remove_each
  remove_progress o s = record s { progress_list = remove_each o s.progress_list }
