-- ===== src/HierarchicalMutex/Tests.antt =====
-- The mutexes 0 and 1, of the levels 10000 and 5000. Thread 1 holds the first and waits for the
-- second, which thread 2 holds.
use notes_coding.Base.{ℕ, ◌≡◌, refl, some, ◌==◌, if◌then◌else◌, update}
use notes_coding.HierarchicalMutex.{
  State, init, violates, update_hierarchy_value, lock, locked, ask, take, Reach, start, later,
}
use notes_coding.HierarchicalMutex.Progress.{Chain, link, CanGo, Reach-CanGo}

abbrev levels : ℕ → ℕ
levels m = if m == 0 then 10000 else 5000

abbrev asks : (i m : ℕ) → State → State
asks i m s = record s { waiting = update s.waiting i (some m) }

abbrev one_holds : State
unfolding locked update_hierarchy_value
one_holds = locked levels 1 0 (asks 1 0 init)

abbrev both_hold : State
unfolding locked update_hierarchy_value
both_hold = locked levels 2 1 (asks 2 1 one_holds)

abbrev one_waits : State
one_waits = asks 1 1 both_hold

one_waits-Reach : Reach levels one_waits
unfolding lock violates locked update_hierarchy_value
one_waits-Reach =
    later
      (later
        (later (later (later start (ask 1 0 refl refl)) (take 1 0 refl refl)) (ask 2 1 refl refl))
        (take 2 1 refl refl))
      (ask 1 1 refl refl)

one_waits-Chain : Chain one_waits 0 1
unfolding locked update_hierarchy_value
one_waits-Chain = link 1 refl refl

one_waits-waiting : one_waits.waiting 1 ≡ some 1
one_waits-waiting = refl

Reach-CanGo_example : CanGo one_waits
Reach-CanGo_example = Reach-CanGo levels one_waits 1 1 one_waits-Reach one_waits-waiting
