-- ===== src/IdleServer/Serving.antt =====
-- Each open connection has its timer, and the events of the loop.
use notes_coding.Base.{ℕ, suc, ◌+◌, ◌*◌, ◌≤◌, ◌≡◌, true, List, All, length}
use notes_coding.Memory.{Outcome, after}
use notes_coding.Memory.Ends.{Ends, ends}
use notes_coding.TimerList.{Timers}
use notes_coding.TimerList.Spec.{Cell, Holds, IsSorted}
use notes_coding.IdleServer.{Server, ServerCmd, lift, timeslot}
use notes_coding.IdleServer.Found.{Found}

-- The timer `x` is that of an open connection.
pub record Owned (s : Server) (x : Cell) : Type 0 where
  pub points : (s.users x.1.user_data).timer ≡ x.0
  pub number : (s.users x.1.user_data).sockfd ≡ x.1.user_data
  pub on : s.open_fds x.1.user_data ≡ true

abbrev pub idle_time : ℕ
idle_time = 3 * timeslot

-- At the time `now` the list of the server holds the timers `xs`, in order: the timers of the open
-- connections, one for each. None is to expire more than 15 seconds later.
pub record IsServing (now : ℕ) (s : Server) (xs : List Cell) : Type 0 where
  pub holds : Holds s.timers xs
  pub sorted : IsSorted xs
  pub owned : All (Owned s) xs
  pub timed : (fd : ℕ) → s.open_fds fd ≡ true → Found (s.users fd).timer fd xs
  pub recent : All (λ x. x.1.expire ≤ now + idle_time) xs

-- The server still serves, and has one timer more at most.
pub record Serves (now : ℕ) (xs : List Cell) (g : Server) : Type 0 where
  pub cells : List Cell
  pub serving : IsServing now g cells
  pub growth : length cells ≤ suc (length xs)

pub lift-Ends :
    (s : Server) (P : Server → Type 0) (r : Outcome Timers (Unit {0}))
    → Ends (λ _ t. P (record s { timers = t })) r
    → Ends (λ _ g. P g) (lift s r)
unfolding lift
lift-Ends s P r (ends p) = ends p

-- The list plays no part in whose a timer is.
pub Owned-timers :
    (s : Server) (g : Timers) (x : Cell) → Owned s x → Owned (record s { timers = g }) x
Owned-timers s g x o = record { points = o.points; number = o.number; on = o.on }

pub lift-then :
    (s : Server) (r : Outcome Timers (Unit {0})) (P : Server → Type 0) (f : ServerCmd)
    → Ends (λ _ t. Ends (λ _ g. P g) (f (record s { timers = t }))) r
    → Ends (λ _ g. P g) (after (lift s r) (λ _. f))
unfolding lift
lift-then s r P f (ends p) = p
