-- ===== src/IdleServer/Round.antt =====
-- A round of the event loop.
use notes_coding.Base.{
  All-map, ℕ, ◌+◌, ◌<◌, ◌≤◌, ◌≡◌, refl, Bool, false, true, none, some, List, [], ◌∷◌, arith, length,
}
use notes_coding.Memory.{Outcome, done}
use notes_coding.Memory.Ends
use notes_coding.Memory.Ends.{Ends, ends}
use notes_coding.TimerList.Spec.{Cell}
use notes_coding.IdleServer.{
  Server, obey, Signal, sigalrm, sigterm, other, Event, connection, signals, readable, others,
  handle, handle_all, ring, round,
}
use notes_coding.IdleServer.Serving.{Owned, idle_time, IsServing, Serves}
use notes_coding.IdleServer.Connect.{IsNew, connect-Serves}
use notes_coding.IdleServer.Hear.{hear-Serves}
use notes_coding.IdleServer.Idle.{timer_handler-Swept}

-- What the kernel reports: a new descriptor, or an open one that can be read.
abbrev pub Ready : Event → Server → Type 0
Ready (connection none timer) s = ⊥
Ready (connection (some (connfd, address)) timer) s = IsNew s connfd timer
Ready (signals sigs) s = Unit
Ready (readable sockfd got) s = s.open_fds sockfd ≡ true
Ready others s = Unit

-- What it reports holds when the loop comes to it.
abbrev pub AllReady : (k now : ℕ) → List Event → Server → Type 0
AllReady k now [] s = Unit
AllReady k now (e ∷ es) s =
    Ready e s × ((g : Server) → handle k now e s ≡ done tt g → AllReady k now es g)

flags-IsServing :
    (now : ℕ) (s : Server) (xs : List Cell) (timeout stop : Bool)
    → IsServing now s xs
    → IsServing now (record s { timeout = timeout; stop_server = stop }) xs
flags-IsServing now s xs timeout stop is = record {
  holds = is.holds;
  sorted = is.sorted;
  owned =
      All-map (Owned s) _ xs (λ x o. record { points = o.points; number = o.number; on = o.on })
        is.owned;
  timed = is.timed;
  recent = is.recent;
}

obey-IsServing :
    (now : ℕ) (sigs : List Signal) (s : Server) (xs : List Cell)
    → IsServing now s xs
    → IsServing now (obey sigs s) xs
unfolding obey
obey-IsServing now [] s xs is = is
obey-IsServing now (sigalrm ∷ sigs) s xs is =
    obey-IsServing now sigs (record s { timeout = true }) xs
      (flags-IsServing now s xs true s.stop_server is)
obey-IsServing now (sigterm ∷ sigs) s xs is =
    obey-IsServing now sigs (record s { stop_server = true }) xs
      (flags-IsServing now s xs s.timeout true is)
obey-IsServing now (other ∷ sigs) s xs is = obey-IsServing now sigs s xs is

handle-Serves :
    (k now : ℕ) (e : Event) (s : Server) (xs : List Cell)
    → IsServing now s xs
    → Ready e s
    → length xs ≤ k
    → Ends (λ _ g. Serves now xs g) (handle k now e s)
unfolding handle
handle-Serves k now (connection none timer) s xs is ready fuel = elim ready [ ]
handle-Serves k now (connection (some (connfd, address)) timer) s xs is ready fuel =
    connect-Serves now s xs connfd address timer k is ready fuel
handle-Serves k now (signals sigs) s xs is ready fuel =
    ends (record { cells = xs; serving = obey-IsServing now sigs s xs is; growth = omega arith })
handle-Serves k now (readable sockfd got) s xs is ready fuel =
    hear-Serves k now s xs sockfd got is ready fuel
handle-Serves k now others s xs is ready fuel =
    ends (record { cells = xs; serving = is; growth = omega arith })

-- The end of a command, with the equation that says so.
ends-eq :
    {P : Server → Type 0} {r : Outcome Server (Unit {0})}
    → Ends (λ _ g. P g) r
    → (g : Server) × P g × (r ≡ done tt g)
ends-eq (ends {s} p) = (s, p, refl)

-- The server serves `n` timers at most.
pub record ServesUpTo (now n : ℕ) (g : Server) : Type 0 where
  pub cells : List Cell
  pub serving : IsServing now g cells
  pub bound : length cells ≤ n

handle_all-Serves :
    (k now : ℕ) (es : List Event) (s : Server) (xs : List Cell)
    → IsServing now s xs
    → AllReady k now es s
    → length xs + length es ≤ k
    → Ends (λ _ g. ServesUpTo now (length xs + length es) g) (handle_all k now es s)
unfolding handle_all
handle_all-Serves k now [] s xs is ready fuel =
    ends (record { cells = xs; serving = is; bound = omega arith })
handle_all-Serves k now (e ∷ es) s xs is ready fuel =
    let (g, h, eq) = ends-eq (handle-Serves k now e s xs is ready.0 (omega arith)) in
    rw eq (
      Ends.weaken
        (handle_all-Serves k now es g h.cells h.serving (ready.1 g eq) (omega (arith, h.growth)))
        λ _ f r. record {
          cells = r.cells;
          serving = r.serving;
          bound = omega (arith, r.bound, h.growth);
        })

pub later-IsServing :
    (now later : ℕ) (s : Server) (xs : List Cell)
    → now ≤ later
    → IsServing now s xs
    → IsServing later s xs
later-IsServing now later s xs h is = record {
  holds = is.holds;
  sorted = is.sorted;
  owned = is.owned;
  timed = is.timed;
  recent = All-map (λ x. x.1.expire ≤ now + idle_time) _ xs (λ x r. omega arith) is.recent;
}

-- The alarm has been dealt with, and the server serves `n` timers at most.
pub record Rounded (now n : ℕ) (g : Server) : Type 0 where
  pub cells : List Cell
  pub serving : IsServing now g cells
  pub bound : length cells ≤ n
  pub quiet : g.timeout ≡ false

ring-Rounded :
    (alarm : Bool) (k time n : ℕ) (g : Server)
    → ServesUpTo time n g
    → n < k
    → g.timeout ≡ alarm
    → Ends (λ _ g. Rounded time n g) (ring alarm k time g)
unfolding ring
ring-Rounded true k time n g r fuel e =
    Ends.then (timer_handler-Swept k time g r.cells r.serving (omega (arith, r.bound))) λ _ f w.
      ends (record {
        cells = w.stay;
        serving = flags-IsServing time f w.stay false f.stop_server w.serving;
        bound = omega (arith, r.bound, w.shorter);
        quiet = refl;
      })
ring-Rounded false k time n g r fuel e =
    ends (record { cells = r.cells; serving = r.serving; bound = r.bound; quiet = e })

-- A round of the event loop at a later time, over events of connections that are open and of new ones
-- that are not, ends without a fault, given rounds for the timers and the events and one more. No
-- alarm is then pending, the timers are in order, each is that of an open connection, and each open
-- connection has one.
pub round-Rounded :
    (k now time : ℕ) (es : List Event) (s : Server) (xs : List Cell)
    → now ≤ time
    → IsServing now s xs
    → AllReady k time es s
    → length xs + length es < k
    → Ends (λ _ g. Rounded time (length xs + length es) g) (round k time es s)
unfolding round
round-Rounded k now time es s xs h is ready fuel =
    Ends.then
      (handle_all-Serves k time es s xs (later-IsServing now time s xs h is) ready (omega arith))
      λ _ g r. ring-Rounded g.timeout k time (length xs + length es) g r fuel refl
