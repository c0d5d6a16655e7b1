-- ===== src/IdleServer.antt =====
-- high-performance-server-programming-linux/ch11/nonactive_connection.cc: a server that closes the
-- connections that have been idle for 15 seconds. Its timers are those of TimerList. `open` says
-- which client descriptors are open and watched; a fault is a write outside `users`, an access
-- through a bad pointer, or a bad descriptor.
pub mod Found
pub mod Serving
pub mod Connect
pub mod Hear
pub mod Calls
pub mod Idle
pub mod Round
mod Tests
use notes_coding.Base.{
  ℕ, ◌+◌, ◌*◌, Bool, true, false, Option, none, some, List, [], ◌∷◌, ltb, ◌==◌, if◌then◌else◌,
  update,
}
use notes_coding.Memory.{Ptr, null, Outcome, done, fault, starved, Cmd, pure, ◌>>=◌, ◌>>◌, write}
use notes_coding.Memory.Chain.{node}
use notes_coding.TimerList.{UtilTimer, Timers, TimerCmd, add_timer, put_off, del_timer, tick}

-- `TIMESLOT`, in seconds
abbrev pub timeslot : ℕ
timeslot = 5

-- `FD_LIMIT`
abbrev pub fd_limit : ℕ
fd_limit = 65535

-- `buf` is left out: what is read into it is only printed.
pub record ClientData : Type 0 where
  pub address : ℕ
  pub sockfd : ℕ
  pub timer : Ptr

pub record Server : Type 0 where
  pub timers : Timers
  pub users : ℕ → ClientData
  pub open_fds : ℕ → Bool
  pub timeout : Bool
  pub stop_server : Bool

abbrev pub ServerCmd : Type 0
ServerCmd = Cmd Server (Unit {0})

-- What a command on the timers does to the server.
pub lift : Server → Outcome Timers (Unit {0}) → Outcome Server (Unit {0})
lift s (done a t) = done a (record s { timers = t })
lift s fault = fault
lift s starved = starved

abbrev pub on_timers : TimerCmd → ServerCmd
on_timers c s = lift s (c s.timers)

-- `cb_func(&users[fd])`, and the callback of every timer.
pub cb_func : ℕ → Server → Server
cb_func fd s = record s { open_fds = update s.open_fds (s.users fd).sockfd false }

-- A new connection, with what `accept` and `new UtilTimer` return, at the time `now`.
pub connect : (k : ℕ) (accepted : Option (ℕ × ℕ)) (timer : Ptr) (now : ℕ) → ServerCmd
connect k none timer now s = fault
connect k (some (connfd, address)) timer now s =
    if ltb connfd fd_limit
    then on_timers (add_timer k timer) (record s {
      users = update s.users connfd (record { address = address; sockfd = connfd; timer = timer });
      open_fds = update s.open_fds connfd true;
      timers = record (s.timers) {
        nodes = write (s.timers.nodes) timer (
            some (
              node (record { expire = now + 3 * timeslot; cb_func = 0; user_data = connfd }) null
                null));
      };
    })
    else fault

pub data Received : Type 0 where
  bytes end_of_stream again failed : Received

-- `cb_func(&users[sockfd]); if (timer) timer_lst.delTimer(timer);`
pub hang_up : (sockfd : ℕ) → ServerCmd
unfolding cb_func
hang_up sockfd s =
    let timer : Ptr = (s.users sockfd).timer in
    let s : Server = cb_func sockfd s in
    if timer == null then done tt s else on_timers (del_timer timer) s

-- Something can be read from a client.
pub hear : (k sockfd : ℕ) → Received → (now : ℕ) → ServerCmd
unfolding hang_up
hear k sockfd bytes now s =
    let timer : Ptr = (s.users sockfd).timer in
    if timer == null then done tt s else on_timers (put_off k timer (now + 3 * timeslot)) s
hear k sockfd end_of_stream now s = hang_up sockfd s
hear k sockfd again now s = done tt s
hear k sockfd failed now s = hang_up sockfd s

pub data Signal : Type 0 where
  sigalrm sigterm other : Signal

-- The signals read from the pipe.
pub obey : List Signal → Server → Server
obey [] s = s
obey (sigalrm ∷ sigs) s = obey sigs (record s { timeout = true })
obey (sigterm ∷ sigs) s = obey sigs (record s { stop_server = true })
obey (other ∷ sigs) s = obey sigs s

-- An event of the loop: a connection, with what the calls return, signals, or a readable client.
pub data Event : Type 0 where
  connection : Option (ℕ × ℕ) → (timer : Ptr) → Event
  signals : List Signal → Event
  readable : (sockfd : ℕ) → Received → Event
  others : Event

-- The body of the loop over the events.
pub handle : (k now : ℕ) → Event → ServerCmd
unfolding connect hear obey
handle k now (connection accepted timer) s = connect k accepted timer now s
handle k now (signals sigs) s = done tt (obey sigs s)
handle k now (readable sockfd got) s = hear k sockfd got now s
handle k now others s = done tt s

pub handle_all : (k now : ℕ) → List Event → ServerCmd
unfolding handle
handle_all k now [] s = done tt s
handle_all k now (e ∷ es) s = (handle k now e >> handle_all k now es) s

-- The callbacks that a tick has called, in order.
pub run_calls : List (ℕ × ℕ) → Server → Server
unfolding cb_func
run_calls [] s = s
run_calls ((f, fd) ∷ calls) s = run_calls calls (cb_func fd s)

-- `timer_handler()`: the callbacks close descriptors and do not touch the list, so they can be run
-- after the loop of `tick`.
pub timer_handler : (k now : ℕ) → ServerCmd
unfolding lift run_calls
timer_handler k now s =
    (do
      on_timers (λ t. done tt (record t { fields = record (t.fields) { calls = [] } }))
      on_timers (tick k now)
      λ s. done tt (run_calls s.timers.fields.calls s))
      s

-- `if (timeout) { timer_handler(); timeout = false; }`
pub ring : (timeout : Bool) → (k now : ℕ) → ServerCmd
unfolding timer_handler
ring true k now s = (timer_handler k now >> λ s. done tt (record s { timeout = false })) s
ring false k now s = done tt s

-- A round of the event loop, all of it at the time `now`: the source reads the clock for each event.
pub round : (k now : ℕ) → List Event → ServerCmd
unfolding handle_all ring
round k now es = handle_all k now es >> λ s. ring s.timeout k now s
