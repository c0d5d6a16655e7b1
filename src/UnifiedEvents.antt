-- ===== src/UnifiedEvents.antt =====
-- high-performance-server-programming-linux/ch10/unified_event_source.cc: signals that a handler writes
-- to a pipe and the main loop reads from it with the other events. The handler may run between any two
-- steps of the loop.
pub mod InOrder
pub mod Wakes
pub mod Stalls
mod Tests
use notes_coding.Base.{
  ℕ, zero, suc, ◌+◌, ◌≡◌, Bool, true, false, ◌||◌, List, [], ◌∷◌, ◌++◌, ltb, if◌then◌else◌, length,
  take, drop, map,
}

-- The size of `signals`.
abbrev pub signals_size : ℕ
signals_size = 1024

-- The signals with a handler.
pub data Signal : Type 0 where
  sighup sigchld sigterm sigint : Signal

pub data Event : Type 0 where
  connection : (connfd : ℕ) → Event
  signals : Event

-- `pipe` is what waits in the pipe; `edge` whether something has come to it since `epoll_wait` last
-- reported it; `events` what is left of the last `epoll_wait`. `written` are the signals that the
-- handler could write, `handled` those that the loop has read, `errno` the variable of the program.
pub record State : Type 0 where
  pub pipe : List Signal
  pub edge : Bool
  pub events : List Event
  pub stop_server : Bool
  pub watched : List ℕ
  pub written : List Signal
  pub handled : List Signal
  pub errno : ℕ

abbrev pub init : (errno : ℕ) → State
init errno = record {
  pipe = [];
  edge = false;
  events = [];
  stop_server = false;
  watched = [];
  written = [];
  handled = [];
  errno = errno;
}

-- `switch (signals[i])`, on `stop_server`.
abbrev pub obey : Signal → Bool → Bool
obey sighup stop = stop
obey sigchld stop = stop
obey sigterm stop = true
obey sigint stop = true

abbrev pub obey_all : List Signal → Bool → Bool
obey_all [] stop = stop
obey_all (sig ∷ sigs) stop = obey_all sigs (obey sig stop)

-- `recv` of what is in the pipe, at most as much as `signals` holds, and the loop over it.
pub read_signals : State → State
read_signals s = record s {
  pipe = drop signals_size s.pipe;
  handled = s.handled ++ take signals_size s.pipe;
  stop_server = obey_all (take signals_size s.pipe) s.stop_server;
}

pub handle : Event → State → State
unfolding read_signals
handle (connection connfd) s = record s { watched = s.watched ++ connfd ∷ [] }
handle signals s = read_signals s

-- What `epoll_wait` reports: connections, and the pipe when something has come to it, among them.
abbrev pub reported : (edge : Bool) (before after : List ℕ) → List Event
reported true before after = map connection before ++ signals ∷ map connection after
reported false before after = map connection before ++ map connection after

-- The pipe has room for `room` bytes, and a write that finds it full sets `errno` to `again`.
module _ (room again : ℕ) where
  -- `send(pipefd[1], &msg, 1, 0)`
  abbrev pub send : Signal → State → State
  send sig s =
      if ltb (length s.pipe) room
      then record s { pipe = s.pipe ++ sig ∷ []; edge = true; written = s.written ++ sig ∷ [] }
      else record s { errno = again }

  pub sig_handler : Signal → State → State
  sig_handler sig s = let save_errno : ℕ = s.errno in record (send sig s) { errno = save_errno }

  pub data Step (s : State) : State → Type 0 where
    interrupt : (sig : Signal) → Step s (sig_handler sig s)
    waits :
        (before after : List ℕ)
        → s.stop_server ≡ false
        → s.events ≡ []
        → Step s (record s { edge = false; events = reported s.edge before after })
    fails : s.stop_server ≡ false → s.events ≡ [] → Step s s
    next :
        (e : Event) (es : List Event)
        → s.events ≡ e ∷ es
        → Step s (handle e (record s { events = es }))

  pub data Reach (errno : ℕ) : State → Type 0 where
    start : Reach errno (init errno)
    later : {s g : State} → Reach errno s → Step s g → Reach errno g
