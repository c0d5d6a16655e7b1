-- ===== src/Reactor.antt =====
-- libevent/Reactor.cpp: an echo server over epoll. The kernel's answers (the accepted descriptor,
-- what `recv` and `send` return, the time) are arguments; the calls that change something in the
-- kernel are recorded. `none` is a write outside an array.
pub mod Slots
pub mod Echo
pub mod Timeout
mod Tests
use notes_coding.Base.{
  ℕ, zero, suc, ◌+◌, ◌/◌, ◌%◌, Bool, true, false, ◌&&◌, Option, none, some, List, [], ◌∷◌, ◌++◌,
  leb, ltb, ◌==◌, if◌then◌else◌, length, get_elem?, set, take, replicate,
}

abbrev pub max_events : ℕ
max_events = 1024

abbrev pub max_buf_len : ℕ
max_buf_len = 128

abbrev pub epollin : ℕ
epollin = 1

abbrev pub epollout : ℕ
epollout = 4

-- `events & EPOLLIN` and `events & EPOLLOUT`
abbrev pub has_in : ℕ → Bool
has_in events = events % 2 == 1

abbrev pub has_out : ℕ → Bool
has_out events = events / 4 % 2 == 1

-- The functions that an event's `call_back` may be.
pub data CallBack : Type 0 where
  accept_connection recv_data send_data : CallBack

-- `arg` is left out: it points to the event itself.
pub record Event : Type 0 where
  pub fd : ℕ
  pub events : ℕ
  pub call_back : CallBack
  pub status : ℕ
  pub buf : List ℕ
  pub len : ℕ
  pub last_active : ℕ

pub data Call : Type 0 where
  ctl_add ctl_mod : (fd events : ℕ) → Call
  ctl_del close : (fd : ℕ) → Call
  sent : (fd : ℕ) → List ℕ → Call

-- `g_events`, and the kernel calls so far.
pub record Reactor : Type 0 where
  pub g_events : List Event
  pub calls : List Call

abbrev pub record_call : Call → Reactor → Reactor
record_call c r = record r { calls = r.calls ++ c ∷ [] }

-- `SetEvent`
pub set_event : Event → (fd : ℕ) → CallBack → (now : ℕ) → Event
set_event ev fd cb now = record ev {
  fd = fd;
  events = 0;
  call_back = cb;
  status = 0;
  last_active = now;
}

-- `AddEvent` of the event in slot `i`
pub add_event : (events i : ℕ) → Event → Reactor → Reactor
add_event events i ev r =
    record_call (if ev.status == 1 then ctl_mod ev.fd events else ctl_add ev.fd events)
      (record r { g_events = set r.g_events i (record ev { events = events; status = 1 }) })

-- `DelEvent` of the event in slot `i`
pub del_event : ℕ → Event → Reactor → Reactor
del_event i ev r =
    if ev.status == 1
    then record_call (ctl_del ev.fd)
        (record r { g_events = set r.g_events i (record ev { status = 0 }) })
    else r

-- The first of the slots from `i` on, `n` at most, that is not in use.
pub find_free : ℕ → ℕ → List Event → Option ℕ
find_free zero i evs = none
find_free (suc n) i [] = none
find_free (suc n) i (ev ∷ evs) = if ev.status == 0 then some i else find_free n (i + 1) evs

-- `AcceptConnection`. `accepted` is the new descriptor, `none` if `accept` fails, and `nonblocking`
-- says whether `fcntl` succeeds.
pub accept : (accepted : Option ℕ) (nonblocking : Bool) (now : ℕ) → Reactor → Reactor
unfolding find_free set_event add_event
accept none nonblocking now r = r
accept (some conn_fd) nonblocking now r = elim (find_free max_events 0 r.g_events) [
  | none ↦ r
  | some i ↦
      if nonblocking
      then elim (get_elem? r.g_events i) [
        | none ↦ r
        | some ev ↦
            let ev : Event = set_event ev conn_fd recv_data now in
            add_event epollin i ev (record r { g_events = set r.g_events i ev })
      ]
      else r
]

-- What the kernel writes to the front of a buffer.
pub overwrite : List ℕ → List ℕ → List ℕ
overwrite [] buf = buf
overwrite (x ∷ xs) [] = []
overwrite (x ∷ xs) (b ∷ buf) = x ∷ overwrite xs buf

-- What `recv` returns: bytes, the end of the stream, or an error.
pub data Received : Type 0 where
  bytes : ℕ → List ℕ → Received
  closed failed : Received

-- `ev->buf[len] = '\0'`
pub terminate : Event → (len : ℕ) → Option Event
terminate ev len =
    if ltb len (length ev.buf) then some (record ev { buf = set ev.buf len 0; len = len }) else none

-- The successful branch of `RecvData`, after `DelEvent`.
pub turn_to_send : (i fd len now : ℕ) → Event → Reactor → Option Reactor
unfolding set_event add_event terminate
turn_to_send i fd len now ev r = elim (terminate ev len) [
  | none ↦ none
  | some ev ↦ some (add_event epollout i (set_event ev fd send_data now) r)
]

-- `RecvData` on the event `ev` of slot `i`
pub recv : (i : ℕ) → Event → Received → (now : ℕ) → Reactor → Option Reactor
unfolding del_event overwrite turn_to_send
recv i ev (bytes x xs) now r =
    let got : Event = record ev { buf = overwrite (x ∷ xs) ev.buf } in
    let r : Reactor = del_event i got (record r { g_events = set r.g_events i got }) in
    turn_to_send i ev.fd (suc (length xs)) now (record got { status = 0 }) r
recv i ev closed now r = some (record_call (close ev.fd) (del_event i ev r))
recv i ev failed now r = some (record_call (close ev.fd) (del_event i ev r))

-- `SendData` on the event `ev` of slot `i`, where `send` takes `n` bytes, 0 if it fails
pub send : (i : ℕ) → Event → (n now : ℕ) → Reactor → Reactor
unfolding set_event add_event del_event
send i ev n now r =
    let r : Reactor = del_event i ev (record_call (sent ev.fd (take n (take ev.len ev.buf))) r) in
    if ltb 0 n
    then add_event epollin i (set_event (record ev { status = 0 }) ev.fd recv_data now) r
    else record_call (close ev.fd) r

-- What the kernel answers while one event is handled.
pub record Answers : Type 0 where
  pub accepted : Option ℕ
  pub nonblocking : Bool
  pub received : Received
  pub taken : ℕ
  pub now : ℕ

-- `ev->call_back(ev->fd, events[i].events, ev->arg)`
pub handle : (i : ℕ) → Event → Answers → Reactor → Option Reactor
unfolding accept recv send
handle i ev a r = elim ev.call_back [
  | accept_connection ↦ some (accept a.accepted a.nonblocking a.now r)
  | recv_data ↦ recv i ev a.received a.now r
  | send_data ↦ some (send i ev a.taken a.now r)
]

-- Handles the event of slot `i` if `ready` holds of what it waits for.
pub handle_if : (ready : ℕ → Bool) → (i : ℕ) → Answers → Reactor → Option Reactor
unfolding handle
handle_if ready i a r = elim (get_elem? r.g_events i) [
  | none ↦ none
  | some ev ↦ if ready ev.events then handle i ev a r else some r
]

-- The body of the event loop for a ready event of slot `i`: first for reading, then for writing.
pub dispatch : (i events : ℕ) → Answers → Answers → Reactor → Option Reactor
unfolding handle_if
dispatch i events a b r = elim (handle_if (λ e. has_in events && has_in e) i a r) [
  | none ↦ none
  | some r' ↦ handle_if (λ e. has_out events && has_out e) i b r'
]

-- `if (checkpos == MAX_EVENTS) checkpos = 0;`
pub restart : ℕ → ℕ
restart checkpos = if checkpos == max_events then 0 else checkpos

-- The rest of a round of the timeout loop of `main`, for the slot `pos`.
pub check_slot : (now pos : ℕ) → Reactor → Reactor
unfolding del_event
check_slot now pos r = elim (get_elem? r.g_events pos) [
  | none ↦ r
  | some ev ↦
      if ev.status == 1
      then (if leb (ev.last_active + 60) now
          then del_event pos ev (record_call (close ev.fd) r)
          else r)
      else r
]

-- `n` rounds of the timeout loop: the position and the state that they leave.
pub check_slots : (n now checkpos : ℕ) → Reactor → ℕ × Reactor
check_slots zero now checkpos r = (checkpos, r)
check_slots (suc n) now checkpos r =
    check_slots n now (restart checkpos) (check_slot now (restart checkpos) r)
