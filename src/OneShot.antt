-- ===== src/OneShot.antt =====
-- high-performance-server-programming-linux/ch09/epolloneshot.cc: a server that starts a thread for
-- each event of a socket, which is watched with EPOLLONESHOT. What epoll watches is a part of the
-- state; that it reports a watched socket, and then watches it no more if it is a oneshot one, is its
-- documented behaviour. A step is what one thread does between two points where others can come in.
pub mod Invariant
mod Turns
pub mod Exclusive
pub mod Clash
mod Tests
use notes_coding.Base.{
  ℕ, ◌-◌, ◌≡◌, Bool, true, false, ◌&&◌, not, Option, none, some, List, [], ◌∷◌, ◌++◌, ◌==◌,
  if◌then◌else◌, take, c_string, update,
}

abbrev pub buffer_size : ℕ
buffer_size = 5

-- `open_fds` and `armed` say which client sockets are open and watched, `oneshot` which have the flag;
-- `sockfd` is the field of `fds_for_new_worker`, a variable of the loop that new threads get a pointer
-- to. A thread is `starting` until it has read it; `serving` is its own `sockfd`, `content` its `str`.
pub record State : Type 0 where
  pub open_fds : ℕ → Bool
  pub armed : ℕ → Bool
  pub oneshot : ℕ → Bool
  pub sockfd : ℕ
  pub starting : ℕ → Bool
  pub serving : ℕ → Option ℕ
  pub content : ℕ → List ℕ

abbrev pub init : State
init = record {
  open_fds = λ fd. false;
  armed = λ fd. false;
  oneshot = λ fd. false;
  sockfd = 0;
  starting = λ i. false;
  serving = λ i. none;
  content = λ i. [];
}

-- `addfd(epollfd, fd, oneshot)`
pub addfd : (fd : ℕ) (oneshot : Bool) → State → State
addfd fd oneshot s = record s {
  armed = update s.armed fd true;
  oneshot = update s.oneshot fd oneshot;
}

-- `reset_oneshot(epollfd, fd)`
pub reset_oneshot : (fd : ℕ) → State → State
reset_oneshot fd s = record s { armed = update s.armed fd true; oneshot = update s.oneshot fd true }

-- A connection, with the descriptor that `accept` returns.
pub connect : (connfd : ℕ) → State → State
unfolding addfd
connect connfd s = addfd connfd true (record s { open_fds = update s.open_fds connfd true })

-- What `epoll_wait` does to a socket that it reports.
abbrev pub reported : (fd : ℕ) → State → State
reported fd s = record s { armed = update s.armed fd (s.armed fd && not (s.oneshot fd)) }

-- An event of a client: the thread `i` is made.
pub dispatch : (i fd : ℕ) → State → State
dispatch i fd s = record s { sockfd = fd; starting = update s.starting i true }

-- The first lines of `worker`.
pub begin : (i : ℕ) → State → State
begin i s = record s {
  starting = update s.starting i false;
  serving = update s.serving i (some s.sockfd);
  content = update s.content i [];
}

pub data Received : Type 0 where
  bytes : List ℕ → Received
  end_of_stream again failed : Received

-- A turn of the loop of `worker`, where `recv` reads 4 bytes at most.
pub receive : (i fd : ℕ) → Received → State → State
unfolding reset_oneshot
receive i fd (bytes xs) s = record s {
  content = update s.content i (s.content i ++ c_string (take (buffer_size - 1) xs));
}
receive i fd end_of_stream s = record s {
  open_fds = update s.open_fds fd false;
  armed = update s.armed fd false;
  serving = update s.serving i none;
}
receive i fd again s = reset_oneshot fd (record s { serving = update s.serving i none })
receive i fd failed s = s

pub data Step (s : State) : State → Type 0 where
  connection : (connfd : ℕ) → s.open_fds connfd ≡ false → Step s (connect connfd s)
  event :
      (i fd : ℕ)
      → s.armed fd ≡ true
      → s.starting i ≡ false
      → s.serving i ≡ none
      → Step s (dispatch i fd (reported fd s))
  first_lines : (i : ℕ) → s.starting i ≡ true → Step s (begin i s)
  turn : (i fd : ℕ) (got : Received) → s.serving i ≡ some fd → Step s (receive i fd got s)

-- The states of an execution, and those of one in which a new thread has begun before the loop goes on
-- to the next event.
pub data Reach : State → Type 0 where
  start : Reach init
  later : {s t : State} → Reach s → Step s t → Reach t

pub IsPrompt : {s t : State} → Step s t → Type 0
IsPrompt (connection connfd shut) = Unit
IsPrompt {s} (event i fd on free idle) = (j : ℕ) → s.starting j ≡ false
IsPrompt (first_lines i new) = Unit
IsPrompt (turn i fd got works) = Unit

pub data PromptReach : State → Type 0 where
  prompt_start : PromptReach init
  prompt_later : {s t : State} → PromptReach s → (step : Step s t) → IsPrompt step → PromptReach t
