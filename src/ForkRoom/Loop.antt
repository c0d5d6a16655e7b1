-- ===== src/ForkRoom/Loop.antt =====
-- The loop of the parent: `sig_handler`'s bytes and the events of `epoll_wait`, in the order in which
-- they come.
use notes_coding.Base.{ℕ, true, false, Option, none, some, List, [], ◌∷◌}
use notes_coding.ForkRoom.{Parent, System, connect, sigchld, sigterm, forward}

-- A byte of the signal pipe, with the pids that `waitpid` returns at `SIGCHLD`.
pub data Signal : Type 0 where
  child_ended : (pids : List ℕ) → Signal
  term interrupt other : Signal

unfoldable pub obey : Signal → Parent → Parent
unfolding sigchld sigterm
obey (child_ended pids) p = sigchld pids p
obey term p = sigterm p
obey interrupt p = sigterm p
obey other p = p

-- The loop over the bytes that `recv` reads.
unfoldable pub obey_all : List Signal → Parent → Parent
unfolding obey
obey_all [] p = p
obey_all (sig ∷ sigs) p = obey_all sigs (obey sig p)

-- An event, `no_input` where it is not one of reading from a child, with what `accept` and `fork` return, or what `recv` reads from the pipe: nothing where it
-- returns -1 or 0.
pub data Event : Type 0 where
  connection : (accepted : Option (ℕ × ℕ)) (pipefd : ℕ) (forked : Option ℕ) → Event
  signals : (sigs : List Signal) → Event
  client_data : (sockfd : ℕ) (child : Option ℕ) → Event
  no_input : Event

unfoldable pub handle : Event → System → System
unfolding connect obey_all forward
handle (connection accepted pipefd forked) s = connect accepted pipefd forked s
handle (signals sigs) s = record s { parent = obey_all sigs s.parent }
handle (client_data sockfd child) s = record s { parent = forward sockfd child s.parent }
handle no_input s = s

-- The loop over the events of one `epoll_wait`.
unfoldable pub handle_all : List Event → System → System
unfolding handle
handle_all [] s = s
handle_all (e ∷ es) s = handle_all es (handle e s)

-- The loop of `main`, on what `epoll_wait` returns: no event when a signal interrupts it, `none` when
-- it fails.
unfoldable pub serve : List (Option (List Event)) → System → System
unfolding handle_all
serve [] s = s
serve (none ∷ rounds) s = s
serve (some es ∷ rounds) s = elim s.parent.stop_server [
  | true ↦ s
  | false ↦ serve rounds (handle_all es s)
]
