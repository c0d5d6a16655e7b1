-- ===== src/Epoll.antt =====
-- high-performance-server-programming-linux/ch09/epoll.cc: a server that reads its clients with
-- level-triggered (`lt`) or with edge-triggered events (`et`). What `accept` and `recv` return is a
-- part of the events; what is printed and closed is recorded.
pub mod Modes
mod Tests
use notes_coding.Base.{
  ℕ, ◌-◌, Bool, true, false, Option, none, some, List, [], ◌∷◌, ◌++◌, length, take, c_string,
  update,
}

abbrev pub buffer_size : ℕ
buffer_size = 5

-- What `recv` returns: bytes, one at least.
pub data Received : Type 0 where
  bytes : (x : ℕ) (xs : List ℕ) → Received
  end_of_stream again failed : Received

pub data Line : Type 0 where
  event_trigger : Line
  got : (ret : ℕ) (buf : List ℕ) → Line
  read_later : Line
  something_else : Line

-- `edge` has the clients that are watched, with EPOLLET or without.
pub record Server : Type 0 where
  pub edge : ℕ → Option Bool
  pub closes : List ℕ
  pub printed : List Line

abbrev pub print : Line → Server → Server
print l s = record s { printed = s.printed ++ l ∷ [] }

abbrev pub close : ℕ → Server → Server
close fd s = record s { closes = s.closes ++ fd ∷ [] }

-- `addfd(epollfd, fd, enable_et)`
pub addfd : (fd : ℕ) (enable_et : Bool) → Server → Server
addfd fd enable_et s = record s { edge = update s.edge fd (some enable_et) }

-- What is printed of the bytes: 4 at most are read at once, and `buf` ends at a zero.
abbrev pub got_line : ℕ → List ℕ → Line
got_line x xs =
    let buf : List ℕ = take (buffer_size - 1) (x ∷ xs) in got (length buf) (c_string buf)

-- An event of `epoll_wait`, with what `accept` or `recv` return for it.
pub data Event (R : Type 0) : Type 0 where
  connection : (connfd : ℕ) → Event R
  readable : (sockfd : ℕ) → R → Event R
  others : Event R

-- The body of the loop of `lt` after the first line that it prints for a client.
pub lt_receive : (sockfd : ℕ) → Received → Server → Server
lt_receive sockfd (bytes x xs) s = print (got_line x xs) s
lt_receive sockfd end_of_stream s = close sockfd s
lt_receive sockfd again s = close sockfd s
lt_receive sockfd failed s = close sockfd s

-- `lt(events, number, epollfd, listenfd)`
pub lt : List (Event Received) → Server → Server
unfolding addfd lt_receive
lt [] s = s
lt (connection connfd ∷ events) s = lt events (addfd connfd false s)
lt (readable sockfd r ∷ events) s = lt events (lt_receive sockfd r (print event_trigger s))
lt (others ∷ events) s = lt events (print something_else s)

-- The inner loop of `et`, with what its calls of `recv` return: `none` where it calls `recv` once more.
pub et_loop : (sockfd : ℕ) → List Received → Server → Option Server
et_loop sockfd [] s = none
et_loop sockfd (bytes x xs ∷ rs) s = et_loop sockfd rs (print (got_line x xs) s)
et_loop sockfd (end_of_stream ∷ rs) s = et_loop sockfd rs (close sockfd s)
et_loop sockfd (again ∷ rs) s = some (print read_later s)
et_loop sockfd (failed ∷ rs) s = some (close sockfd s)

-- `et(events, number, epollfd, listenfd)`
pub et : List (Event (List Received)) → Server → Option Server
unfolding addfd et_loop
et [] s = some s
et (connection connfd ∷ events) s = et events (addfd connfd true s)
et (readable sockfd rs ∷ events) s = elim (et_loop sockfd rs (print event_trigger s)) [
  | none ↦ none
  | some s' ↦ et events s'
]
et (others ∷ events) s = et events (print something_else s)
