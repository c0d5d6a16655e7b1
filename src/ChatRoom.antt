-- ===== src/ChatRoom.antt =====
-- high-performance-server-programming-linux/ch09/chatroom_server.cc: a chat room over `poll`. The
-- arrays are functions of the index, `calls` records what is sent and closed, and the kernel's
-- answers during one round of the event loop are an argument. `none` is a count of users below 0, or
-- the end of the steps given to a loop.
pub mod Tell
pub mod Seats
pub mod Keeps
pub mod Deliver
mod Tests
use notes_coding.Base.{
  ℕ, zero, suc, ◌+◌, ◌-◌, ◌/◌, ◌%◌, Bool, ◌&&◌, not, Option, none, some, List, [], ◌∷◌, ◌++◌, ltb,
  leb, ◌==◌, if◌then◌else◌, length, take, replicate, update,
}
use Prim.Native.Nat.{bit_or}

abbrev pub user_limit : ℕ
user_limit = 5

abbrev pub buffer_size : ℕ
buffer_size = 64

-- Tests and masks of the 16-bit event sets.
abbrev pub has_in : ℕ → Bool
has_in events = events % 2 == 1

abbrev pub has_out : ℕ → Bool
has_out events = events / 4 % 2 == 1

abbrev pub has_err : ℕ → Bool
has_err events = events / 8 % 2 == 1

abbrev pub has_hup : ℕ → Bool
has_hup events = events / 16 % 2 == 1

-- `events |= ~POLLIN; events |= POLLOUT;`
pub write_only : ℕ → ℕ
write_only events = bit_or (bit_or events 65534) 4

-- `events |= ~POLLOUT; events |= POLLIN;`
pub read_again : ℕ → ℕ
read_again events = bit_or (bit_or events 65531) 1

pub record PollFd : Type 0 where
  pub fd : ℕ
  pub events : ℕ
  pub revents : ℕ

-- `write_buf` points to the `buf` of the user with the given descriptor.
pub record ClientData : Type 0 where
  pub addr : ℕ
  pub write_buf : Option ℕ
  pub buf : List ℕ

pub data Call : Type 0 where
  sent : (fd : ℕ) → List ℕ → Call
  rejected closed : (fd : ℕ) → Call

pub record Room : Type 0 where
  pub fds : ℕ → PollFd
  pub user_cnt : ℕ
  pub users : ℕ → ClientData
  pub listenfd : ℕ
  pub calls : List Call

pub data Received : Type 0 where
  bytes : ℕ → List ℕ → Received
  end_of_stream again failed : Received

-- The kernel's answers: the descriptor and address of a new connection, and what comes from each.
pub record Kernel : Type 0 where
  pub accepted : Option (ℕ × ℕ)
  pub received : ℕ → Received

abbrev pub record_call : Call → Room → Room
record_call c r = record r { calls = r.calls ++ c ∷ [] }

-- The characters before the first 0.
pub text : List ℕ → List ℕ
text [] = []
text (x ∷ xs) = let rest = text xs in if x == 0 then [] else x ∷ rest

-- `memset`, then `recv` of at most 63 bytes
pub fill : List ℕ → List ℕ
fill xs = let ys : List ℕ = take (buffer_size - 1) xs in ys ++ replicate (buffer_size - length ys) 0

-- The branch of the listening socket.
pub join : Kernel → Room → Room
join k r = elim k.accepted [
  | none ↦ r
  | some (connfd, addr) ↦
      if leb user_limit r.user_cnt
      then record_call (closed connfd) (record_call (rejected connfd) r)
      else record r {
        user_cnt = r.user_cnt + 1;
        users = update r.users connfd (record (r.users connfd) { addr = addr });
        fds = update r.fds (r.user_cnt + 1) (record { fd = connfd; events = 25; revents = 0 });
      }
]

-- A client leaves: the last one takes its place.
pub leave : ℕ → Room → Option Room
leave i r =
    if r.user_cnt == 0
    then none
    else some (record {
      fds = update r.fds i (r.fds r.user_cnt);
      user_cnt = r.user_cnt - 1;
      users = update r.users (r.fds i).fd (r.users (r.fds r.user_cnt).fd);
      listenfd = r.listenfd;
      calls = r.calls ++ closed (r.fds i).fd ∷ [];
    })

-- Tells the user of slot `j` that the user `connfd` has said something.
pub tell : (connfd j : ℕ) → Room → Room
unfolding write_only
tell connfd j r = if (r.fds j).fd == connfd then r else record r {
  fds = update r.fds j (record (r.fds j) { events = write_only (r.fds j).events });
  users = update r.users (r.fds j).fd (record (r.users (r.fds j).fd) { write_buf = some connfd });
}

-- The loop over the slots from `j`, `n` of them.
pub tell_all : (n connfd j : ℕ) → Room → Room
unfolding tell
tell_all zero connfd j r = r
tell_all (suc n) connfd j r = tell_all n connfd (j + 1) (tell connfd j r)

-- The user of slot `i`, with `xs` received into the buffer.
abbrev pub filled : ℕ → List ℕ → Room → Room
filled i xs r =
    let connfd : ℕ = (r.fds i).fd in
    record r { users = update r.users connfd (record (r.users connfd) { buf = fill xs }) }

-- The branch of a client with something to read: the slot to go on with, and the room.
pub hear : Received → ℕ → Room → Option (ℕ × Room)
unfolding fill leave tell_all
hear (bytes x xs) i r = some (i + 1, tell_all r.user_cnt (r.fds i).fd 1 (filled i (x ∷ xs) r))
hear end_of_stream i r = some (i + 1, filled i [] r)
hear again i r = some (i + 1, filled i [] r)
hear failed i r = elim (leave i (filled i [] r)) [ none ↦ none | some r' ↦ some (i, r') ]

-- The branch of a client that can be written to.
pub speak : ℕ → Room → Room
unfolding text read_again
speak i r =
    let connfd : ℕ = (r.fds i).fd in
    elim (r.users connfd).write_buf [
      | none ↦ r
      | some from ↦ record r {
        fds = update r.fds i (record (r.fds i) { events = read_again (r.fds i).events });
        users = update r.users connfd (record (r.users connfd) { write_buf = none });
        calls = r.calls ++ sent connfd (text (r.users from).buf) ∷ [];
      }
    ]

-- The body of the loop over the slots, for slot `i`.
pub handle : Kernel → ℕ → Room → Option (ℕ × Room)
unfolding join leave hear speak
handle k i r =
    let p : PollFd = r.fds i in
    if p.fd == r.listenfd && has_in p.revents
    then some (i + 1, join k r)
    else if has_err p.revents
    then some (i + 1, r)
    else if has_hup p.revents
    then elim (leave i r) [ none ↦ none | some r' ↦ some (i, r') ]
    else if has_in p.revents
    then hear (k.received p.fd) i r
    else if has_out p.revents
    then some (i + 1, speak i r)
    else some (i + 1, r)

-- The loop over the slots, from slot `i`.
pub sweep : ℕ → Kernel → ℕ → Room → Option Room
sweep zero k i r = none
sweep (suc n) k i r =
    if ltb i (r.user_cnt + 1)
    then elim (handle k i r) [ none ↦ none | some (i', r') ↦ sweep n k i' r' ]
    else some r
