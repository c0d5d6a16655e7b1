-- ===== src/EchoServer.antt =====
-- high-performance-server-programming-linux/ch09/echo_server.cc: a server that sends back what it gets,
-- over TCP and over UDP, with edge-triggered events. A socket is its queues of bytes and of datagrams.
pub mod Tcp
pub mod Udp
mod Tests
use notes_coding.Base.{
  ℕ, zero, suc, ◌+◌, ◌-◌, Bool, true, false, Option, none, some, List, [], ◌∷◌, ◌++◌, length, take,
  drop, replicate, update,
}

abbrev pub tcp_buffer_size : ℕ
tcp_buffer_size = 512

abbrev pub udp_buffer_size : ℕ
udp_buffer_size = 1024

-- A connection: what the client has sent and is not read yet, whether it sends no more, whether the
-- descriptor is open, the free bytes of its send buffer, from which the client takes nothing while an
-- event of it is handled, and what was sent to the client.
pub record Connection : Type 0 where
  pub incoming : List ℕ
  pub ended : Bool
  pub alive : Bool
  pub room : ℕ
  pub sent : List ℕ

-- `datagrams` are those that wait on `udpfd`, `replies` those that were sent, each with the address of
-- the client; `watched` are the descriptors added to epoll, `closes` the calls of `close`.
pub record Server : Type 0 where
  pub conn : ℕ → Connection
  pub datagrams : List (ℕ × List ℕ)
  pub replies : List (ℕ × List ℕ)
  pub watched : List ℕ
  pub closes : List ℕ

abbrev pub addfd : (fd : ℕ) → Server → Server
addfd fd s = record s { watched = s.watched ++ fd ∷ [] }

abbrev pub close : (fd : ℕ) → Server → Server
close fd s = record s {
  conn = update s.conn fd (record (s.conn fd) { alive = false });
  closes = s.closes ++ fd ∷ [];
}

-- `send` on a descriptor that does not block takes the first bytes of `buf`, as many as there is room
-- for; the code ignores what it returns, so the rest is lost.
abbrev pub taken : (buf : List ℕ) → Connection → Connection
taken buf c = record c { sent = c.sent ++ take c.room buf; room = c.room - length buf }

abbrev pub send : (fd : ℕ) (buf : List ℕ) → Server → Server
send fd buf s = record s { conn = update s.conn fd (taken buf (s.conn fd)) }

-- What `recv` returns, with what is left to read.
pub data Received : Type 0 where
  bytes : (buf rest : List ℕ) → Received
  end_of_stream again failed : Received

-- `recv` of at most `n` bytes on a descriptor that does not block; it fails on a closed one.
abbrev pub receive : (n : ℕ) (alive ended : Bool) (incoming : List ℕ) → Received
receive n false ended incoming = failed
receive n true true [] = end_of_stream
receive n true false [] = again
receive n true ended (x ∷ xs) = bytes (take n (x ∷ xs)) (drop n (x ∷ xs))

abbrev pub recv : (n : ℕ) → Connection → Received
recv n c = receive n c.alive c.ended c.incoming

abbrev pub left : (fd : ℕ) (rest : List ℕ) → Server → Server
left fd rest s = record s { conn = update s.conn fd (record (s.conn fd) { incoming = rest }) }

-- The body of the loop over `recv`, and what follows it, `loop`.
abbrev pub received :
    (loop : Server → Option Server) (sockfd : ℕ) → Received → Server → Option Server
received loop sockfd (bytes buf rest) s = loop (send sockfd buf (left sockfd rest s))
received loop sockfd end_of_stream s = loop (close sockfd s)
received loop sockfd again s = some s
received loop sockfd failed s = some (close sockfd s)

-- The loop, of `fuel` rounds at most: `none` when they do not do.
pub echo_tcp : (fuel sockfd : ℕ) → Server → Option Server
echo_tcp zero sockfd s = none
echo_tcp (suc fuel) sockfd s =
    received (λ g. echo_tcp fuel sockfd g) sockfd (recv (tcp_buffer_size - 1) (s.conn sockfd)) s

-- `buf` after `memset` and `recvfrom`.
pub filled : List ℕ → List ℕ
filled xs =
    let ys : List ℕ = take (udp_buffer_size - 1) xs in
    ys ++ replicate (udp_buffer_size - length ys) 0

-- `sendto` of what is in `buf`, when `recvfrom` has read a datagram that is not empty.
abbrev pub answer : List (ℕ × List ℕ) → Server → Server
answer [] s = s
answer ((client_addr, []) ∷ rest) s = record s { datagrams = rest }
answer ((client_addr, x ∷ xs) ∷ rest) s = record s {
  datagrams = rest;
  replies = s.replies ++ (client_addr, take (udp_buffer_size - 1) (filled (x ∷ xs))) ∷ [];
}

pub echo_udp : Server → Server
echo_udp s = answer s.datagrams s

-- An event of `epoll_wait`; a new connection with the descriptor that `accept` returns.
pub data Event : Type 0 where
  connection : (connfd : ℕ) → Event
  datagram something_else : Event
  readable : (sockfd : ℕ) → Event

pub handle : (fuel : ℕ) → Event → Server → Option Server
unfolding echo_tcp echo_udp
handle fuel (connection connfd) s = some (addfd connfd s)
handle fuel datagram s = some (echo_udp s)
handle fuel something_else s = some s
handle fuel (readable sockfd) s = echo_tcp fuel sockfd s
