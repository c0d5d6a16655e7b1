-- ===== src/ForkRoom.antt =====
-- high-performance-server-programming-linux/ch13/chatroom_server.cc: a chat room with a process for
-- each client and the read buffers in shared memory. The parent's arrays are functions of the index;
-- what the kernel returns is an argument, and the calls of it are recorded.
pub mod Bytes
pub mod Users
pub mod Shutdown
pub mod Buffers
pub mod Deliver
pub mod Loop
pub mod Serving
pub mod Own
pub mod Runs
pub mod Late
mod Tests
use notes_coding.Base.{
  ℕ, zero, suc, ◌+◌, ◌-◌, ◌*◌, Bool, true, false, ◌&&◌, Option, none, some, List, [], ◌∷◌, ◌++◌,
  ltb, leb, ◌==◌, if◌then◌else◌, length, take, replicate, update,
}

abbrev pub user_limit : ℕ
user_limit = 5

abbrev pub buffer_size : ℕ
buffer_size = 1024

-- `client_data`; `pipefd` is the parent's end of the pipe, `pipefd[0]`.
pub record ClientData : Type 0 where
  pub address : ℕ
  pub connfd : ℕ
  pub pid : ℕ
  pub pipefd : ℕ

-- The kernel calls of the parent; `sent` writes the number of a client to a pipe, `closed_child_end`
-- closes `pipefd[1]`, the other end of the pipe `pipefd`.
pub data Call : Type 0 where
  sent : (pipefd client : ℕ) → Call
  rejected closed unwatched watched : (fd : ℕ) → Call
  closed_child_end : (pipefd : ℕ) → Call
  killed : (pid : ℕ) → Call

-- `sub_process` has `none` for -1.
pub record Parent : Type 0 where
  pub g_users : ℕ → ClientData
  pub sub_process : ℕ → Option ℕ
  pub g_user_count : ℕ
  pub terminate : Bool
  pub stop_server : Bool
  pub calls : List Call

-- What `run_child` is called with, and its `stop_child`.
pub record Child : Type 0 where
  pub idx : ℕ
  pub connfd : ℕ
  pub stop_child : Bool

-- The parent, the bytes of the shared memory by their addresses, and the children by their pids.
pub record System : Type 0 where
  pub parent : Parent
  pub share_mem : ℕ → ℕ
  pub children : ℕ → Option Child

abbrev pub record_call : Call → Parent → Parent
record_call c p = record p { calls = p.calls ++ c ∷ [] }

abbrev pub record_calls : List Call → Parent → Parent
record_calls cs p = record p { calls = p.calls ++ cs }

-- A new connection: `accepted` is its descriptor and address, `pipefd` the parent's end of the new
-- pipe, and `forked` what `fork` returns in the parent, `none` if it fails.
pub connect : (accepted : Option (ℕ × ℕ)) (pipefd : ℕ) (forked : Option ℕ) → System → System
connect none pipefd forked s = s
connect (some (connfd, address)) pipefd forked s =
    let p : Parent = s.parent in
    let i : ℕ = p.g_user_count in
    if leb user_limit i
    then record s { parent = record_call (closed connfd) (record_call (rejected connfd) p) }
    else elim forked [
      | none ↦ record s {
        parent = record_call (closed connfd) (record p {
          g_users =
              update p.g_users i
                (record (p.g_users i) { address = address; connfd = connfd; pipefd = pipefd });
        });
      }
      | some pid ↦ record {
        parent =
            record_calls (closed connfd ∷ closed_child_end pipefd ∷ watched pipefd ∷ []) (record p {
              g_users =
                  update p.g_users i
                    (record { address = address; connfd = connfd; pid = pid; pipefd = pipefd });
              sub_process = update p.sub_process pid (some i);
              g_user_count = i + 1;
            });
        share_mem = s.share_mem;
        children =
            update s.children pid (some (record { idx = i; connfd = connfd; stop_child = false }));
      }
    ]

-- The client `del_user` is taken out: the last one comes to its place.
pub remove : (del_user : ℕ) → Parent → Parent
remove del_user p =
    let pipefd : ℕ = (p.g_users del_user).pipefd in
    let last : ClientData = p.g_users (p.g_user_count - 1) in
    record p {
      g_users = update p.g_users del_user last;
      sub_process = update p.sub_process last.pid (some del_user);
      g_user_count = p.g_user_count - 1;
      calls = p.calls ++ unwatched pipefd ∷ closed pipefd ∷ [];
    }

-- The body of the loop over `waitpid`.
pub reap : (pid : ℕ) → Parent → Parent
unfolding remove
reap pid p =
    let cleared : Parent = record p { sub_process = update p.sub_process pid none } in
    elim (p.sub_process pid) [
      | none ↦ cleared
      | some del_user ↦ if ltb user_limit del_user then cleared else remove del_user cleared
    ]

-- The loop over the pids that `waitpid` returns.
pub reap_all : (pids : List ℕ) → Parent → Parent
unfolding reap
reap_all [] p = p
reap_all (pid ∷ pids) p = reap_all pids (reap pid p)

-- `SIGCHLD`
pub sigchld : (pids : List ℕ) → Parent → Parent
unfolding reap_all
sigchld pids p =
    let p : Parent = reap_all pids p in
    if p.terminate && p.g_user_count == 0 then record p { stop_server = true } else p

-- The loop of `SIGTERM` over the clients from `i` on, `n` of them.
pub kill_all : (n i : ℕ) → Parent → Parent
kill_all zero i p = p
kill_all (suc n) i p = kill_all n (i + 1) (record_call (killed (p.g_users i).pid) p)

-- `SIGTERM` and `SIGINT`
pub sigterm : Parent → Parent
unfolding kill_all
sigterm p =
    if p.g_user_count == 0
    then record p { stop_server = true }
    else record (kill_all p.g_user_count 0 p) { terminate = true }

-- The loop over the clients from `j` on, `n` of them, when `client` was read from the pipe `sockfd`.
pub tell_others : (n j sockfd client : ℕ) → Parent → Parent
tell_others zero j sockfd client p = p
tell_others (suc n) j sockfd client p =
    tell_others n (j + 1) sockfd client (
      if (p.g_users j).pipefd == sockfd
      then p
      else record_call (sent (p.g_users j).pipefd client) p)

-- A child has written to its pipe; `got` is what `recv` reads, `none` if nothing.
pub forward : (sockfd : ℕ) (got : Option ℕ) → Parent → Parent
unfolding tell_others
forward sockfd none p = p
forward sockfd (some client) p = tell_others p.g_user_count 0 sockfd client p

-- What `recv` returns to a child.
pub data Received (A : Type 0) : Type 0 where
  read : A → Received A
  end_of_stream again failed : Received A

-- `memset` of the `n` bytes from `from` on to zero.
unfoldable pub memset : (from n : ℕ) → (ℕ → ℕ) → ℕ → ℕ
memset from zero mem = mem
memset from (suc n) mem = update (memset (suc from) n mem) from 0

-- The bytes `xs` are written from `from` on.
unfoldable pub put : (from : ℕ) → List ℕ → (ℕ → ℕ) → ℕ → ℕ
put from [] mem = mem
put from (x ∷ xs) mem = update (put (suc from) xs mem) from x

-- The `n` bytes from `from` on.
unfoldable pub slice : (from n : ℕ) → (ℕ → ℕ) → List ℕ
slice from zero mem = []
slice from (suc n) mem = mem from ∷ slice (suc from) n mem

-- `memset` of the segment `idx`, and what `recv` of at most 1023 bytes leaves in it.
pub fill : (idx : ℕ) → List ℕ → (ℕ → ℕ) → ℕ → ℕ
unfolding memset put
fill idx xs mem =
    put (idx * buffer_size) (take (buffer_size - 1) xs) (memset (idx * buffer_size) buffer_size mem)

-- A child's client has sent something: the child, the memory, and what it writes to its pipe.
pub hear : Received (List ℕ) → Child → (ℕ → ℕ) → Child × ((ℕ → ℕ) × Option ℕ)
unfolding fill
hear (read xs) c mem = (c, (fill c.idx xs mem, some c.idx))
hear end_of_stream c mem = (record c { stop_child = true }, (fill c.idx [] mem, none))
hear again c mem = (c, (fill c.idx [] mem, none))
hear failed c mem = (record c { stop_child = true }, (fill c.idx [] mem, none))

-- The parent has written to a child's pipe: the child, and what it sends to its client.
pub relay : Received ℕ → Child → (ℕ → ℕ) → Child × Option (List ℕ)
unfolding slice
relay (read client) c mem = (c, some (slice (client * buffer_size) buffer_size mem))
relay end_of_stream c mem = (record c { stop_child = true }, none)
relay again c mem = (c, none)
relay failed c mem = (record c { stop_child = true }, none)
