-- ===== src/ForkRoom/Serving.antt =====
-- The loop of a child, `run_child`.
use notes_coding.Base.{ℕ, Bool, true, false, Option, none, some, List, [], ◌∷◌, ◌++◌}
use notes_coding.ForkRoom.{Child, Received, hear, relay}

-- An event of a child: something from its client, or from the parent, with what `recv` reads.
pub data ChildEvent : Type 0 where
  from_client : (got : Received (List ℕ)) → ChildEvent
  from_parent : (got : Received ℕ) → ChildEvent
  no_event : ChildEvent

-- The child in `run_child`, the memory, what it has written to its pipe and sent to its client, and
-- what it has closed.
pub record Running : Type 0 where
  pub child : Child
  pub share_mem : ℕ → ℕ
  pub told : List ℕ
  pub sent_to_client : List (List ℕ)
  pub closed_fds : List ℕ

abbrev pub listed : {A : Type 0} → Option A → List A
listed none = []
listed (some a) = a ∷ []

unfoldable pub attend : ChildEvent → Running → Running
unfolding hear relay
attend (from_client got) r =
    let (c, (mem, note)) = hear got r.child r.share_mem in
    record r { child = c; share_mem = mem; told = r.told ++ listed note }
attend (from_parent got) r =
    let (c, buf) = relay got r.child r.share_mem in
    record r { child = c; sent_to_client = r.sent_to_client ++ listed buf }
attend no_event r = r

unfoldable pub attend_all : List ChildEvent → Running → Running
unfolding attend
attend_all [] r = r
attend_all (e ∷ es) r = attend_all es (attend e r)

-- `SIGTERM` at the child.
abbrev pub child_term_handler : Running → Running
child_term_handler r = record r { child = record r.child { stop_child = true } }

-- A round of the loop of `run_child`: a signal interrupts `epoll_wait`, it fails, or it returns events.
pub data Round : Type 0 where
  interrupted failed_wait : Round
  events : List ChildEvent → Round

abbrev pub close_all : (pipefd child_epollfd : ℕ) → Running → Running
close_all pipefd child_epollfd r = record r {
  closed_fds = r.closed_fds ++ r.child.connfd ∷ pipefd ∷ child_epollfd ∷ [];
}

-- What is left when no round follows: the child has ended, or it waits.
abbrev pub finish : (pipefd child_epollfd : ℕ) → Bool → Running → Running
finish pipefd child_epollfd true r = close_all pipefd child_epollfd r
finish pipefd child_epollfd false r = r

unfoldable pub run_child : (pipefd child_epollfd : ℕ) → List Round → Running → Running
unfolding attend_all
run_child pipefd efd [] r = finish pipefd efd r.child.stop_child r
run_child pipefd efd (interrupted ∷ rounds) r = elim r.child.stop_child as (λ b. Running) [
  | true ↦ close_all pipefd efd r
  | false ↦ run_child pipefd efd rounds (child_term_handler r)
]
run_child pipefd efd (failed_wait ∷ rounds) r = close_all pipefd efd r
run_child pipefd efd (events es ∷ rounds) r = elim r.child.stop_child as (λ b. Running) [
  | true ↦ close_all pipefd efd r
  | false ↦ run_child pipefd efd rounds (attend_all es r)
]
