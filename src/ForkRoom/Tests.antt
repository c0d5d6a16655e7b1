-- ===== src/ForkRoom/Tests.antt =====
-- The chat room with two clients, whose children have the pids 100 and 101.
use notes_coding.Base.{
  ℕ, zero, suc, ◌+◌, ◌<◌, ◌≡◌, inl, inr, refl, ap, subst, arith, false, Option, none, some, List,
  [], ◌∷◌, ◌++◌, ◌==◌, if◌then◌else◌, Bool-cases, map, replicate,
}
use notes_coding.ForkRoom.{
  ClientData, Parent, Child, System, sent, killed, read, connect, sigchld, sigterm, forward, hear,
  relay,
}
use notes_coding.ForkRoom.Users.{IsParent}
use notes_coding.ForkRoom.Loop.{
  Event, connection, signals, client_data, child_ended, term, handle, serve,
}
use notes_coding.ForkRoom.Runs.{serve-IsParent}
use notes_coding.ForkRoom.Serving.{
  Running, Round, events, interrupted, from_client, from_parent, run_child,
}
use notes_coding.ForkRoom.Own.{Own, run_child-Own}
use notes_coding.ForkRoom.Late.{late, Held, late-Held}
use notes_coding.ForkRoom.Shutdown.{AllAt, Stopped, pids_from, sigchld-Stopped}
use notes_coding.ForkRoom.Buffers.{
  AllWithin, Within, connect-AllWithin, Clash, leave_and_come, reap-connect-Clash,
}
use notes_coding.ForkRoom.Deliver.{pipes_from, without, hear-relay}

abbrev client : ℕ → ClientData
client i = record { address = 0; connfd = 10 + i; pid = 100 + i; pipefd = 20 + i }

abbrev two_clients : Parent
two_clients = record {
  g_users = client;
  sub_process = λ pid. if pid == 100 then some 0 else if pid == 101 then some 1 else none;
  g_user_count = 2;
  terminate = false;
  stop_server = false;
  calls = [];
}

abbrev child : ℕ → Child
child i = record { idx = i; connfd = 10 + i; stop_child = false }

abbrev two_children : System
two_children = record {
  parent = two_clients;
  share_mem = λ i. 0;
  children =
      λ pid. if pid == 100 then some (child 0) else if pid == 101 then some (child 1) else none;
}

two_clients-IsParent : IsParent two_clients
two_clients-IsParent = record { limit = omega arith; mapped = mapped }
  where
    mapped : (i : ℕ) → i < 2 → two_clients.sub_process (client i).pid ≡ some i
    mapped zero h = refl
    mapped (suc zero) h = refl
    mapped (suc (suc i)) h = absurd (omega arith)

clients-AllAt : AllAt two_clients (101 ∷ 100 ∷ [])
clients-AllAt = (
  (1, record { here = omega arith; own = refl }),
  (omega arith, tt),
  ((0, record { here = omega arith; own = refl }), tt, tt),
)

sigchld-Stopped_example :
    Stopped two_clients (sigchld (101 ∷ 100 ∷ []) (sigterm two_clients))
    × ((sigterm two_clients).calls ≡ two_clients.calls ++ map killed (pids_from 2 0 two_clients))
sigchld-Stopped_example =
    sigchld-Stopped (101 ∷ 100 ∷ []) two_clients two_clients-IsParent (omega arith) refl
      clients-AllAt

-- One child, in the first segment.
abbrev one_child : System
one_child = record two_children { children = λ pid. if pid == 100 then some (child 0) else none }

one_child-AllWithin : AllWithin one_child
one_child-AllWithin pid c e = elim (Bool-cases (pid == 100)) [
  | inl a ↦
      let same : some (child 0) ≡ some c = rw a at e in
      subst Within (ap (λ o. elim o [ none ↦ child 0 | some k ↦ k ]) same) (omega arith)
  | inr a ↦ let gone : none ≡ some c = rw a at e in absurd cc
]

connect-AllWithin_example : AllWithin (connect (some (15, 1)) 30 (some 102) one_child)
connect-AllWithin_example =
    connect-AllWithin (some (15, 1)) 30 (some 102) one_child one_child-AllWithin

reap-connect-Clash_example : Clash (leave_and_come 100 15 1 30 102 two_children) 101 102
reap-connect-Clash_example =
    reap-connect-Clash 100 0 15 1 30 102 two_children (child 1) two_clients-IsParent
      (record { here = omega arith; own = refl }) (omega arith) refl refl (omega arith)

hear-relay_example :
    (after : ℕ → ℕ) × (hear (read (104 ∷ 105 ∷ [])) (child 0) (λ i. 0) ≡ (child 0, (after, some 0)))
    × ((forward 20 (some 0) two_clients).calls
        ≡ two_clients.calls
          ++ map (λ q. sent q 0) (without 20 (pipes_from 2 0 two_clients.g_users)))
    × (relay (read 0) (child 1) after ≡ (child 1, some (104 ∷ 105 ∷ [] ++ replicate 1022 0)))
hear-relay_example = hear-relay (104 ∷ 105 ∷ []) (child 0) (child 1) (λ i. 0) 20 two_clients

-- A client comes, the child of the second one ends, the third one speaks, and the server is told to
-- end.
abbrev day : List (Option (List Event))
day =
    some (connection (some (15, 1)) 30 (some 102) ∷ signals (child_ended (101 ∷ []) ∷ []) ∷ [])
    ∷ some (client_data 30 (some 2) ∷ connection none 0 none ∷ signals (term ∷ []) ∷ [])
    ∷ none
    ∷ []

one_left :
    (q : Parent)
    → q ≡ (handle (connection (some (15, 1)) 30 (some 102)) two_children).parent
    → AllAt q (101 ∷ [])
unfolding handle connect
one_left q e = rw e ((1, record { here = omega arith; own = refl }), tt, tt)

serve-IsParent_example : IsParent (serve day two_children).parent
serve-IsParent_example =
    serve-IsParent day two_children two_clients-IsParent
      (((λ i h. omega arith), (((one_left _ refl, tt)), tt)), ((tt, (tt, ((tt, tt), tt))), tt))

late-Held_example : Held (late 15 1 30 102 (101 ∷ 100 ∷ []) two_children)
late-Held_example =
    late-Held 15 1 30 102 (101 ∷ 100 ∷ []) two_children two_clients-IsParent refl (omega arith)
      (omega arith) (λ i h. omega arith) refl clients-AllAt

-- A child that serves segment 1: its client speaks, another's words are passed on, and it is killed.
abbrev serving : Running
serving = record {
  child = child 1;
  share_mem = λ i. 0;
  told = [];
  sent_to_client = [];
  closed_fds = [];
}

abbrev served : List Round
served =
    events (from_client (read (104 ∷ [])) ∷ from_parent (read 0) ∷ [])
    ∷ interrupted
    ∷ events []
    ∷ []

run_child-Own_example : Own serving (run_child 21 9 served serving)
run_child-Own_example = run_child-Own 21 9 served serving
