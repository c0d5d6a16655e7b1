-- ===== src/IdleServer/Tests.antt =====
-- The server with two connections: 8, idle until 110, and 9, idle until 130.
use notes_coding.Base.{
  ℕ, ◌≡◌, refl, ap, sym, inl, inr, Bool, true, false, Option, none, some, List, [], ◌∷◌, arith,
  ◌==◌, if◌then◌else◌, Bool-cases,
}
use notes_coding.Memory.{Ptr, Node, done, fault, starved}
use notes_coding.Memory.Chain.{node}
use notes_coding.Memory.Ends.{Ends}
use notes_coding.TimerList.{UtilTimer}
use notes_coding.TimerList.Spec.{Cell}
use notes_coding.IdleServer.{Server, Event, readable, signals, bytes, sigalrm, round, handle}
use notes_coding.IdleServer.Found.{Found}
use notes_coding.IdleServer.Serving.{IsServing}
use notes_coding.IdleServer.Round.{AllReady, Rounded, round-Rounded}

abbrev timer : (fd expire : ℕ) → UtilTimer
timer fd expire = record { expire = expire; cb_func = 0; user_data = fd }

abbrev two : List Cell
two = (1, timer 8 110) ∷ (2, timer 9 130) ∷ []

abbrev memory : Ptr → Option (Node UtilTimer)
memory a =
    if a == 1
    then some (node (timer 8 110) 0 2)
    else if a == 2
    then some (node (timer 9 130) 1 0)
    else none

abbrev two_open : ℕ → Bool
two_open fd = if fd == 8 then true else fd == 9

abbrev server : Server
server = record {
  timers = record { nodes = memory; fields = record { head = 1; tail = 2; calls = [] } };
  users = λ fd. record { address = 0; sockfd = fd; timer = if fd == 8 then 1 else 2 };
  open_fds = two_open;
  timeout = false;
  stop_server = false;
}

timed : (fd : ℕ) → two_open fd ≡ true → Found (server.users fd).timer fd two
timed fd on = elim (Bool-cases (fd == 8)) [
  | inl e ↦ rw e (inl (refl, ground arith))
  | inr e ↦ rw e (inr (inl (refl, ground arith)))
]

server-IsServing : IsServing 115 server two
server-IsServing = record {
  holds = record {
    linked = (refl, (refl, tt));
    distinct = (refl, refl, (refl, refl, tt));
    head = refl;
    tail = refl;
  };
  sorted = omega arith;
  owned = (
    record { points = refl; number = refl; on = refl },
    (record { points = refl; number = refl; on = refl }, tt),
  );
  timed = timed;
  recent = omega arith;
}

-- Client 9 says something while the alarm rings.
abbrev events : List Event
events = signals (sigalrm ∷ []) ∷ readable 9 bytes ∷ []

events-AllReady : AllReady 5 116 events server
unfolding handle
events-AllReady = (
  tt,
  λ g e. (
    sym (ap (λ o. elim o [ done a s ↦ s.open_fds 9 | fault ↦ true | starved ↦ true ]) e),
    λ g' e'. tt,
  ),
)

round-Rounded_example : Ends (λ _ g. Rounded 116 4 g) (round 5 116 events server)
round-Rounded_example =
    round-Rounded 5 115 116 events server two (omega arith) server-IsServing events-AllReady
      (omega arith)
