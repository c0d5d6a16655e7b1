-- ===== src/Reactor/Tests.antt =====
-- The Reactor on small inputs.
use notes_coding.Base.{ℕ, zero, suc, ◌≢◌, refl, true, none, [], ◌∷◌, arith, All, take, replicate}
use notes_coding.Reactor.{Event, Reactor, bytes, Answers, recv_data, accept_connection, epollin}
use notes_coding.Reactor.Slots.{IsFirstFree}
use notes_coding.Reactor.Echo.{Reads, Echoed, dispatch-echo}

-- A slot that is not in use.
abbrev unused : Event
unused = record {
  fd = 0;
  events = 0;
  call_back = accept_connection;
  status = 0;
  buf = replicate 128 0;
  len = 0;
  last_active = 0;
}

-- A connection that waits for data, last active at time 100.
abbrev waiting : Event
waiting = record unused {
  fd = 7;
  events = epollin;
  call_back = recv_data;
  status = 1;
  last_active = 100;
}

-- The first slot holds the connection.
abbrev one_client : Reactor
one_client = record { g_events = waiting ∷ replicate 1024 unused; calls = [] }

abbrev all_busy : Reactor
all_busy = record { g_events = replicate 1025 waiting; calls = [] }

waiting-Reads : Reads waiting
waiting-Reads = record { waits = refl; back = refl; on = refl }

second_free : IsFirstFree one_client.g_events 1
second_free = record { event = unused; at = refl; free = refl; used = (omega arith, tt) }

take-replicate-All : (n m : ℕ) → All (λ ev. ev.status ≢ 0) (take n (replicate m waiting))
take-replicate-All zero m = tt
take-replicate-All (suc n) zero = tt
take-replicate-All (suc n) (suc m) = (omega arith, take-replicate-All n m)

-- The kernel's answer where three bytes come.
abbrev three_bytes : Answers
three_bytes = record {
  accepted = none;
  nonblocking = true;
  received = bytes 65 (66 ∷ 67 ∷ []);
  taken = 3;
  now = 130;
}

dispatch-echo_example :
    Echoed 0 7 (65 ∷ 66 ∷ 67 ∷ []) three_bytes three_bytes three_bytes three_bytes one_client
dispatch-echo_example =
    dispatch-echo 0 65 (66 ∷ 67 ∷ []) waiting three_bytes three_bytes three_bytes three_bytes
      one_client refl waiting-Reads (omega arith) refl refl
