-- ===== src/Reactor/Echo.antt =====
-- `RecvData` and `SendData`, and their dispatch.
use notes_coding.Base.{
  ℕ, zero, suc, ◌<◌, ◌≤◌, ◌≡◌, refl, ap, ◌∙◌, Bool, ◌&&◌, true, false, none, some, List, [], ◌∷◌,
  ◌++◌, arith, ltb, ◌==◌, get_elem?, set, length, take, lt→ltb, le→not_ltb, get_elem?-set_self,
  set-set,
}
use notes_coding.Reactor.{
  Event, Reactor, ctl_add, ctl_del, sent, bytes, Answers, recv_data, send_data, epollin, epollout,
  set_event, add_event, del_event, overwrite, terminate, turn_to_send, recv, send, handle,
  handle_if, dispatch, has_in, has_out,
}
use mathlib.Core.List.{append_assoc}

length-overwrite : (xs buf : List ℕ) → length (overwrite xs buf) ≡ length buf
unfolding overwrite
length-overwrite [] buf = refl
length-overwrite (x ∷ xs) [] = refl
length-overwrite (x ∷ xs) (b ∷ buf) = ap suc (length-overwrite xs buf)

take-overwrite :
    (xs buf : List ℕ) → length xs ≤ length buf → take (length xs) (overwrite xs buf) ≡ xs
unfolding overwrite
take-overwrite [] [] h = refl
take-overwrite [] (b ∷ buf) h = refl
take-overwrite (x ∷ xs) [] h = elim (h) [ ]
take-overwrite (x ∷ xs) (b ∷ buf) h = ap (λ l. x ∷ l) (take-overwrite xs buf (omega arith))

take-take : (n : ℕ) (xs : List ℕ) → take n (take n xs) ≡ take n xs
take-take zero xs = refl
take-take (suc n) [] = refl
take-take (suc n) (x ∷ xs) = ap (λ l. x ∷ l) (take-take n xs)

take-set : (n v : ℕ) (xs : List ℕ) → take n (set xs n v) ≡ take n xs
take-set zero v xs = refl
take-set (suc n) v [] = refl
take-set (suc n) v (x ∷ xs) = ap (λ l. x ∷ l) (take-set n v xs)

-- When the bytes fill the buffer, as `recv` with the whole size of the buffer allows, the
-- terminating 0 goes outside it.
pub recv_full :
    (i now x : ℕ) (xs : List ℕ) (ev : Event) (r : Reactor)
    → length ev.buf ≡ suc (length xs)
    → recv i ev (bytes x xs) now r ≡ none
unfolding recv turn_to_send terminate
recv_full i now x xs ev r full =
    let outside : ltb (suc (length xs)) (length (overwrite (x ∷ xs) ev.buf)) ≡ false =
      ap (λ n. ltb (suc (length xs)) n) (length-overwrite (x ∷ xs) ev.buf ∙ full)
      ∙ le→not_ltb _ _ (omega arith) in
    rw (turn_to_send, terminate, outside) refl

-- The event after its bytes arrived: it waits to write them.
abbrev pub to_send : ℕ → List ℕ → (now : ℕ) → Event → Event
to_send x xs now ev = record ev {
  events = epollout;
  call_back = send_data;
  status = 1;
  buf = set (overwrite (x ∷ xs) ev.buf) (suc (length xs)) 0;
  len = suc (length xs);
  last_active = now;
}

recv-to_send :
    (i now x : ℕ) (xs : List ℕ) (ev : Event) (r : Reactor)
    → suc (length xs) < length ev.buf
    → ev.status ≡ 1
    → recv i ev (bytes x xs) now r
      ≡ some (record {
        g_events = set r.g_events i (to_send x xs now ev);
        calls = (r.calls ++ ctl_del ev.fd ∷ []) ++ ctl_add ev.fd epollout ∷ [];
      })
unfolding recv turn_to_send terminate set_event add_event del_event
recv-to_send i now x xs ev r fits on =
    let inside : ltb (suc (length xs)) (length (overwrite (x ∷ xs) ev.buf)) ≡ true =
      ap (λ n. ltb (suc (length xs)) n) (length-overwrite (x ∷ xs) ev.buf) ∙ lt→ltb _ _ fits in
    let watched : (ev.status == 1) ≡ true = ground arith in
    rw (turn_to_send, terminate, inside, watched)
      (ap
        (λ l. some (record {
          g_events = l;
          calls = (r.calls ++ ctl_del ev.fd ∷ []) ++ ctl_add ev.fd epollout ∷ [];
        }))
        (set-set _ i _ _ ∙ set-set r.g_events i _ _))

-- What the buffer of `to_send` holds is what came.
take-to_send :
    (x : ℕ) (xs : List ℕ) (now : ℕ) (ev : Event)
    → suc (length xs) < length ev.buf
    → take (suc (length xs)) (take (suc (length xs)) (to_send x xs now ev).buf) ≡ x ∷ xs
take-to_send x xs now ev fits =
    take-take (suc (length xs)) (to_send x xs now ev).buf
    ∙ take-set (suc (length xs)) 0 (overwrite (x ∷ xs) ev.buf)
    ∙ take-overwrite (x ∷ xs) ev.buf (omega (arith, fits))

send-calls :
    (i now now' x : ℕ) (xs : List ℕ) (ev : Event) (r : Reactor)
    → suc (length xs) < length ev.buf
    → (send i (to_send x xs now ev) (suc (length xs)) now' r).calls
      ≡ ((r.calls ++ sent ev.fd (x ∷ xs) ∷ []) ++ ctl_del ev.fd ∷ []) ++ ctl_add ev.fd epollin ∷ []
unfolding send set_event add_event del_event
send-calls i now now' x xs ev r fits = rw (lt→ltb 0 (suc (length xs)) (omega arith)) (
    ap (λ l. ((r.calls ++ sent ev.fd l ∷ []) ++ ctl_del ev.fd ∷ []) ++ ctl_add ev.fd epollin ∷ [])
      (take-to_send x xs now ev fits))

-- The state when bytes have come for the event of slot `i`.
abbrev pub received_in : (i x : ℕ) → List ℕ → (now : ℕ) → Event → Reactor → Reactor
received_in i x xs now ev r = record {
  g_events = set r.g_events i (to_send x xs now ev);
  calls = (r.calls ++ ctl_del ev.fd ∷ []) ++ ctl_add ev.fd epollout ∷ [];
}

-- An event that waits for the data of a connection.
pub record Reads (ev : Event) : Type 0 where
  pub waits : ev.events ≡ epollin
  pub back : ev.call_back ≡ recv_data
  pub on : ev.status ≡ 1

handle_if_on :
    (ready : ℕ → Bool) (i : ℕ) (ev : Event) (a : Answers) (r : Reactor)
    → get_elem? r.g_events i ≡ some ev
    → ready ev.events ≡ true
    → handle_if ready i a r ≡ handle i ev a r
unfolding handle_if
handle_if_on ready i ev a r at ready_holds = rw (at, handle_if, ready_holds) refl

handle_if_off :
    (ready : ℕ → Bool) (i : ℕ) (ev : Event) (a : Answers) (r : Reactor)
    → get_elem? r.g_events i ≡ some ev
    → ready ev.events ≡ false
    → handle_if ready i a r ≡ some r
unfolding handle_if
handle_if_off ready i ev a r at ready_fails = rw (at, handle_if, ready_fails) refl

handle-recv :
    (i x : ℕ) (xs : List ℕ) (ev : Event) (a : Answers) (r : Reactor)
    → Reads ev
    → a.received ≡ bytes x xs
    → handle i ev a r ≡ recv i ev (bytes x xs) a.now r
unfolding handle
handle-recv i x xs ev a r reads came = rw (reads.back, came) refl

dispatch-received_in :
    (i x : ℕ) (xs : List ℕ) (ev : Event) (a b : Answers) (r : Reactor)
    → get_elem? r.g_events i ≡ some ev
    → Reads ev
    → suc (length xs) < length ev.buf
    → a.received ≡ bytes x xs
    → dispatch i epollin a b r ≡ some (received_in i x xs a.now ev r)
unfolding dispatch
dispatch-received_in i x xs ev a b r at reads fits came =
    let read : handle_if (λ e. has_in epollin && has_in e) i a r
        ≡ some (received_in i x xs a.now ev r) =
      handle_if_on (λ e. has_in epollin && has_in e) i ev a r at (ap has_in reads.waits)
      ∙ handle-recv i x xs ev a r reads came
      ∙ recv-to_send i a.now x xs ev r fits reads.on in
    rw (dispatch, read)
      (handle_if_off (λ e. has_out epollin && has_out e) i (to_send x xs a.now ev) b _
        (get_elem?-set_self r.g_events i ev _ at) refl)

-- Slot `i` first read `xs` from `fd` and then wrote all of it back.
pub record Echoed (i fd : ℕ) (xs : List ℕ) (a b c d : Answers) (r : Reactor) : Type 0 where
  pub read : Reactor
  pub written : Reactor
  pub reads : dispatch i epollin a b r ≡ some read
  pub writes : dispatch i epollout c d read ≡ some written
  pub told :
      written.calls
      ≡ r.calls
        ++ ctl_del fd ∷ ctl_add fd epollout ∷ sent fd xs ∷ ctl_del fd ∷ ctl_add fd epollin ∷ []

dispatch-to_send :
    (i x now : ℕ) (xs : List ℕ) (ev : Event) (c d : Answers) (r : Reactor)
    → get_elem? r.g_events i ≡ some (to_send x xs now ev)
    → d.taken ≡ suc (length xs)
    → dispatch i epollout c d r ≡ some (send i (to_send x xs now ev) (suc (length xs)) d.now r)
unfolding dispatch handle
dispatch-to_send i x now xs ev c d r at takes =
    let idle : handle_if (λ e. has_in epollout && has_in e) i c r ≡ some r =
      handle_if_off (λ e. has_in epollout && has_in e) i (to_send x xs now ev) c r at refl in
    rw (dispatch, idle)
      (handle_if_on (λ e. has_out epollout && has_out e) i (to_send x xs now ev) d r at refl
        ∙ ap (λ n. some (send i (to_send x xs now ev) n d.now r)) takes)

-- An event reads fewer bytes than its buffer holds, and then, with nothing in between, the
-- descriptor is ready for writing and the kernel takes all the bytes: what came is sent to the same
-- descriptor, which is watched for reading again, and nothing else is told to the kernel.
pub dispatch-echo :
    (i x : ℕ) (xs : List ℕ) (ev : Event) (a b c d : Answers) (r : Reactor)
    → get_elem? r.g_events i ≡ some ev
    → Reads ev
    → suc (length xs) < length ev.buf
    → a.received ≡ bytes x xs
    → d.taken ≡ suc (length xs)
    → Echoed i ev.fd (x ∷ xs) a b c d r
dispatch-echo i x xs ev a b c d r at reads fits came takes = record {
  read = received_in i x xs a.now ev r;
  written = send i (to_send x xs a.now ev) (suc (length xs)) d.now (received_in i x xs a.now ev r);
  reads = dispatch-received_in i x xs ev a b r at reads fits came;
  writes =
      dispatch-to_send i x a.now xs ev c d (received_in i x xs a.now ev r)
        (get_elem?-set_self r.g_events i ev _ at) takes;
  told = send-calls i a.now d.now x xs ev _ fits ∙ simp append_assoc;
}
