-- ===== src/ChatRoom/Keeps.antt =====
-- The body of the loop over the slots, and the loop.
use notes_coding.Base.{
  ℕ, zero, suc, ◌+◌, ◌<◌, ◌≤◌, ◌≡◌, inl, inr, refl, sym, ◌∙◌, arith, Bool, ◌==◌, ◌&&◌, Bool-cases,
  Option-cases, true, false, Option, some, ltb, List, [], ◌∷◌,
}
use notes_coding.ChatRoom.{
  PollFd, Room, Kernel, Received, bytes, end_of_stream, again, failed, has_in, has_out, has_err,
  has_hup, join, hear, speak, handle, sweep, filled,
}
use notes_coding.ChatRoom.Tell.{SameSlots, update-fd, tell_all-SameSlots, SameSlots-trans}
use notes_coding.ChatRoom.Seats.{
  IsRoom, Fresh, SameSlots-IsRoom, Step, go_on, join-IsRoom, leave-Step,
}

-- What a command on slot `i` promises: the next slot and a room that is still right.
abbrev pub Goes : ℕ → Room → Option (ℕ × Room) → Type 0
Goes i r o = (i' : ℕ) × (r' : Room) × (o ≡ some (i', r')) × Step i r i' r'

next-Goes :
    (i : ℕ) (r r' : Room) → IsRoom r → SameSlots r r' → i ≤ r.user_cnt → Goes i r (some (i + 1, r'))
next-Goes i r r' is same to = (i + 1, r', refl, go_on i r r' is same to)

filled-SameSlots : (i : ℕ) (xs : List ℕ) (r : Room) → SameSlots r (filled i xs r)
filled-SameSlots i xs r = record {
  count = refl;
  listens = refl;
  fd = λ j. refl;
  revents = λ j. refl;
}

hear-Goes :
    (c : Received) (i : ℕ) (r : Room) → IsRoom r → 1 ≤ i → i ≤ r.user_cnt → Goes i r (hear c i r)
unfolding hear
hear-Goes (bytes x xs) i r is from to =
    next-Goes i r _ is
      (SameSlots-trans r (filled i (x ∷ xs) r) _ (filled-SameSlots i (x ∷ xs) r)
        (tell_all-SameSlots r.user_cnt (r.fds i).fd 1 (filled i (x ∷ xs) r)))
      to
hear-Goes end_of_stream i r is from to = next-Goes i r _ is (filled-SameSlots i [] r) to
hear-Goes again i r is from to = next-Goes i r _ is (filled-SameSlots i [] r) to
hear-Goes failed i r is from to =
    let f : Room = filled i [] r in
    let (r', e, s) = leave-Step i f (SameSlots-IsRoom r f is (filled-SameSlots i [] r)) from to in
    rw (hear, e)
      (
        i,
        r',
        refl,
        record {
          room = s.room;
          next = s.next;
          within = s.within;
          first = s.first;
          later = s.later;
        },
      )

speak-SameSlots : (i : ℕ) (r : Room) → SameSlots r (speak i r)
unfolding speak
speak-SameSlots i r = elim (Option-cases ((r.users (r.fds i).fd).write_buf)) [
  | inl nothing ↦
      rw (nothing, speak)
        (record { count = refl; listens = refl; fd = λ j. refl; revents = λ j. refl })
  | inr (from, e) ↦
      rw (e, speak)
        (record {
          count = refl;
          listens = refl;
          fd = λ j. (update-fd r.fds i _ j).0;
          revents = λ j. (update-fd r.fds i _ j).1;
        })
]

same_room : (r : Room) → SameSlots r r
same_room r = record { count = refl; listens = refl; fd = λ j. refl; revents = λ j. refl }

-- The branch of the listening socket is that of slot 0.
listens-zero :
    (i : ℕ) (r : Room) (b : Bool)
    → IsRoom r
    → i ≤ r.user_cnt
    → ((r.fds i).fd == r.listenfd && b) ≡ true
    → i ≡ 0
listens-zero i r b is to h =
    let same : (r.fds i).fd ≡ r.listenfd = ground arith in
    is.distinct i 0 to (omega arith) (same ∙ sym is.listening)

-- A slot that is hung up is a client's.
hup-client : (i : ℕ) (r : Room) → IsRoom r → has_hup (r.fds i).revents ≡ true → 1 ≤ i
hup-client zero r is hup = absurd (ground (arith, is.alive))
hup-client (suc i) r is hup = omega arith

-- Beyond the branch of the listening socket, a slot that has something to read is a client's.
in-client :
    (i : ℕ) (r : Room) (b : Bool)
    → IsRoom r
    → ((r.fds i).fd == r.listenfd && b) ≡ false
    → b ≡ true
    → 1 ≤ i
in-client zero r b is other on = absurd (ground (arith, is.listening))
in-client (suc i) r b is other on = omega arith

join-Goes :
    (k : Kernel) (i : ℕ) (r : Room)
    → IsRoom r
    → i ≡ 0
    → (i ≡ 0 → Fresh k r)
    → Goes i r (some (i + 1, join k r))
join-Goes k i r is e fresh =
    let (room, count) = join-IsRoom k r is (fresh e) in
    (
      i + 1,
      join k r,
      refl,
      record {
        room = room;
        next = omega arith;
        within = omega arith;
        first = λ _. count;
        later = λ h. absurd (omega arith);
      },
    )

-- The body of the loop keeps the room right and comes nearer to the end of the slots.
pub handle-Goes :
    (k : Kernel) (i : ℕ) (r : Room)
    → IsRoom r
    → i ≤ r.user_cnt
    → (i ≡ 0 → Fresh k r)
    → Goes i r (handle k i r)
unfolding handle
handle-Goes k i r is to fresh =
    let p : PollFd = r.fds i in
    elim (Bool-cases (p.fd == r.listenfd && has_in p.revents)) [
      | inl listens ↦
          rw (handle, listens)
            (join-Goes k i r is (listens-zero i r (has_in p.revents) is to listens) fresh)
      | inr client ↦ elim (Bool-cases (has_err p.revents)) [
        | inl err ↦ rw (handle, client, err) (next-Goes i r r is (same_room r) to)
        | inr fine ↦ elim (Bool-cases (has_hup p.revents)) [
          | inl hup ↦
              let (r', e, s) = leave-Step i r is (hup-client i r is hup) to in
              rw (handle, client, fine, hup, e) (i, r', refl, s)
          | inr up ↦ elim (Bool-cases (has_in p.revents)) [
            | inl reads ↦
                let from : 1 ≤ i = in-client i r (has_in p.revents) is client reads in
                rw (handle, client, fine, up, reads) (hear-Goes (k.received p.fd) i r is from to)
            | inr quiet ↦ elim (Bool-cases (has_out p.revents)) [
              | inl writes ↦
                  rw (handle, client, fine, up, quiet, writes)
                    (next-Goes i r (speak i r) is (speak-SameSlots i r) to)
              | inr idle ↦
                  rw (handle, client, fine, up, quiet, idle) (next-Goes i r r is (same_room r) to)
            ]
          ]
        ]
      ]
    ]

-- From a client's slot on.
sweep_clients :
    (n : ℕ) (k : Kernel) (i : ℕ) (r : Room)
    → IsRoom r
    → 1 ≤ i
    → i ≤ r.user_cnt + 1
    → r.user_cnt + 1 < n + i
    → (r' : Room) × (sweep n k i r ≡ some r') × IsRoom r'
unfolding sweep
sweep_clients zero k i r is from to fuel = absurd (omega arith)
sweep_clients (suc n) k i r is from close fuel = elim (Bool-cases (ltb i (r.user_cnt + 1))) [
  | inl more ↦
      let to : i ≤ r.user_cnt = ground arith in
      let (i', r', e, s) = handle-Goes k i r is to (λ z. absurd (omega arith)) in
      let (r2, e2, is2) =
        sweep_clients n k i' r' s.room s.next s.within (omega (arith, s.later from)) in
      rw (more, e) (r2, e2, is2)
  | inr over ↦ rw over (r, refl, is)
]

-- A round of the event loop ends, given two steps more than there are slots in use, and keeps at most
-- 5 users, the listening socket in slot 0 and every descriptor in one slot only, if the kernel gives
-- a new connection a descriptor that is not in use.
pub sweep-IsRoom :
    (n : ℕ) (k : Kernel) (r : Room)
    → IsRoom r
    → Fresh k r
    → r.user_cnt + 3 ≤ n
    → (r' : Room) × (sweep n k 0 r ≡ some r') × IsRoom r'
unfolding sweep
sweep-IsRoom zero k r is fresh fuel = absurd (omega arith)
sweep-IsRoom (suc n) k r is fresh fuel =
    let more : ltb 0 (r.user_cnt + 1) ≡ true = ground arith in
    let (i', r', e, s) = handle-Goes k 0 r is (omega arith) (λ _. fresh) in
    let (r2, e2, is2) =
      sweep_clients n k i' r' s.room s.next s.within (omega (arith, s.first refl, s.next)) in
    rw (more, e) (r2, e2, is2)
