-- ===== src/ChatRoom/Tests.antt =====
-- The chat room on small inputs.
use notes_coding.Base.{
  ℕ, zero, suc, ◌+◌, ◌≤◌, ◌≡◌, ◌≢◌, refl, ap, sym, ◌∙◌, arith, none, some, [], ◌∷◌, ◌++◌,
}
use notes_coding.ChatRoom.{PollFd, Room, Kernel, bytes, sent, hear, speak, sweep}
use notes_coding.ChatRoom.Seats.{IsRoom, Fresh}
use notes_coding.ChatRoom.Keeps.{sweep-IsRoom}
use notes_coding.ChatRoom.Deliver.{hear-speak}

abbrev slots : ℕ → PollFd
slots zero = record { fd = 3; events = 9; revents = 1 }
slots (suc zero) = record { fd = 5; events = 25; revents = 1 }
slots (suc (suc n)) = record { fd = 6 + n; events = 25; revents = 0 }

-- The listening socket 3, and the users 5, 6 and 7, of whom 5 has something to say.
abbrev three_users : Room
three_users = record {
  fds = slots;
  user_cnt = 3;
  users = λ u. record { addr = u; write_buf = none; buf = [] };
  listenfd = 3;
  calls = [];
}

slots_distinct : (i j : ℕ) → (slots i).fd ≡ (slots j).fd → i ≡ j
slots_distinct zero zero e = refl
slots_distinct zero (suc zero) e = absurd (omega arith)
slots_distinct zero (suc (suc j)) e = absurd (omega arith)
slots_distinct (suc zero) zero e = absurd (omega arith)
slots_distinct (suc zero) (suc zero) e = refl
slots_distinct (suc zero) (suc (suc j)) e = absurd (omega arith)
slots_distinct (suc (suc i)) zero e = absurd (omega arith)
slots_distinct (suc (suc i)) (suc zero) e = absurd (omega arith)
slots_distinct (suc (suc i)) (suc (suc j)) e = omega arith

three_users-IsRoom : IsRoom three_users
three_users-IsRoom = record {
  limit = omega arith;
  listening = refl;
  alive = refl;
  distinct = λ i j hi hj e. slots_distinct i j e;
}

-- Descriptor 20 connects, and user 5 says two characters.
abbrev kernel : Kernel
kernel = record { accepted = some (20, 1); received = λ u. bytes 104 (105 ∷ []) }

slots_fresh : (j : ℕ) → j ≤ 3 → (slots j).fd ≢ 20
slots_fresh zero h = omega arith
slots_fresh (suc zero) h = omega arith
slots_fresh (suc (suc j)) h = omega arith

kernel-Fresh : Fresh kernel three_users
kernel-Fresh connfd addr e j h same =
    let given : 20 ≡ connfd = ap (λ o. elim o [ none ↦ 0 | some p ↦ p.0 ]) e in
    slots_fresh j h (same ∙ sym given)

sweep-IsRoom_example : (r' : Room) × (sweep 6 kernel 0 three_users ≡ some r') × IsRoom r'
sweep-IsRoom_example =
    sweep-IsRoom 6 kernel three_users three_users-IsRoom kernel-Fresh (omega arith)

hear-speak_example :
    (r' : Room) × (hear (bytes 104 (105 ∷ [])) 1 three_users ≡ some (2, r'))
    × ((speak 2 r').calls ≡ three_users.calls ++ sent 6 (104 ∷ 105 ∷ []) ∷ [])
hear-speak_example =
    hear-speak 1 2 104 (105 ∷ []) three_users (omega arith, (omega arith, tt)) (omega arith)
      (omega arith) (omega arith) (omega arith)
