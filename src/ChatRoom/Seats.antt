-- ===== src/ChatRoom/Seats.antt =====
-- Who sits where in the chat room: joining and leaving.
use notes_coding.Base.{
  ℕ, suc, ◌+◌, ◌-◌, ◌≤◌, ◌≡◌, ◌≢◌, inl, inr, refl, ap, sym, ◌∙◌, arith, ◌==◌, Bool-cases,
  Option-cases, true, false, some, update, update_other, leb,
}
use notes_coding.ChatRoom.{PollFd, Room, Kernel, has_hup, user_limit, join, leave}
use notes_coding.ChatRoom.Tell.{SameSlots}

-- At most 5 users, so that no slot beyond the 6 of the array is used; the listening socket is in slot
-- 0 and is not hung up; no two slots in use have the same descriptor.
pub record IsRoom (r : Room) : Type 0 where
  pub limit : r.user_cnt ≤ user_limit
  pub listening : (r.fds 0).fd ≡ r.listenfd
  pub alive : has_hup (r.fds 0).revents ≡ false
  pub distinct : (i j : ℕ) → i ≤ r.user_cnt → j ≤ r.user_cnt → (r.fds i).fd ≡ (r.fds j).fd → i ≡ j

-- The kernel gives a new connection a descriptor that no slot has.
abbrev pub Fresh : Kernel → Room → Type 0
Fresh k r =
    (connfd addr : ℕ)
    → k.accepted ≡ some (connfd, addr)
    → (j : ℕ) → j ≤ r.user_cnt
    → (r.fds j).fd ≢ connfd

pub SameSlots-IsRoom : (r r' : Room) → IsRoom r → SameSlots r r' → IsRoom r'
SameSlots-IsRoom r r' is same = record {
  limit = omega (arith, same.count, is.limit);
  listening = same.fd 0 ∙ is.listening ∙ sym same.listens;
  alive = ap has_hup (same.revents 0) ∙ is.alive;
  distinct = λ i j hi hj e.
      is.distinct i j (omega (arith, same.count)) (omega (arith, same.count))
        (sym (same.fd i) ∙ e ∙ same.fd j);
}

-- Slot `i` was handled: the next one is `i'`.
pub record Step (i : ℕ) (r : Room) (i' : ℕ) (r' : Room) : Type 0 where
  pub room : IsRoom r'
  pub next : 1 ≤ i'
  pub within : i' ≤ r'.user_cnt + 1
  pub first : i ≡ 0 → r'.user_cnt ≤ r.user_cnt + 1
  pub later : 1 ≤ i → r'.user_cnt + suc i ≤ r.user_cnt + i'

-- The next slot comes and the descriptors stay.
pub go_on : (i : ℕ) (r r' : Room) → IsRoom r → SameSlots r r' → i ≤ r.user_cnt → Step i r (i + 1) r'
go_on i r r' is same to = record {
  within = omega (arith, same.count);
  room = SameSlots-IsRoom r r' is same;
  next = omega arith;
  first = λ e. omega (arith, same.count);
  later = λ h. omega (arith, same.count);
}

-- No two of the slots up to `n` have the same descriptor.
abbrev Distinct : (ℕ → PollFd) → ℕ → Type 0
Distinct fds n = (i j : ℕ) → i ≤ n → j ≤ n → (fds i).fd ≡ (fds j).fd → i ≡ j

fd_at : (fds : ℕ → PollFd) (i j : ℕ) (p : PollFd) → (j == i) ≡ true → (update fds i p j).fd ≡ p.fd
fd_at fds i j p at = rw at refl

fd_off :
    (fds : ℕ → PollFd) (i j : ℕ) (p : PollFd)
    → (j == i) ≡ false
    → (update fds i p j).fd ≡ (fds j).fd
fd_off fds i j p off = rw off refl

Distinct-new :
    (fds : ℕ → PollFd) (n : ℕ) (p : PollFd)
    → Distinct fds n
    → ((j : ℕ) → j ≤ n → (fds j).fd ≢ p.fd)
    → Distinct (update fds (n + 1) p) (n + 1)
Distinct-new fds n p d new i j hi hj e = elim (Bool-cases (i == n + 1)) [
  | inl at ↦ elim (Bool-cases (j == n + 1)) [
    | inl too ↦ ground arith
    | inr off ↦
        absurd (new j (ground arith) (sym (fd_off fds _ j p off) ∙ sym e ∙ fd_at fds _ i p at))
  ]
  | inr off ↦ elim (Bool-cases (j == n + 1)) [
    | inl at ↦ absurd (new i (ground arith) (sym (fd_off fds _ i p off) ∙ e ∙ fd_at fds _ j p at))
    | inr too ↦
        d i j (ground arith) (ground arith) (sym (fd_off fds _ i p off) ∙ e ∙ fd_off fds _ j p too)
  ]
]

Distinct-moved :
    (fds : ℕ → PollFd) (n i : ℕ) → 1 ≤ n → Distinct fds n → Distinct (update fds i (fds n)) (n - 1)
Distinct-moved fds n i some_left d a b ha hb e = elim (Bool-cases (a == i)) [
  | inl at ↦ elim (Bool-cases (b == i)) [
    | inl too ↦ ground arith
    | inr off ↦
        let same : n ≡ b =
          d n b (omega arith) (omega arith)
            (sym (fd_at fds i a (fds n) at) ∙ e ∙ fd_off fds i b _ off) in
        absurd (omega arith)
  ]
  | inr off ↦ elim (Bool-cases (b == i)) [
    | inl at ↦
        let same : a ≡ n =
          d a n (omega arith) (omega arith)
            (sym (fd_off fds i a _ off) ∙ e ∙ fd_at fds i b (fds n) at) in
        absurd (omega arith)
    | inr too ↦
        d a b (omega arith) (omega arith) (sym (fd_off fds i a _ off) ∙ e ∙ fd_off fds i b _ too)
  ]
]

pub join-IsRoom :
    (k : Kernel) (r : Room)
    → IsRoom r
    → Fresh k r
    → IsRoom (join k r) × ((join k r).user_cnt ≤ r.user_cnt + 1)
unfolding join
join-IsRoom k r is fresh = elim (Option-cases k.accepted) [
  | inl nobody ↦ rw (nobody, join) (is, omega arith)
  | inr ((connfd, addr), came) ↦ elim (Bool-cases (leb user_limit r.user_cnt)) [
    | inl full ↦
        rw (came, join, full)
          (
            record {
              limit = is.limit;
              listening = is.listening;
              alive = is.alive;
              distinct = is.distinct;
            },
            omega arith,
          )
    | inr room ↦
        rw (came, join, room)
          (
            record {
              limit = ground arith;
              listening =
                  ap (λ p. p.fd) (update_other r.fds (r.user_cnt + 1) 0 _ (omega arith))
                  ∙ is.listening;
              alive =
                  ap (λ p. has_hup p.revents)
                    (update_other r.fds (r.user_cnt + 1) 0 _ (omega arith))
                  ∙ is.alive;
              distinct = Distinct-new r.fds r.user_cnt _ is.distinct (fresh connfd addr came);
            },
            omega arith,
          )
  ]
]

-- A slot of a client is given up.
pub leave-Step :
    (i : ℕ) (r : Room)
    → IsRoom r
    → 1 ≤ i
    → i ≤ r.user_cnt
    → (r' : Room) × (leave i r ≡ some r') × Step i r i r'
unfolding leave
leave-Step i r is from to =
    let some_users : (r.user_cnt == 0) ≡ false = ground arith in
    rw some_users (
      _,
      refl,
      record {
        room = record {
          limit = omega (arith, is.limit);
          listening = ap (λ p. p.fd) (update_other r.fds i 0 _ (omega arith)) ∙ is.listening;
          alive = ap (λ p. has_hup p.revents) (update_other r.fds i 0 _ (omega arith)) ∙ is.alive;
          distinct = Distinct-moved r.fds r.user_cnt i (omega arith) is.distinct;
        };
        next = from;
        within = omega arith;
        first = λ e. omega arith;
        later = λ h. omega arith;
      },
    )
