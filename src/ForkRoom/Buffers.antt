-- ===== src/ForkRoom/Buffers.antt =====
-- The segments of the shared memory that the children use.
use notes_coding.Base.{
  some-injective, ℕ, ◌+◌, ◌-◌, ◌*◌, ◌<◌, ◌≤◌, ◌≡◌, ◌≢◌, inl, inr, refl, sym, ◌∙◌, subst, arith,
  true, false, Option, none, some, leb, ◌==◌, Bool-cases, update, update_same, update_other,
}
use notes_coding.ForkRoom.{Child, System, user_limit, buffer_size, connect, reap}
use notes_coding.ForkRoom.Users.{IsParent, At, reap-IsParent}

-- A segment lies within the mapped memory.
abbrev pub Within : Child → Type 0
Within c = c.idx * buffer_size + buffer_size ≤ user_limit * buffer_size

abbrev pub AllWithin : System → Type 0
AllWithin s = (pid : ℕ) (c : Child) → s.children pid ≡ some c → Within c

child_off :
    (children : ℕ → Option Child) (i j : ℕ) (c : Option Child)
    → (j == i) ≡ false
    → update children i c j ≡ children j
child_off children i j c off = rw off refl

child_at :
    (children : ℕ → Option Child) (i j : ℕ) (c : Option Child)
    → (j == i) ≡ true
    → update children i c j ≡ c
child_at children i j c at = rw at refl

-- A connection keeps the segment of every child within the mapped memory, whatever `accept` and
-- `fork` return.
pub connect-AllWithin :
    (accepted : Option (ℕ × ℕ)) (pipefd : ℕ) (forked : Option ℕ) (s : System)
    → AllWithin s
    → AllWithin (connect accepted pipefd forked s)
unfolding connect
connect-AllWithin none pipefd forked s a = a
connect-AllWithin (some (connfd, address)) pipefd none s a =
    elim (Bool-cases (leb user_limit s.parent.g_user_count)) [
      | inl full ↦ rw full a
      | inr room ↦ rw room a
    ]
connect-AllWithin (some (connfd, address)) pipefd (some pid) s a =
    elim (Bool-cases (leb user_limit s.parent.g_user_count)) [
      | inl full ↦ rw full a
      | inr room ↦
          let small : s.parent.g_user_count < user_limit = ground arith in
          rw room λ q c e. elim (Bool-cases (q == pid)) [
            | inl new ↦
                let d : Child = record {
                  idx = s.parent.g_user_count;
                  connfd = connfd;
                  stop_child = false;
                } in
                let same : d ≡ c =
                  some-injective (sym (child_at s.children pid q (some d) new) ∙ e) in
                subst Within same (omega arith)
            | inr old ↦ a q c (sym (child_off s.children pid q _ old) ∙ e)
          ]
    ]

-- The client at place `i` leaves, where `i` is not the last place, and a new client comes.
abbrev pub leave_and_come : (pid connfd address pipefd q : ℕ) → System → System
leave_and_come pid connfd address pipefd q s =
    connect (some (connfd, address)) pipefd (some q) (record s { parent = reap pid s.parent })

-- Two children with the same segment.
pub record Clash (s : System) (pid q : ℕ) : Type 0 where
  pub one : Child
  pub two : Child
  pub first : s.children pid ≡ some one
  pub second : s.children q ≡ some two
  pub same : two.idx ≡ one.idx

-- When the last client's child has the segment of its place, and the child of a client before it
-- ends, then the last one's child keeps its segment, and the child of the next client to come has
-- the same one.
pub reap-connect-Clash :
    (pid i connfd address pipefd q : ℕ) (s : System) (c : Child)
    → IsParent s.parent
    → At s.parent pid i
    → i + 1 < s.parent.g_user_count
    → s.children (s.parent.g_users (s.parent.g_user_count - 1)).pid ≡ some c
    → c.idx + 1 ≡ s.parent.g_user_count
    → q ≢ (s.parent.g_users (s.parent.g_user_count - 1)).pid
    → Clash
        (leave_and_come pid connfd address pipefd q s)
        (s.parent.g_users (s.parent.g_user_count - 1)).pid
        q
unfolding connect
reap-connect-Clash pid i connfd address pipefd q s c is at inner runs place new =
    let (is', fewer) = reap-IsParent s.parent pid i is at in
    let room : leb user_limit (reap pid s.parent).g_user_count ≡ false =
      ground (arith, is.limit, fewer) in
    rw room (record {
      one = c;
      two = record { idx = (reap pid s.parent).g_user_count; connfd = connfd; stop_child = false };
      first = update_other s.children q _ _ new ∙ runs;
      second = update_same s.children q _;
      same = omega (arith, fewer, place);
    })
