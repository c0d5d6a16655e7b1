-- ===== src/ChatRoom/Tell.antt =====
-- What the others are told when a user says something.
use notes_coding.Base.{
  ℕ, zero, suc, ◌+◌, ◌<◌, ◌≤◌, ◌≡◌, ◌≢◌, inl, inr, refl, ap, sym, ◌∙◌, subst, arith, ◌==◌,
  Bool-cases, false, some, update, update_same, update_other,
}
use notes_coding.ChatRoom.{PollFd, Room, write_only, tell, tell_all}

-- Rooms with the same descriptors in the same slots.
pub record SameSlots (r r' : Room) : Type 0 where
  pub count : r'.user_cnt ≡ r.user_cnt
  pub listens : r'.listenfd ≡ r.listenfd
  pub fd : (j : ℕ) → (r'.fds j).fd ≡ (r.fds j).fd
  pub revents : (j : ℕ) → (r'.fds j).revents ≡ (r.fds j).revents

-- A change of the events of one slot.
pub update-fd :
    (fds : ℕ → PollFd) (i e j : ℕ)
    → ((update fds i (record (fds i) { events = e }) j).fd ≡ (fds j).fd)
      × ((update fds i (record (fds i) { events = e }) j).revents ≡ (fds j).revents)
update-fd fds i e j = elim (Bool-cases (j == i)) [
  | inl here ↦
      let same : i ≡ j = ground arith in
      rw here (ap (λ k. (fds k).fd) same, ap (λ k. (fds k).revents) same)
  | inr there ↦ rw there (refl, refl)
]

tell-SameSlots : (connfd j : ℕ) (r : Room) → SameSlots r (tell connfd j r)
unfolding tell
tell-SameSlots connfd j r = elim (Bool-cases ((r.fds j).fd == connfd)) [
  | inl own ↦ rw own (record { count = refl; listens = refl; fd = λ j. refl; revents = λ j. refl })
  | inr other ↦ rw other (record {
    count = refl;
    listens = refl;
    fd = λ i. (update-fd r.fds j _ i).0;
    revents = λ i. (update-fd r.fds j _ i).1;
  })
]

pub SameSlots-trans : (r s t : Room) → SameSlots r s → SameSlots s t → SameSlots r t
SameSlots-trans r s t a b = record {
  count = b.count ∙ a.count;
  listens = b.listens ∙ a.listens;
  fd = λ j. b.fd j ∙ a.fd j;
  revents = λ j. b.revents j ∙ a.revents j;
}

pub tell_all-SameSlots : (n connfd j : ℕ) (r : Room) → SameSlots r (tell_all n connfd j r)
unfolding tell_all
tell_all-SameSlots zero connfd j r = record {
  count = refl;
  listens = refl;
  fd = λ j. refl;
  revents = λ j. refl;
}
tell_all-SameSlots (suc n) connfd j r =
    SameSlots-trans r (tell connfd j r) _ (tell-SameSlots connfd j r)
      (tell_all-SameSlots n connfd (j + 1) (tell connfd j r))

tell-write_buf :
    (connfd j u : ℕ) (r : Room)
    → (r.users u).write_buf ≡ some connfd
    → ((tell connfd j r).users u).write_buf ≡ some connfd
unfolding tell
tell-write_buf connfd j u r set = elim (Bool-cases ((r.fds j).fd == connfd)) [
  | inl own ↦ rw own set
  | inr other ↦
      rw other (elim (Bool-cases (u == (r.fds j).fd)) [
        | inl here ↦ rw here refl
        | inr there ↦ rw there set
      ])
]

tell_all-write_buf :
    (n connfd j u : ℕ) (r : Room)
    → (r.users u).write_buf ≡ some connfd
    → ((tell_all n connfd j r).users u).write_buf ≡ some connfd
unfolding tell_all
tell_all-write_buf zero connfd j u r set = set
tell_all-write_buf (suc n) connfd j u r set =
    tell_all-write_buf n connfd (j + 1) u (tell connfd j r) (tell-write_buf connfd j u r set)

tell-events :
    (connfd j i : ℕ) (r : Room) → j ≢ i → ((tell connfd j r).fds i).events ≡ (r.fds i).events
unfolding tell
tell-events connfd j i r ne = elim (Bool-cases ((r.fds j).fd == connfd)) [
  | inl own ↦ rw own refl
  | inr other ↦ rw other (ap (λ p. p.events) (update_other r.fds j i _ ne))
]

tell_all-events :
    (n connfd j i : ℕ) (r : Room)
    → i < j
    → ((tell_all n connfd j r).fds i).events ≡ (r.fds i).events
unfolding tell_all
tell_all-events zero connfd j i r h = refl
tell_all-events (suc n) connfd j i r h =
    tell_all-events n connfd (j + 1) i (tell connfd j r) (omega arith)
    ∙ tell-events connfd j i r (omega arith)

-- What slot `i` and its user are told.
pub record Told (connfd i : ℕ) (r r' : Room) : Type 0 where
  pub waits : (r'.fds i).events ≡ write_only (r.fds i).events
  pub points : (r'.users (r.fds i).fd).write_buf ≡ some connfd

tell-Told : (connfd i : ℕ) (r : Room) → (r.fds i).fd ≢ connfd → Told connfd i r (tell connfd i r)
unfolding tell
tell-Told connfd i r other =
    let miss : ((r.fds i).fd == connfd) ≡ false = ground arith in
    rw miss (record {
      waits = ap (λ p. p.events) (update_same r.fds i _);
      points = ap (λ u. u.write_buf) (update_same r.users (r.fds i).fd _);
    })

-- The loop over the slots from `j` on, `n` of them, tells each of these that is not the speaker's
-- own: it is to be watched for writing, and its user's data to write are the speaker's buffer.
pub tell_all-Told :
    (n connfd j i : ℕ) (r : Room)
    → j ≤ i
    → i < j + n
    → (r.fds i).fd ≢ connfd
    → Told connfd i r (tell_all n connfd j r)
unfolding tell_all
tell_all-Told zero connfd j i r from to other = absurd (omega arith)
tell_all-Told (suc n) connfd j i r from to other = elim (Bool-cases (j == i)) [
  | inl here ↦
      let e : i ≡ j = ground arith in
      let told : Told connfd i r (tell connfd i r) = tell-Told connfd i r other in
      subst (λ k. Told connfd i r (tell_all n connfd (k + 1) (tell connfd k r))) e
        (record {
          waits = tell_all-events n connfd (i + 1) i (tell connfd i r) (omega arith) ∙ told.waits;
          points = tell_all-write_buf n connfd (i + 1) (r.fds i).fd (tell connfd i r) told.points;
        })
  | inr there ↦
      let ne : j ≢ i = ground arith in
      let same : ((tell connfd j r).fds i).fd ≡ (r.fds i).fd = (tell-SameSlots connfd j r).fd i in
      let rest : Told connfd i (tell connfd j r) (tell_all n connfd (j + 1) (tell connfd j r)) =
        tell_all-Told n connfd (j + 1) i (tell connfd j r) (omega arith) (omega arith)
          (λ e. other (sym same ∙ e)) in
      record {
        waits = rest.waits ∙ ap write_only (tell-events connfd j i r ne);
        points =
            subst
              (λ u. ((tell_all n connfd (j + 1) (tell connfd j r)).users u).write_buf ≡ some connfd)
              same rest.points;
      }
]
