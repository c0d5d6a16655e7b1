-- ===== src/ChatRoom/Deliver.antt =====
-- How what a user says comes to the others: `hear`, then `speak`.
use notes_coding.Base.{
  ℕ, zero, suc, ◌+◌, ◌-◌, ◌<◌, ◌≤◌, ◌≡◌, ◌≢◌, ◌⊎◌, inl, inr, refl, ap, ◌∙◌, arith, ◌==◌, Bool-cases,
  false, Option, some, update, update_same, List, [], ◌∷◌, ◌++◌, All, length, take-all, replicate,
}
use notes_coding.ChatRoom.{
  ClientData, Room, sent, bytes, write_only, tell, tell_all, filled, fill, text, hear, speak,
  buffer_size,
}
use notes_coding.ChatRoom.Tell.{Told, SameSlots, tell_all-Told, tell_all-SameSlots}

-- The same buffers and the same calls.
record SameData (r r' : Room) : Type 0 where
  bufs : (u : ℕ) → (r'.users u).buf ≡ (r.users u).buf
  calls : r'.calls ≡ r.calls

update-buf :
    (users : ℕ → ClientData) (i u : ℕ) (w : Option ℕ)
    → (update users i (record (users i) { write_buf = w }) u).buf ≡ (users u).buf
update-buf users i u w = elim (Bool-cases (u == i)) [
  | inl here ↦ let same : i ≡ u = ground arith in rw here (ap (λ k. (users k).buf) same)
  | inr there ↦ rw there refl
]

tell-SameData : (connfd j : ℕ) (r : Room) → SameData r (tell connfd j r)
unfolding tell
tell-SameData connfd j r = elim (Bool-cases ((r.fds j).fd == connfd)) [
  | inl own ↦ rw own (record { bufs = λ u. refl; calls = refl })
  | inr other ↦ rw other (record { bufs = λ u. update-buf r.users (r.fds j).fd u _; calls = refl })
]

tell_all-SameData : (n connfd j : ℕ) (r : Room) → SameData r (tell_all n connfd j r)
unfolding tell_all
tell_all-SameData zero connfd j r = record { bufs = λ u. refl; calls = refl }
tell_all-SameData (suc n) connfd j r =
    let one : SameData r (tell connfd j r) = tell-SameData connfd j r in
    let rest : SameData (tell connfd j r) (tell_all n connfd (j + 1) (tell connfd j r)) =
      tell_all-SameData n connfd (j + 1) (tell connfd j r) in
    record { bufs = λ u. rest.bufs u ∙ one.bufs u; calls = rest.calls ∙ one.calls }

text-zeros : (n : ℕ) → text (replicate n 0) ≡ []
unfolding text
text-zeros zero = refl
text-zeros (suc n) = refl

text-append : (xs : List ℕ) (n : ℕ) → All (λ x. x ≢ 0) xs → text (xs ++ replicate n 0) ≡ xs
unfolding text
text-append [] n a = text-zeros n
text-append (x ∷ xs) n a =
    let real : (x == 0) ≡ false = ground (arith, a.0) in rw (real, text-append xs n a.1) refl

-- A text that fits the buffer is read back from it.
text-fill : (xs : List ℕ) → All (λ x. x ≢ 0) xs → length xs < buffer_size → text (fill xs) ≡ xs
unfolding fill
text-fill xs a h =
    rw (take-all (buffer_size - 1) xs (omega arith)) (text-append xs (buffer_size - length xs) a)

speak-sent :
    (j from : ℕ) (r : Room)
    → (r.users (r.fds j).fd).write_buf ≡ some from
    → (speak j r).calls ≡ r.calls ++ sent (r.fds j).fd (text (r.users from).buf) ∷ []
unfolding speak
speak-sent j from r e = rw (e, speak) refl

-- When the user of slot `i` says a text of at most 63 characters other than 0, the loop goes on with
-- the next slot, and the next thing that the server does for another user's slot that can be written
-- to is to send that user just this text.
pub hear-speak :
    (i j x : ℕ) (xs : List ℕ) (r : Room)
    → All (λ c. c ≢ 0) (x ∷ xs)
    → length (x ∷ xs) < buffer_size
    → 1 ≤ j
    → j ≤ r.user_cnt
    → (r.fds j).fd ≢ (r.fds i).fd
    → (r' : Room) × (hear (bytes x xs) i r ≡ some (i + 1, r'))
      × ((speak j r').calls ≡ r.calls ++ sent (r.fds j).fd (x ∷ xs) ∷ [])
unfolding hear
hear-speak i j x xs r real fits from to other =
    let f : Room = filled i (x ∷ xs) r in
    let connfd : ℕ = (r.fds i).fd in
    let r' : Room = tell_all r.user_cnt connfd 1 f in
    let same : SameSlots f r' = tell_all-SameSlots r.user_cnt connfd 1 f in
    let data_kept : SameData f r' = tell_all-SameData r.user_cnt connfd 1 f in
    let told : Told connfd j f r' =
      tell_all-Told r.user_cnt connfd 1 j f from (omega arith) other in
    let points : (r'.users (r'.fds j).fd).write_buf ≡ some connfd =
      ap (λ u. (r'.users u).write_buf) (same.fd j) ∙ told.points in
    let said : text (r'.users connfd).buf ≡ x ∷ xs =
      ap text (data_kept.bufs connfd ∙ ap (λ u. u.buf) (update_same r.users connfd _))
      ∙ text-fill (x ∷ xs) real fits in
    (
      r',
      refl,
      speak-sent j connfd r' points ∙ (λ k. data_kept.calls k ++ sent (same.fd j k) (said k) ∷ []),
    )

-- The event sets that a client's slot can have.
abbrev pub Watched : ℕ → Type 0
Watched events = (events ≡ 25) ⊎ (events ≡ 65535)

write_only-all : (events : ℕ) → Watched events → write_only events ≡ 65535
unfolding write_only
write_only-all events (inl e) = ap write_only e
write_only-all events (inr e) = ap write_only e

-- When a user says something, a slot of another user that waits for reading, as it does from the
-- start, is watched for all 16 events: it is not taken out of the reading ones.
pub hear-Watched :
    (i j x : ℕ) (xs : List ℕ) (r : Room)
    → Watched (r.fds j).events
    → 1 ≤ j
    → j ≤ r.user_cnt
    → (r.fds j).fd ≢ (r.fds i).fd
    → (r' : Room) × (hear (bytes x xs) i r ≡ some (i + 1, r')) × ((r'.fds j).events ≡ 65535)
unfolding hear
hear-Watched i j x xs r watched from to other =
    let f : Room = filled i (x ∷ xs) r in
    let told : Told (r.fds i).fd j f (tell_all r.user_cnt (r.fds i).fd 1 f) =
      tell_all-Told r.user_cnt (r.fds i).fd 1 j f from (omega arith) other in
    (_, refl, told.waits ∙ write_only-all (r.fds j).events watched)
