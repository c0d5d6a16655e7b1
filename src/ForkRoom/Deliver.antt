-- ===== src/ForkRoom/Deliver.antt =====
-- What a client says, on its way to the others.
use notes_coding.Base.{
  ℕ, zero, suc, ◌+◌, ◌≡◌, inl, inr, refl, ap, sym, ◌∙◌, some, List, [], ◌∷◌, ◌++◌, ◌==◌,
  if◌then◌else◌, Bool-cases, map, length, take, replicate, ◌-◌,
}
use notes_coding.ForkRoom.{
  ClientData, Parent, Child, sent, read, tell_others, forward, fill, hear, relay,
}
use notes_coding.ForkRoom.Bytes.{slice-fill}
use mathlib.Core.List.{append_assoc, append-nil}

-- The pipes of the `n` clients from place `j` on.
unfoldable pub pipes_from : (n j : ℕ) → (ℕ → ClientData) → List ℕ
pipes_from zero j users = []
pipes_from (suc n) j users = (users j).pipefd ∷ pipes_from n (j + 1) users

-- The numbers of `xs` but `y`.
unfoldable pub without : (y : ℕ) → List ℕ → List ℕ
without y [] = []
without y (x ∷ xs) = let rest = without y xs in if x == y then rest else x ∷ rest

tell_others-sent :
    (n j sockfd client : ℕ) (p : Parent)
    → (tell_others n j sockfd client p).calls
      ≡ p.calls ++ map (λ q. sent q client) (without sockfd (pipes_from n j p.g_users))
unfolding tell_others pipes_from without
tell_others-sent zero j sockfd client p = sym (append-nil p.calls)
tell_others-sent (suc n) j sockfd client p = elim (Bool-cases ((p.g_users j).pipefd == sockfd)) [
  | inl own ↦ rw (own, tell_others, without) (tell_others-sent n (j + 1) sockfd client p)
  | inr other ↦
      let one : Parent = record p { calls = p.calls ++ sent (p.g_users j).pipefd client ∷ [] } in
      rw (other, tell_others, without)
        (tell_others-sent n (j + 1) sockfd client one
          ∙ append_assoc p.calls (sent (p.g_users j).pipefd client ∷ []) _)
]

-- What a client says goes through its child, the parent and the child of another client, with nothing
-- else between: the parent writes the number of the speaker's segment to the pipe of every other
-- client, once each, and a child that reads this number sends its client the speaker's segment, which
-- is what was said, up to 1023 bytes, and zeros.
pub hear-relay :
    (xs : List ℕ) (c d : Child) (mem : ℕ → ℕ) (sockfd : ℕ) (p : Parent)
    → (after : ℕ → ℕ) × (hear (read xs) c mem ≡ (c, (after, some c.idx)))
      × ((forward sockfd (some c.idx) p).calls
          ≡ p.calls
            ++ map (λ q. sent q c.idx) (without sockfd (pipes_from p.g_user_count 0 p.g_users)))
      × (relay (read c.idx) d after
          ≡ (d, some (take 1023 xs ++ replicate (1024 - length (take 1023 xs)) 0)))
unfolding hear forward relay
hear-relay xs c d mem sockfd p = (
  fill c.idx xs mem,
  refl,
  tell_others-sent p.g_user_count 0 sockfd c.idx p,
  ap (λ l. (d, some l)) (slice-fill c.idx xs mem),
)
