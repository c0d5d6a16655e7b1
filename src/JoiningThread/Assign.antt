-- ===== src/JoiningThread/Assign.antt =====
-- What an assignment does with both threads.
use notes_coding.Base.{
  ℕ, ◌+◌, ◌≡◌, ◌≢◌, sym, ◌∙◌, ap, none, some, update, update_same, update_other,
}
use notes_coding.JoiningThread.{State, assign_at, move_to, and_then, join_if, assign}
use notes_coding.JoiningThread.Owned.{IsOwned, counted}

-- The new thread of an object that is assigned to, when the old one has been waited for.
pub record Assigned (s g : State) (x y k : ℕ) : Type 0 where
  pub waited : g.joins k ≡ 1
  pub moved : g.t x ≡ s.t y
  pub left : g.t y ≡ none

-- An assignment to an object with a thread, from another one, waits for this thread, once, and then
-- moves the other's thread, if there is one, to it.
pub assign-Assigned :
    (x y k : ℕ) (s : State)
    → IsOwned s
    → x ≢ y
    → s.t x ≡ some k
    → (g : State) × (assign x y s ≡ some g) × Assigned s g x y k
unfolding assign join_if
assign-Assigned x y k s is off e =
    let g : State = record s { t = update s.t x none; joins = update s.joins k (s.joins k + 1) } in
    let (j, d) = counted s is x k e in
    (
      move_to x y g,
      ap (λ o. and_then (join_if x o s) (λ h. assign_at x y (h.t x) h)) e
          ∙ ap (λ o. assign_at x y o g) (update_same s.t x none),
      record {
        waited = update_same s.joins k (s.joins k + 1) ∙ ap (λ n. n + 1) j;
        moved =
            update_other (update g.t x (g.t y)) y x none (λ q. off (sym q))
            ∙ update_same g.t x (g.t y)
            ∙ update_other s.t x y none off;
        left = update_same (update g.t x (g.t y)) y none;
      },
    )
