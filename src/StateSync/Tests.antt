-- ===== src/StateSync/Tests.antt =====
-- Three inputs in two orders.
use mathlib.Core.List.{Permᴰ}
use notes_coding.Base.{ℕ, ◌≡◌, refl, arith, none, some, pos, negsuc, List, [], ◌∷◌}
use notes_coding.StateSync.{
  Server, init, increment, decrement, receive_input, broadcast, broadcast_game_state, Event, input,
  round, run, state_of,
}
use notes_coding.StateSync.Positions.{run-Perm}

abbrev one_order : List Event
one_order = input 1 "MoveUp" ∷ input 2 "MoveDown" ∷ round ∷ []

abbrev other_order : List Event
other_order = input 2 "MoveDown" ∷ input 1 "MoveUp" ∷ round ∷ []

printed :
    elim (run one_order init) [ none ↦ [] | some g ↦ g.lines ]
    ≡ state_of 1 (pos 0) (pos 1) ∷ state_of 2 (pos 0) (negsuc 0) ∷ []
unfolding run receive_input increment decrement broadcast broadcast_game_state
printed = refl

run-Perm_example :
    (g : Server) × (h : Server) × (run one_order init ≡ some g)
    × (run other_order init ≡ some h)
    × ((p : ℕ) → g.game_states p ≡ h.game_states p)
run-Perm_example = run-Perm (Permᴰ.swap refl refl) 0 init (λ p. omega arith) (omega arith)
