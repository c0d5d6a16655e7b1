-- ===== src/StateSync/Positions.antt =====
-- The positions that inputs lead to, in whatever order they come.
use Prim.Native.String.{String}
use text.Mathlib.Text.{◌==◌ as str_eq}
use mathlib.Core.List.{Permᴰ}
use notes_coding.Base.{
  ℕ, suc, ◌+◌, ◌^◌, ◌<◌, ◌≡◌, inl, inr, refl, sym, ◌∙◌, ap, subst, arith, true, false, Option, none,
  some, length, update, List, [], ◌∷◌, ◌==◌, if◌then◌else◌, Bool-cases, ℤ,
}
use notes_coding.StateSync.{
  GameState, Server, receive_input, broadcast, broadcast_game_state, Event, input, round, run,
  move_y,
}
use notes_coding.StateSync.Moves.{
  up, down, moved, moved_by, moved_all, IsWithin, wider, increment-up, decrement-down,
  moved_by-IsWithin, moved_all-Perm, length-Perm,
}

-- All positions are between these bounds.
abbrev pub AllWithin : (k : ℕ) → Server → Type 0
AllWithin k s = (p : ℕ) → IsWithin k (s.game_states p).player_position_y

-- The inputs move the positions of their players up and down, and nothing else does.
broadcast-states : (ps : List ℕ) (s : Server) → (broadcast ps s).game_states ≡ s.game_states
unfolding broadcast
broadcast-states [] s = refl
broadcast-states (p ∷ ps) s = broadcast-states ps _

abbrev with_y : ℤ → GameState → GameState
with_y y g = record g { player_position_y = y }

-- The player `i` is moved by `f`.
abbrev Moved : (f : ℤ → ℤ) (i : ℕ) (s g : Server) → Type 0
Moved f i s g =
    (p : ℕ)
    → g.game_states p
      ≡ with_y
          (if i == p
            then f (s.game_states p).player_position_y
            else (s.game_states p).player_position_y)
          (s.game_states p)

move-Moved :
    (f : ℤ → ℤ) (i : ℕ) (s : Server)
    → (g : Server) × (move_y (some (f (s.game_states i).player_position_y)) i s ≡ some g)
      × Moved f i s g
move-Moved f i s = (_, refl, λ p. states p)
  where
    states :
        (p : ℕ)
        → update s.game_states i
            (with_y (f (s.game_states i).player_position_y) (s.game_states i))
            p
          ≡ with_y
              (if i == p
                then f (s.game_states p).player_position_y
                else (s.game_states p).player_position_y)
              (s.game_states p)
    states p = elim (Bool-cases (i == p)) [
      | inl here ↦
          let here' : (p == i) ≡ true = ground arith in
          let same : i ≡ p = ground arith in
          rw (here, here')
            (ap (λ q. with_y (f (s.game_states q).player_position_y) (s.game_states q)) same)
      | inr off ↦ let off' : (p == i) ≡ false = ground arith in rw (off, off') refl
    ]

-- An input is handled when no position can overflow.
receive-Moved :
    (k i : ℕ) (t : String) (s : Server)
    → AllWithin k s
    → suc k < 2 ^ 31
    → (g : Server) × (receive_input i t s ≡ some g) × Moved (moved t) i s g
unfolding receive_input moved
receive-Moved k i t s within small = elim (Bool-cases (str_eq t "MoveUp")) [
  | inl u ↦
      let e = increment-up k (s.game_states i).player_position_y (within i) small in
      let (g, run, m) = move-Moved up i s in (g, rw u (ap (λ y. move_y y i s) e ∙ run), rw u m)
  | inr u ↦ elim (Bool-cases (str_eq t "MoveDown")) [
    | inl d ↦
        let e = decrement-down k (s.game_states i).player_position_y (within i) small in
        let (g, run, m) = move-Moved down i s in
        (g, rw (u, d) (ap (λ y. move_y y i s) e ∙ run), rw (u, d) m)
    | inr d ↦ (s, rw (u, d) refl, rw (u, d) (λ p. still p))
  ]
]
  where
    still :
        (p : ℕ)
        → s.game_states p
          ≡ with_y
              (if i == p
                then (s.game_states p).player_position_y
                else (s.game_states p).player_position_y)
              (s.game_states p)
    still p = elim (Bool-cases (i == p)) [ inl here ↦ rw here refl | inr off ↦ rw off refl ]

-- Every position is what the events make of it.
abbrev Ran : (es : List Event) (s g : Server) → Type 0
Ran es s g =
    (p : ℕ)
    → g.game_states p
      ≡ with_y (moved_all p es (s.game_states p).player_position_y) (s.game_states p)

then-Ran :
    (e : Event) (es : List Event) (s h g : Server)
    → ((p : ℕ)
        → h.game_states p
          ≡ with_y (moved_by p e (s.game_states p).player_position_y) (s.game_states p))
    → Ran es h g
    → Ran (e ∷ es) s g
unfolding moved_all
then-Ran e es s h g first rest p =
    rest p ∙ ap (λ (c : GameState). with_y (moved_all p es c.player_position_y) c) (first p)

run-Ran :
    (k : ℕ) (es : List Event) (s : Server)
    → AllWithin k s
    → k + length es < 2 ^ 31
    → (g : Server) × (run es s ≡ some g) × Ran es s g
unfolding run moved_all moved_by broadcast_game_state
run-Ran k [] s within small = (s, refl, λ p. refl)
run-Ran k (input i t ∷ es) s within small =
    let (h, first, m) = receive-Moved k i t s within (omega (arith, small)) in
    let next : AllWithin (suc k) h = λ p.
      subst (λ (c : GameState). IsWithin (suc k) c.player_position_y) (sym (m p))
        (moved_by-IsWithin k p (input i t) (s.game_states p).player_position_y (within p)) in
    let (g, rest, r) = run-Ran (suc k) es h next (omega (arith, small)) in
    (
      g,
      ap (λ (o : Option Server). elim o [ none ↦ none | some g ↦ run es g ]) first ∙ rest,
      then-Ran (input i t) es s h g m r,
    )
run-Ran k (round ∷ es) s within small =
    let h : Server = broadcast_game_state s in
    let same : h.game_states ≡ s.game_states = broadcast-states s.players s in
    let next : AllWithin (suc k) h = λ p.
      subst (λ (c : ℕ → GameState). IsWithin (suc k) (c p).player_position_y) (sym same)
        (wider k (s.game_states p).player_position_y (within p)) in
    let (g, rest, r) = run-Ran (suc k) es h next (omega (arith, small)) in
    (g, rest, then-Ran round es s h g (λ p. ap (λ (c : ℕ → GameState). c p) same) r)

-- Whatever the order in which the inputs and rounds get the mutex, no position overflows and every
-- player ends up with the same state, when the positions are from `- (k + 1)` to `k` before, and `k`
-- and the number of inputs and rounds are together less than 2 ^ 31.
pub run-Perm :
    {es fs : List Event}
    → Permᴰ es fs
    → (k : ℕ) (s : Server) → AllWithin k s
    → k + length es < 2 ^ 31
    → (g : Server) × (h : Server) × (run es s ≡ some g)
      × (run fs s ≡ some h)
      × ((p : ℕ) → g.game_states p ≡ h.game_states p)
run-Perm {es} {fs} q k s within small =
    let (g, one, r) = run-Ran k es s within small in
    let (h, other, r') = run-Ran k fs s within (omega (arith, small, length-Perm q)) in
    (
      g,
      h,
      one,
      other,
      λ p.
          r p
          ∙ ap (λ y. with_y y (s.game_states p))
              (moved_all-Perm p q (s.game_states p).player_position_y)
          ∙ sym (r' p),
    )
