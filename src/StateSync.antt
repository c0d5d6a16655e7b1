-- ===== src/StateSync.antt =====
-- GameServer/Synchronization/StateSync.cpp: a server that keeps the positions of the players and sends
-- them out. Each operation holds the mutex from its start to its end; the clock only sets how long the
-- server sleeps.
pub mod Moves
pub mod Positions
mod Tests
use Prim.Native.String.{String}
use text.Mathlib.Text.{◌==◌ as str_eq}
use notes_coding.Base.{
  ℕ, zero, suc, ◌^◌, Bool, true, false, ◌||◌, Option, none, some, ltb, List, [], ◌∷◌, ◌++◌, ◌==◌,
  if◌then◌else◌, update, add_key, ℤ, pos, negsuc,
}

pub record GameState : Type 0 where
  pub player_position_x : ℤ
  pub player_position_y : ℤ

abbrev pub new_state : GameState
new_state = record { player_position_x = pos 0; player_position_y = pos 0 }

-- What is printed of a player.
pub data Line : Type 0 where
  state_of : (player : ℕ) (x y : ℤ) → Line

-- `game_states` by players, with the players that it has in the order in which it is gone through.
pub record Server : Type 0 where
  pub game_states : ℕ → GameState
  pub players : List ℕ
  pub lines : List Line

abbrev pub init : Server
init = record { game_states = λ p. new_state; players = []; lines = [] }

-- `++` and `--` of an `int`: `none` if it overflows.
pub increment : ℤ → Option ℤ
increment (pos n) = if ltb (suc n) (2 ^ 31) then some (pos (suc n)) else none
increment (negsuc zero) = some (pos 0)
increment (negsuc (suc n)) = some (negsuc n)

pub decrement : ℤ → Option ℤ
decrement (pos zero) = some (negsuc 0)
decrement (pos (suc n)) = some (pos n)
decrement (negsuc n) = if ltb (suc n) (2 ^ 31) then some (negsuc (suc n)) else none

-- `game_states[player_id].player_position_y` becomes `y`.
abbrev pub move_y : (y : Option ℤ) (player_id : ℕ) → Server → Option Server
move_y none player_id s = none
move_y (some y) player_id s = some (record s {
  game_states =
      update s.game_states player_id (record (s.game_states player_id) { player_position_y = y });
  players = add_key player_id s.players;
})

pub receive_input : (player_id : ℕ) (input : String) → Server → Option Server
unfolding increment decrement
receive_input player_id input s =
    if str_eq input "MoveUp"
    then move_y (increment (s.game_states player_id).player_position_y) player_id s
    else if str_eq input "MoveDown"
    then move_y (decrement (s.game_states player_id).player_position_y) player_id s
    else some s

-- The loop over the players.
pub broadcast : (players : List ℕ) → Server → Server
broadcast [] s = s
broadcast (player ∷ players) s =
    let state : GameState = s.game_states player in
    broadcast players (record s {
      lines = s.lines ++ state_of player state.player_position_x state.player_position_y ∷ [];
    })

pub broadcast_game_state : Server → Server
unfolding broadcast
broadcast_game_state s = broadcast s.players s

-- What happens to the server, in the order in which the mutex is taken.
pub data Event : Type 0 where
  input : (player_id : ℕ) (text : String) → Event
  round : Event

-- `none` if a position overflows.
pub run : List Event → Server → Option Server
unfolding receive_input broadcast_game_state
run [] s = some s
run (input player_id text ∷ es) s = elim (receive_input player_id text s) [
  | none ↦ none
  | some g ↦ run es g
]
run (round ∷ es) s = run es (broadcast_game_state s)
