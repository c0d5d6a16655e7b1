-- ===== src/FrameSync.antt =====
-- GameServer/Synchronization/FrameSync.cpp: a server that takes the inputs of players at any time and
-- works on them frame by frame. The server's thread, the callers of `receiveInput` and the caller of
-- `stop` take their steps in any order.
pub mod Work
pub mod Frames
pub mod Late
mod Tests
use notes_coding.Base.{
  ℕ, zero, suc, ◌+◌, ◌<◌, ◌≡◌, Bool, true, false, ◌||◌, List, [], ◌∷◌, ◌++◌, ◌==◌, if◌then◌else◌,
  update, add_key,
}

-- Where the server's thread is: before `while (running)`, before it takes the mutex, at work with the
-- mutex, asleep with the mutex, or at its end.
pub data Place : Type 0 where
  at_test at_lock at_work asleep at_end : Place

-- `current_frame` is an `int`: it goes no further than this, and `current_frame++` there is undefined.
abbrev pub int_max : ℕ
int_max = 2147483647

-- What is printed; `fps` and the clock only set how long the server sleeps.
pub data Line : Type 0 where
  processing : (player frame : ℕ) → Line
  updating broadcasting : (frame : ℕ) → Line

-- `input_queue` by players, with the players that it has in the order in which it is gone through;
-- `received` and `processed` are the inputs of a player so far.
pub record Server (A : Type 0) : Type 0 where
  pub input_queue : ℕ → List A
  pub players : List ℕ
  pub current_frame : ℕ
  pub running : Bool
  pub place : Place
  pub lines : List Line
  pub received : ℕ → List A
  pub processed : ℕ → List A

-- The mutex is with the server's thread.
abbrev pub locked : Place → Bool
locked at_test = false
locked at_lock = false
locked at_work = true
locked asleep = true
locked at_end = false

module _ {A : Type 0} where
  -- After `start`.
  abbrev pub init : Server A
  init = record {
    input_queue = λ p. [];
    players = [];
    current_frame = 0;
    running = true;
    place = at_test;
    lines = [];
    received = λ p. [];
    processed = λ p. [];
  }

  pub receive_input : (player_id : ℕ) (input : A) → Server A → Server A
  receive_input player_id input s = record s {
    input_queue = update s.input_queue player_id (s.input_queue player_id ++ input ∷ []);
    players = add_key player_id s.players;
    received = update s.received player_id (s.received player_id ++ input ∷ []);
  }

  -- The loop over the queue of a player, when it is `inputs`.
  pub work_off : (player : ℕ) (inputs : List A) → Server A → Server A
  work_off player [] s = s
  work_off player (input ∷ inputs) s = work_off player inputs (record s {
    input_queue = update s.input_queue player inputs;
    processed = update s.processed player (s.processed player ++ input ∷ []);
  })

  abbrev pub print : Line → Server A → Server A
  print l s = record s { lines = s.lines ++ l ∷ [] }

  -- The loop over the players.
  pub work_all : (players : List ℕ) → Server A → Server A
  unfolding work_off
  work_all [] s = s
  work_all (player ∷ players) s =
      let t : Server A = print (processing player s.current_frame) s in
      work_all players (work_off player (t.input_queue player) t)

  -- The body of the loop of `run` with the mutex, up to its sleep.
  pub frame : Server A → Server A
  unfolding work_all
  frame s =
      let t : Server A = work_all s.players s in
      let t : Server A =
        print (broadcasting t.current_frame) (print (updating t.current_frame) t) in
      record t { current_frame = t.current_frame + 1; place = asleep }

  pub data Step (s : Server A) : Server A → Type 0 where
    receives :
        (player_id : ℕ) (input : A)
        → locked s.place ≡ false
        → Step s (receive_input player_id input s)
    stops : Step s (record s { running = false })
    tests : s.place ≡ at_test → Step s (record s { place = if s.running then at_lock else at_end })
    locks : s.place ≡ at_lock → Step s (record s { place = at_work })
    works : s.place ≡ at_work → s.current_frame < int_max → Step s (frame s)
    wakes : s.place ≡ asleep → Step s (record s { place = at_test })

  pub data Reach : Server A → Type 0 where
    start : Reach init
    later : {s g : Server A} → Reach s → Step s g → Reach g
