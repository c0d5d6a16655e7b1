-- ===== src/ParallelAccumulate.antt =====
-- cpp-concurrency-in-action/ch2_线程的基本管控/parallel_accumulate.cpp: a sum in blocks, one for each
-- thread. `T`, its `+` and its `T()` are parameters, and so is `std::thread::hardware_concurrency()`.
-- A thread reads and writes only its own block and result, so an execution is the order in which the
-- threads do their work.
pub mod Order
pub mod Blocks
mod Tests
use notes_coding.Base.{
  ℕ, zero, suc, ◌+◌, ◌-◌, ◌/◌, ◌%◌, ◌^◌, Option, none, some, List, [], ◌∷◌, map, ltb, ◌==◌,
  if◌then◌else◌, length, take, drop,
}

abbrev pub min_per_thread : ℕ
min_per_thread = 25

-- The unsigned addition and subtraction wrap around.
abbrev pub max_threads : (length : ℕ) → ℕ
max_threads length = (length + min_per_thread - 1) % 2 ^ 64 / min_per_thread

abbrev pub num_threads : (hardware_threads length : ℕ) → ℕ
num_threads hardware_threads length =
    let hardware : ℕ = if hardware_threads == 0 then 2 else hardware_threads in
    let most : ℕ = max_threads length in if ltb most hardware then most else hardware

module _ {T : Type 0} (add : T → T → T) (default : T) where
  -- `std::accumulate`
  pub accumulate : List T → T → T
  accumulate [] init = init
  accumulate (x ∷ xs) init = accumulate xs (add init x)

  -- The loop that hands out blocks to `k` threads, and the last block, which the main thread takes:
  -- `none` where `std::advance` goes beyond the end.
  pub blocks : (k block_size : ℕ) → List T → Option (List (List T))
  blocks zero block_size xs = some (xs ∷ [])
  blocks (suc k) block_size xs =
      let rest : Option (List (List T)) = blocks k block_size (drop block_size xs) in
      if ltb (length xs) block_size
      then none
      else elim rest [ none ↦ none | some bs ↦ some (take block_size xs ∷ bs) ]

  -- `accumulate_block()(first, last, result)`
  abbrev pub accumulate_block : List T × T → List T × T
  accumulate_block (block, result) = (block, accumulate block result)

  -- The thread `i` does its work.
  pub run : (i : ℕ) → List (List T × T) → List (List T × T)
  run i [] = []
  run zero (s ∷ slots) = accumulate_block s ∷ slots
  run (suc i) (s ∷ slots) = s ∷ run i slots

  pub run_all : (order : List ℕ) → List (List T × T) → List (List T × T)
  unfolding run
  run_all [] slots = slots
  run_all (i ∷ order) slots = run_all order (run i slots)

  -- `parallel_accumulate(first, last, init)`, where the threads do their work in this order.
  pub parallel_accumulate : (hardware_threads : ℕ) (order : List ℕ) → List T → T → Option T
  unfolding accumulate blocks run_all
  parallel_accumulate hardware_threads order xs init =
      let n : ℕ = num_threads hardware_threads (length xs) in
      if length xs == 0 then some init else elim (blocks (n - 1) (length xs / n) xs) [
        | none ↦ none
        | some bs ↦
            some (accumulate (map (λ s. s.1) (run_all order (map (λ b. (b, default)) bs))) init)
      ]
