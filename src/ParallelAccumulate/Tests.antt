-- ===== src/ParallelAccumulate/Tests.antt =====
-- A range of 60 numbers for two threads.
use notes_coding.Base.{
  ℕ, zero, suc, ◌+◌, ◌<◌, ◌≡◌, refl, arith, some, List, [], ◌∷◌, length, replicate,
}
use notes_coding.ParallelAccumulate.{
  num_threads, accumulate, blocks, run, run_all, parallel_accumulate,
}
use notes_coding.ParallelAccumulate.Order.{count}
use notes_coding.ParallelAccumulate.Blocks.{parallel_accumulate-accumulate}

abbrev numbers : List ℕ
numbers = 1 ∷ 2 ∷ replicate 58 3

abbrev second_first : List ℕ
second_first = 1 ∷ 0 ∷ []

once : (j : ℕ) → j < num_threads 0 (length numbers) → count j second_first ≡ 1
unfolding count
once zero h = refl
once (suc zero) h = refl
once (suc (suc j)) h = absurd (omega (arith, h))

parallel_total : parallel_accumulate (λ a b. a + b) 0 0 second_first numbers 5 ≡ some 182
unfolding parallel_accumulate run_all run blocks accumulate
parallel_total = refl

parallel_accumulate-accumulate_example :
    parallel_accumulate (λ a b. a + b) 0 0 second_first numbers 5
    ≡ some (accumulate (λ a b. a + b) 0 numbers 5)
parallel_accumulate-accumulate_example =
    parallel_accumulate-accumulate (λ a b. a + b) 0 (λ a b c. omega arith) (λ a. omega arith)
      (λ a. omega arith) 0 second_first numbers 5 (omega arith) once
