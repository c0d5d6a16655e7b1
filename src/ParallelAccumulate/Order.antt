-- ===== src/ParallelAccumulate/Order.antt =====
-- The order in which the threads do their work does not matter.
use notes_coding.Base.{
  ℕ, zero, suc, ◌<◌, ◌≡◌, refl, ap, ◌∙◌, arith, false, List, [], ◌∷◌, map, length, ◌==◌,
  if◌then◌else◌,
}
use notes_coding.ParallelAccumulate.{accumulate_block, run, run_all}

-- How often `j` is in the list.
unfoldable pub count : ℕ → List ℕ → ℕ
count j [] = 0
count j (i ∷ order) = let rest : ℕ = count j order in if j == i then suc rest else rest

-- What the threads but the first do.
others : List ℕ → List ℕ
others [] = []
others (zero ∷ order) = others order
others (suc i ∷ order) = i ∷ others order

count-others : (j : ℕ) (order : List ℕ) → count j (others order) ≡ count (suc j) order
unfolding count others
count-others j [] = refl
count-others j (zero ∷ order) = ground (arith, count-others j order)
count-others j (suc i ∷ order) = ground (arith, count-others j order)

module _ {T : Type 0} (add : T → T → T) (default : T) where
  times : ℕ → List T × T → List T × T
  times zero s = s
  times (suc n) s = times n (accumulate_block add default s)

  run_all-cons :
      (order : List ℕ) (s : List T × T) (slots : List (List T × T))
      → run_all add default order (s ∷ slots)
        ≡ times (count 0 order) s ∷ run_all add default (others order) slots
  unfolding run_all run count others times
  run_all-cons [] s slots = refl
  run_all-cons (zero ∷ order) s slots = run_all-cons order (accumulate_block add default s) slots
  run_all-cons (suc i ∷ order) s slots =
      let miss : (0 == suc i) ≡ false = ground arith in
      rw miss (run_all-cons order s (run add default i slots))

  run_all-nil : (order : List ℕ) → run_all add default order [] ≡ []
  unfolding run_all run
  run_all-nil [] = refl
  run_all-nil (i ∷ order) = run_all-nil order

  -- When each thread does its work once, each result is that of its own block.
  pub run_all-map :
      (order : List ℕ) (slots : List (List T × T))
      → ((j : ℕ) → j < length slots → count j order ≡ 1)
      → run_all add default order slots ≡ map (accumulate_block add default) slots
  unfolding run_all times
  run_all-map order [] once = run_all-nil order
  run_all-map order (s ∷ slots) once =
      run_all-cons order s slots
      ∙ ap (λ n. times n s ∷ run_all add default (others order) slots) (once 0 (omega arith))
      ∙ ap (λ l. accumulate_block add default s ∷ l)
          (run_all-map (others order) slots
            (λ j h. count-others j order ∙ once (suc j) (omega (arith, h))))
