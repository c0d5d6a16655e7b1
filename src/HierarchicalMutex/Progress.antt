-- ===== src/HierarchicalMutex/Progress.antt =====
-- The threads never wait for each other in a circle.
use notes_coding.Base.{ℕ, zero, suc, ◌<◌, ◌≡◌, inl, inr, arith, none, some, Option-cases}
use notes_coding.HierarchicalMutex.{State, Reach}
use notes_coding.HierarchicalMutex.Order.{IsOrdered, Reach-IsOrdered}

-- From `m` on: its holder waits for a mutex, whose holder waits for a mutex, and so on to `n`.
pub data Chain (s : State) : ℕ → ℕ → Type 0 where
  link : {m n : ℕ} (j : ℕ) → s.owner m ≡ some j → s.waiting j ≡ some n → Chain s m n
  longer :
      {m n k : ℕ} (j : ℕ) → s.owner m ≡ some j → s.waiting j ≡ some n → Chain s n k → Chain s m k

-- A thread that can go on: one that waits for a free mutex, or one that holds a mutex and waits for
-- none.
pub data CanGo (s : State) : Type 0 where
  next_in : (i m : ℕ) → s.waiting i ≡ some m → s.owner m ≡ none → CanGo s
  holder : (j m : ℕ) → s.owner m ≡ some j → s.waiting j ≡ none → CanGo s

module _ (hierarchy_value : ℕ → ℕ) where
  waits-descend :
      (s : State) (j m n : ℕ)
      → IsOrdered hierarchy_value s
      → s.owner m ≡ some j
      → s.waiting j ≡ some n
      → hierarchy_value n < hierarchy_value m
  waits-descend s j m n o held waits = omega (arith, o.low j m held, o.below j n waits)

  -- In a state that the threads can reach, along a chain of mutexes the holder of each of which waits
  -- for the next the levels go down, so that no threads wait in a circle.
  pub Chain-descends :
      (s : State) (m n : ℕ)
      → Reach hierarchy_value s
      → Chain s m n
      → hierarchy_value n < hierarchy_value m
  Chain-descends s m n r (link j held waits) =
      waits-descend s j m n (Reach-IsOrdered hierarchy_value s r) held waits
  Chain-descends s m k r (longer {n} j held waits rest) = omega (
    arith,
    Chain-descends s n k r rest,
    waits-descend s j m n (Reach-IsOrdered hierarchy_value s r) held waits,
  )

  goes :
      (fuel : ℕ) (s : State) (i m : ℕ)
      → IsOrdered hierarchy_value s
      → s.waiting i ≡ some m
      → hierarchy_value m < fuel
      → CanGo s
  goes zero s i m o waits small = absurd (omega arith)
  goes (suc fuel) s i m o waits small = elim (Option-cases (s.owner m)) [
    | inl free ↦ next_in i m waits free
    | inr (j, held) ↦ elim (Option-cases (s.waiting j)) [
      | inl runs ↦ holder j m held runs
      | inr (n, also) ↦ goes fuel s j n o also (omega (arith, waits-descend s j m n o held also))
    ]
  ]

  -- While some thread waits, some thread can go on: one that waits for a mutex that is free, or one
  -- that holds a mutex and does not wait.
  pub Reach-CanGo : (s : State) (i m : ℕ) → Reach hierarchy_value s → s.waiting i ≡ some m → CanGo s
  Reach-CanGo s i m r waits =
      goes (suc (hierarchy_value m)) s i m (Reach-IsOrdered hierarchy_value s r) waits (omega arith)
