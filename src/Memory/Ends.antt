-- ===== src/Memory/Ends.antt =====
-- Total correctness of a command: it faults nowhere, its rounds suffice, and `P` holds at the end.
use notes_coding.Memory.{Outcome, done, Cmd, after}

pub data Ends {S A : Type 0} (P : A → S → Type 0) : Outcome S A → Type 0 where
  ends : {a : A} {s : S} → P a s → Ends P (done a s)

module _ {S A : Type 0} {P : A → S → Type 0} where
  pub then :
      {B : Type 0} {Q : B → S → Type 0} {r : Outcome S A} {k : A → Cmd S B}
      → Ends P r
      → ((a : A) (s : S) → P a s → Ends Q (k a s))
      → Ends Q (after r k)
  then (ends p) rest = rest _ _ p

  pub weaken :
      {Q : A → S → Type 0} {r : Outcome S A}
      → Ends P r
      → ((a : A) (s : S) → P a s → Q a s)
      → Ends Q r
  weaken (ends p) f = ends (f _ _ p)
