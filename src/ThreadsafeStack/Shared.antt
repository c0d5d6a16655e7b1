-- ===== src/ThreadsafeStack/Shared.antt =====
-- What the threads get.
use mathlib.Core.List as L
use mathlib.Core.List.{Perm, perm_middle}
use notes_coding.Base.{ℕ, ◌≡◌, refl, sym, subst, List, [], ◌∷◌, ◌++◌}
use notes_coding.ThreadsafeStack.{Stack, push, pop_from, pop, Reach, start, pushes, pops}

module _ {A : Type 0} where
  abbrev pub values : List (ℕ × A) → List A
  values [] = []
  values ((thread, x) ∷ xs) = x ∷ values xs

  pop_from-Perm :
      (thread : ℕ) (xs : List A) (s : Stack A)
      → s.elements ≡ xs
      → Perm (values s.popped ++ s.elements) s.pushed
      → Perm (values (pop_from thread xs s).popped ++ (pop_from thread xs s).elements) s.pushed
  pop_from-Perm thread [] s e p = p
  pop_from-Perm thread (x ∷ xs) s e p =
      L.Perm.trans (L.Perm.symm (perm_middle (values s.popped) xs))
        (subst (λ l. Perm (values s.popped ++ l) s.pushed) e p)

  pop_from-pushed :
      (thread : ℕ) (xs : List A) (s : Stack A) → (pop_from thread xs s).pushed ≡ s.pushed
  pop_from-pushed thread [] s = refl
  pop_from-pushed thread (x ∷ xs) s = refl

  -- In every run of any threads the values that were popped, by whichever thread, and those still in
  -- the stack are those that were pushed, each once.
  pub Reach-Perm : {s : Stack A} → Reach s → Perm (values s.popped ++ s.elements) s.pushed
  unfolding push pop
  Reach-Perm start = L.Perm.refl []
  Reach-Perm (pushes {s} x r) =
      L.Perm.trans (perm_middle (values s.popped) s.elements) (L.Perm.cons x (Reach-Perm r))
  Reach-Perm (pops {s} thread r) =
      subst
        (Perm
          (values (pop_from thread s.elements s).popped ++ (pop_from thread s.elements s).elements))
        (sym (pop_from-pushed thread s.elements s))
        (pop_from-Perm thread s.elements s refl (Reach-Perm r))
