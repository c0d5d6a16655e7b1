-- ===== src/ThreadsafeStack/Tests.antt =====
-- Two threads that pop three times after two pushes.
use notes_coding.Base.{ℕ, ◌≡◌, refl, [], ◌∷◌}
use notes_coding.ThreadsafeStack.{Stack, new_stack, push, pop}

abbrev used : Stack ℕ
used = pop 1 (pop 2 (pop 1 (push 5 (push 4 new_stack))))

used_popped : (used.popped ≡ (2, 4) ∷ (1, 5) ∷ []) × (used.failures ≡ 1)
unfolding push pop
used_popped = (refl, refl)
