-- ===== src/Singleton/Tests.antt =====
-- Runs of two threads.
use notes_coding.Base.{ℕ, ◌≡◌, refl, Option, none, some, List, [], ◌∷◌}
use notes_coding.Singleton.{
  Version, guarded, double_checked, at_store, returned, State, init, advance, Reach, start, later,
}
use notes_coding.Singleton.Races.{IsSafe, guarded-IsSafe}

-- The threads that take their next steps, in this order; one that cannot go on is passed over.
abbrev taken : State → Option State → State
taken s none = s
taken s (some g) = g

abbrev run : Version → List ℕ → State → State
run v [] s = s
run v (i ∷ is) s = run v is (taken s (advance v i (s.place i) s))

taken-Reach :
    (v : Version) (i : ℕ) (s : State) (o : Option State)
    → Reach v s
    → advance v i (s.place i) s ≡ o
    → Reach v (taken s o)
taken-Reach v i s none r e = r
taken-Reach v i s (some g) r e = later i r e

run-Reach : (v : Version) (is : List ℕ) (s : State) → Reach v s → Reach v (run v is s)
run-Reach v [] s r = r
run-Reach v (i ∷ is) s r = run-Reach v is _ (taken-Reach v i s _ r refl)

-- Both threads see null; the second one comes too late.
abbrev race : List ℕ
race = 0 ∷ 1 ∷ 0 ∷ 1 ∷ 0 ∷ 0 ∷ 0 ∷ 1 ∷ 1 ∷ 1 ∷ 0 ∷ []

abbrev raced : State
raced = run double_checked race (init double_checked)

raced_made :
    (raced.made ≡ 1) × (raced.place 0 ≡ returned (some 0)) × (raced.place 1 ≡ returned (some 0))
unfolding advance
raced_made = (refl, refl, refl)

raced-Reach : Reach double_checked raced
raced-Reach = run-Reach double_checked race (init double_checked) start

-- The first thread is about to store the object.
abbrev stored : State
stored = run guarded (0 ∷ 1 ∷ 0 ∷ 0 ∷ []) (init guarded)

stored-Reach : Reach guarded stored
stored-Reach = run-Reach guarded (0 ∷ 1 ∷ 0 ∷ 0 ∷ []) (init guarded) start

stored_place : stored.place 0 ≡ at_store 0
unfolding advance
stored_place = refl

guarded-IsSafe_example : IsSafe stored
guarded-IsSafe_example = guarded-IsSafe stored-Reach
