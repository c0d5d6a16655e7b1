-- ===== src/Alternate/Tests.antt =====
-- A string of two characters.
use notes_coding.Base.{ℕ, ◌≡◌, refl, none, some, List, [], ◌∷◌}
use notes_coding.Alternate.{
  Thread, test01, test02, State, init, test_loop, with_lock, Reach, tests, locks, start, later,
}
use notes_coding.Alternate.Turns.{in_turns, ended-all}

abbrev str : List ℕ
str = 97 ∷ 98 ∷ []

abbrev locked : Thread → State → State
locked t s = elim (with_lock str t s) [ none ↦ s | some g ↦ g ]

-- Both print, and the first thread ends.
abbrev one_printed : State
one_printed = locked test01 (test_loop str test01 init)

abbrev both_printed : State
both_printed = locked test02 (test_loop str test02 one_printed)

abbrev one_ended : State
one_ended = test_loop str test01 both_printed

one_ended-Reach : Reach str one_ended
unfolding test_loop with_lock
one_ended-Reach =
    later
      (later
        (later (later (later start (tests test01 refl)) (locks test01 {g = one_printed} refl refl))
          (tests test02 refl))
        (locks test02 {g = both_printed} refl refl))
      (tests test01 refl)

ended-all_example : one_ended.printed ≡ in_turns test01 str
unfolding test_loop with_lock
ended-all_example = ended-all str one_ended test01 one_ended-Reach refl
