-- ===== src/JoiningThread/Tests.antt =====
-- Objects 0, 1 and 2, and a scoped one, 7.
use notes_coding.Base.{refl, arith, some, none≢some, List, [], ◌∷◌, update}
use notes_coding.JoiningThread.{
  State, init, assign, Op, starts, detaches, ends, scope_ends, moves, assigns, swaps, scopes,
  apply_all, apply, start, join_if, destroy, join, detach, swap, move_construct, scoped_thread,
  destroy_scoped,
}
use notes_coding.JoiningThread.Owned.{IsOwned}
use notes_coding.JoiningThread.Runs.{Ends, apply_all-IsOwned}

init-IsOwned : IsOwned init
init-IsOwned = record {
  range = λ x k e. absurd (none≢some e);
  one = λ x y k e f. absurd (none≢some e);
  fate = λ k h. absurd (omega (arith, h));
  fresh = λ k h. (refl, refl);
}

abbrev program : List Op
program =
    starts 0
    ∷ starts 1
    ∷ moves 2 0
    ∷ assigns 2 1
    ∷ starts 0
    ∷ swaps 0 1
    ∷ scopes 7 1
    ∷ starts 5
    ∷ detaches 5
    ∷ scope_ends 7
    ∷ ends 0
    ∷ ends 1
    ∷ ends 2
    ∷ []

apply_all-IsOwned_example : Ends (apply_all program init)
unfolding start join detach join_if assign destroy swap move_construct scoped_thread destroy_scoped
    apply
apply_all-IsOwned_example = apply_all-IsOwned program init init-IsOwned (
  refl,
  (
    refl,
    (
      refl,
      (
        tt,
        (
          refl,
          (
            tt,
            (
              (refl, (λ q. omega (arith, q)), (2, refl)),
              (refl, ((3, refl), ((2, refl), (tt, (tt, (tt, tt)))))),
            ),
          ),
        ),
      ),
    ),
  ),
)

abbrev one_thread : State
one_thread = record init { t = update init.t 3 (some 0); started = 1 }
