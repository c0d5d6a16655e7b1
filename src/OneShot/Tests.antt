-- ===== src/OneShot/Tests.antt =====
-- Two clients, at the descriptors 7 and 8.
use notes_coding.Base.{refl, arith}
use notes_coding.OneShot.{
  State, init, addfd, connect, reported, dispatch, begin, connection, event, first_lines, Reach,
  start, later, IsPrompt, PromptReach, prompt_start, prompt_later,
}
use notes_coding.OneShot.Invariant.{IsExclusive}
use notes_coding.OneShot.Exclusive.{PromptReach-IsExclusive}
use notes_coding.OneShot.Clash.{Clash, two_events, two_events-Clash}

abbrev two_clients : State
two_clients = connect 8 (connect 7 init)

two_clients-Reach : Reach two_clients
unfolding connect addfd
two_clients-Reach = later (later start (connection 7 refl)) (connection 8 refl)

two_events-Clash_example : Clash 1 2 7 8 (two_events 1 2 7 8 two_clients)
unfolding connect addfd
two_events-Clash_example =
    two_events-Clash 1 2 7 8 two_clients two_clients-Reach (omega arith) (omega arith) (refl, refl)
      refl (refl, refl) (refl, refl)

-- The thread 1 serves the client 7.
abbrev one_served : State
one_served = begin 1 (dispatch 1 7 (reported 7 two_clients))

one_served-PromptReach : PromptReach one_served
unfolding connect addfd dispatch IsPrompt
one_served-PromptReach =
    prompt_later
      (prompt_later
        (prompt_later (prompt_later prompt_start (connection 7 refl) tt) (connection 8 refl) tt)
        (event 1 7 refl refl refl) (λ j. refl))
      (first_lines 1 refl) tt

PromptReach-IsExclusive_example : IsExclusive one_served
PromptReach-IsExclusive_example = PromptReach-IsExclusive one_served one_served-PromptReach
