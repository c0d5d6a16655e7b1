-- ===== src/FrameSync/Late.antt =====
-- An input between the last frame and the end of the server.
use notes_coding.Base.{ℕ, ◌≡◌, ◌∙◌, refl, arith, false, [], ◌∷◌, update_same}
use notes_coding.FrameSync.{
  at_test, at_work, at_end, Server, init, receive_input, work_all, frame, Step, receives, stops,
  tests, locks, works, wakes, Reach, start, later,
}

module _ {A : Type 0} where
  -- The server has ended, and the input of the player waits.
  pub record Lost (s : Server A) (player : ℕ) (input : A) : Type 0 where
    pub run : Reach s
    pub ended : s.place ≡ at_end
    pub waits : s.input_queue player ≡ input ∷ []
    pub never : s.processed player ≡ []

  -- The steps of a server whose thread has ended process nothing.
  end-kept :
      {s g : Server A}
      → s.place ≡ at_end
      → Step s g
      → (g.place ≡ at_end) × (g.processed ≡ s.processed)
  unfolding receive_input
  end-kept e (receives player input free) = (e, refl)
  end-kept e stops = (e, refl)
  end-kept e (tests at) = absurd cc
  end-kept e (locks at) = absurd cc
  end-kept e (works at fits) = absurd cc
  end-kept e (wakes at) = absurd cc

  -- What the server can come to.
  pub data Later (s : Server A) : Server A → Type 0 where
    now : Later s s
    then_step : {g h : Server A} → Later s g → Step g h → Later s h

  ended-kept :
      {s g : Server A}
      → s.place ≡ at_end
      → Later s g
      → (g.place ≡ at_end) × (g.processed ≡ s.processed)
  ended-kept e now = (e, refl)
  ended-kept e (then_step l step) =
      let (over, same) = ended-kept e l in
      let (over', same') = end-kept over step in (over', same' ∙ same)

  -- An input of any player can come when the last frame has ended and the server is told to stop: it is
  -- received, but the server ends without it, and nothing is processed in any steps after the
  -- end.
  pub late_input-Lost :
      (player : ℕ) (input : A)
      → (s : Server A) × Lost s player input
        × ((g : Server A) → Later s g → g.processed ≡ s.processed)
  unfolding frame work_all receive_input
  late_input-Lost player input =
      let woken : Server A = record (frame (record init { place = at_work })) {
        running = false;
        place = at_test;
      } in
      let run : Reach woken =
        later
          (later (later (later (later start (tests refl)) (locks refl)) (works refl (omega arith)))
            stops)
          (wakes refl) in
      let told : Server A = receive_input player input woken in
      let s : Server A = record told { place = at_end } in
      (
        s,
        record {
          run = later (later run (receives player input refl)) (tests refl);
          ended = refl;
          waits = update_same woken.input_queue player (input ∷ []);
          never = refl;
        },
        λ g l. (ended-kept refl l).1,
      )
