-- ===== src/FrameSync/Frames.antt =====
-- The inputs are processed in order, and a frame leaves none.
use notes_coding.Base.{
  ℕ, ◌≡◌, ◌≢◌, inl, inr, refl, sym, ◌∙◌, ap, arith, Bool, true, false, [], ◌∷◌, ◌++◌, ◌==◌,
  if◌then◌else◌, Bool-cases, has, add_key, has-add_key, has-add_key_other,
}
use mathlib.Core.List.{append_assoc, append-nil}
use notes_coding.FrameSync.{
  at_lock, asleep, at_end, updating, broadcasting, Server, receive_input, work_all, frame, locked,
  Step, receives, stops, tests, locks, works, wakes, Reach, start, later,
}
use notes_coding.FrameSync.Work.{
  broadcasts, below, broadcasts-append, below-next, false≢true, WorkedAll, work_all-WorkedAll,
}

module _ {A : Type 0} where
  -- What a player has sent is what was processed and what waits, in order; a player with inputs is in
  -- the map; every frame so far was broadcast once, in order; and nothing waits after a frame.
  pub record IsSynced (s : Server A) : Type 0 where
    pub order : (p : ℕ) → s.processed p ++ s.input_queue p ≡ s.received p
    pub known : (p : ℕ) → has p s.players ≡ false → s.input_queue p ≡ []
    pub frames : broadcasts s.lines ≡ below s.current_frame
    pub done : s.place ≡ asleep → (p : ℕ) → s.input_queue p ≡ []

  frame-IsSynced : (s : Server A) → IsSynced s → IsSynced (frame s)
  unfolding frame
  frame-IsSynced s is =
      let t : Server A = work_all s.players s in
      let w : WorkedAll s t s.players = work_all-WorkedAll s.players s in
      let none_left : (p : ℕ) → t.input_queue p ≡ [] = λ p. elim (Bool-cases (has p s.players)) [
        | inl there ↦ w.empty p there
        | inr off ↦ w.others p (is.known p off)
      ] in
      record {
        order = λ p. w.order p ∙ is.order p ∙ sym (ap (λ f. f p) w.received);
        known = λ p h. none_left p;
        frames =
            broadcasts-append (t.lines ++ updating t.current_frame ∷ [])
              (broadcasting t.current_frame ∷ [])
            ∙ ap (λ l. l ++ t.current_frame ∷ [])
                (broadcasts-append t.lines (updating t.current_frame ∷ [])
                  ∙ append-nil (broadcasts t.lines)
                  ∙ w.broadcast
                  ∙ is.frames
                  ∙ ap below (sym w.current_frame))
            ∙ sym (below-next t.current_frame);
        done = λ e p. none_left p;
      }

  receive-IsSynced :
      (player : ℕ) (input : A) (s : Server A)
      → locked s.place ≡ false
      → IsSynced s
      → IsSynced (receive_input player input s)
  unfolding receive_input
  receive-IsSynced player input s free is = record {
    order = λ p. elim (Bool-cases (p == player)) [
      | inl here ↦ rw here (
          sym (append_assoc (s.processed p) (s.input_queue player) (input ∷ []))
          ∙ ap (λ l. l ++ input ∷ [])
              (let same : player ≡ p = ground arith in
                ap (λ q. s.processed p ++ s.input_queue q) same
                ∙ is.order p
                ∙ ap s.received (sym same)))
      | inr off ↦ rw off (is.order p)
    ];
    known = λ p h. elim (Bool-cases (p == player)) [
      | inl here ↦
          let same : player ≡ p = ground arith in
          absurd (
            false≢true (
              sym h
              ∙ ap (λ q. has q (add_key player s.players)) (sym same)
              ∙ has-add_key player s.players))
      | inr off ↦ rw off (is.known p (has-add_key_other p player s.players h))
    ];
    frames = is.frames;
    done = λ e. absurd (false≢true (sym free ∙ ap locked e));
  }

  Step-IsSynced : {s g : Server A} → IsSynced s → Step s g → IsSynced g
  Step-IsSynced {s} is (receives player input free) = receive-IsSynced player input s free is
  Step-IsSynced {s} is stops = record {
    order = is.order;
    known = is.known;
    frames = is.frames;
    done = is.done;
  }
  Step-IsSynced {s} is (tests at) = record {
    order = is.order;
    known = is.known;
    frames = is.frames;
    done = λ e. absurd (tested s.running e);
  }
    where
      tested : (b : Bool) → (if b then at_lock else at_end) ≢ asleep
      tested true e = cc
      tested false e = cc
  Step-IsSynced {s} is (locks at) = record {
    order = is.order;
    known = is.known;
    frames = is.frames;
    done = λ e. absurd cc;
  }
  Step-IsSynced {s} is (works at fits) = frame-IsSynced s is
  Step-IsSynced {s} is (wakes at) = record {
    order = is.order;
    known = is.known;
    frames = is.frames;
    done = λ e. absurd cc;
  }

  -- In every run in which the `int` `current_frame` does not overflow, which takes 2 ^ 31 frames, what a
  -- player has sent is what was processed of it and what waits, in the order in which it came, nothing
  -- twice and nothing lost; a player with inputs is in the map; every frame was broadcast once, in
  -- order; and nothing waits when a frame has ended.
  pub Reach-IsSynced : {s : Server A} → Reach s → IsSynced s
  Reach-IsSynced start = record {
    order = λ p. refl;
    known = λ p h. refl;
    frames = refl;
    done = λ e. absurd cc;
  }
  Reach-IsSynced (later r step) = Step-IsSynced (Reach-IsSynced r) step
