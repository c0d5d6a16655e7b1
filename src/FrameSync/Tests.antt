-- ===== src/FrameSync/Tests.antt =====
-- Two players, and a frame of a server with their inputs.
use notes_coding.Base.{ℕ, ◌≡◌, refl, arith, [], ◌∷◌}
use notes_coding.FrameSync.{
  at_work, Server, init, receive_input, work_off, work_all, frame, receives, tests, locks, works,
  Reach, start, later,
}
use notes_coding.FrameSync.Frames.{IsSynced, Reach-IsSynced}
use notes_coding.FrameSync.Late.{Later, Lost, late_input-Lost}

abbrev sent : Server ℕ
sent = receive_input 1 30 (receive_input 2 20 (receive_input 1 10 init))

abbrev framed : Server ℕ
framed = frame (record sent { place = at_work })

framed-Reach : Reach framed
unfolding receive_input
framed-Reach =
    later
      (later
        (later
          (later (later (later start (receives 1 10 refl)) (receives 2 20 refl))
            (receives 1 30 refl))
          (tests refl))
        (locks refl))
      (works refl (omega arith))

framed_processed : (framed.processed 1 ≡ 10 ∷ 30 ∷ []) × (framed.processed 2 ≡ 20 ∷ [])
unfolding receive_input work_off work_all frame
framed_processed = (refl, refl)

Reach-IsSynced_example : IsSynced framed
Reach-IsSynced_example = Reach-IsSynced framed-Reach

late_input-Lost_example :
    (s : Server ℕ) × Lost s 4 7 × ((g : Server ℕ) → Later s g → g.processed ≡ s.processed)
late_input-Lost_example = late_input-Lost 4 7
