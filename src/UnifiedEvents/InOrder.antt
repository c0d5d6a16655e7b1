-- ===== src/UnifiedEvents/InOrder.antt =====
-- The signals are read in the order in which they were written.
use notes_coding.Base.{
  ℕ, ◌≡◌, inl, inr, refl, sym, ◌∙◌, ap, Bool, true, false, List, [], ◌∷◌, ◌++◌, ltb, Bool-cases,
  length, take, drop, append-take-drop,
}
use mathlib.Core.List.{append_assoc}
use notes_coding.UnifiedEvents.{
  signals_size, Signal, sighup, sigchld, sigterm, sigint, connection, signals, State, obey_all,
  read_signals, handle, sig_handler, Step, interrupt, waits, fails, next, Reach, start, later,
}

-- SIGTERM or SIGINT is among the signals.
abbrev pub asks_to_stop : List Signal → Bool
asks_to_stop [] = false
asks_to_stop (sighup ∷ sigs) = asks_to_stop sigs
asks_to_stop (sigchld ∷ sigs) = asks_to_stop sigs
asks_to_stop (sigterm ∷ sigs) = true
asks_to_stop (sigint ∷ sigs) = true

-- What was read and what waits is what was written, in order; the loop is to stop exactly when SIGTERM
-- or SIGINT was read; and the handler leaves `errno` alone.
pub record IsInOrder (errno : ℕ) (s : State) : Type 0 where
  pub order : s.handled ++ s.pipe ≡ s.written
  pub stop : s.stop_server ≡ asks_to_stop s.handled
  pub errno_kept : s.errno ≡ errno

obey_all-true : (xs : List Signal) → obey_all xs true ≡ true
obey_all-true [] = refl
obey_all-true (sighup ∷ xs) = obey_all-true xs
obey_all-true (sigchld ∷ xs) = obey_all-true xs
obey_all-true (sigterm ∷ xs) = obey_all-true xs
obey_all-true (sigint ∷ xs) = obey_all-true xs

obey_all-false : (xs : List Signal) → obey_all xs false ≡ asks_to_stop xs
obey_all-false [] = refl
obey_all-false (sighup ∷ xs) = obey_all-false xs
obey_all-false (sigchld ∷ xs) = obey_all-false xs
obey_all-false (sigterm ∷ xs) = obey_all-true xs
obey_all-false (sigint ∷ xs) = obey_all-true xs

-- The signals `ys` are obeyed after `xs`.
obey_all-asks_to_stop :
    (xs ys : List Signal) → obey_all ys (asks_to_stop xs) ≡ asks_to_stop (xs ++ ys)
obey_all-asks_to_stop [] ys = obey_all-false ys
obey_all-asks_to_stop (sighup ∷ xs) ys = obey_all-asks_to_stop xs ys
obey_all-asks_to_stop (sigchld ∷ xs) ys = obey_all-asks_to_stop xs ys
obey_all-asks_to_stop (sigterm ∷ xs) ys = obey_all-true ys
obey_all-asks_to_stop (sigint ∷ xs) ys = obey_all-true ys

module _ (room again : ℕ) {errno : ℕ} where
  Step-IsInOrder : {s g : State} → IsInOrder errno s → Step room again s g → IsInOrder errno g
  unfolding sig_handler handle read_signals
  Step-IsInOrder {s} is (interrupt sig) = elim (Bool-cases (ltb (length s.pipe) room)) [
    | inl e ↦ rw e (record {
      order = sym (append_assoc s.handled s.pipe (sig ∷ [])) ∙ ap (λ l. l ++ sig ∷ []) is.order;
      stop = is.stop;
      errno_kept = is.errno_kept;
    })
    | inr e ↦ rw e (record { order = is.order; stop = is.stop; errno_kept = is.errno_kept })
  ]
  Step-IsInOrder {s} is (waits before after on none_left) = record {
    order = is.order;
    stop = is.stop;
    errno_kept = is.errno_kept;
  }
  Step-IsInOrder {s} is (fails on none_left) = is
  Step-IsInOrder {s} is (next (connection connfd) es e) = record {
    order = is.order;
    stop = is.stop;
    errno_kept = is.errno_kept;
  }
  Step-IsInOrder {s} is (next signals es e) = record {
    order =
        append_assoc s.handled (take signals_size s.pipe) (drop signals_size s.pipe)
        ∙ ap (λ l. s.handled ++ l) (append-take-drop signals_size s.pipe)
        ∙ is.order;
    stop =
        ap (obey_all (take signals_size s.pipe)) is.stop
        ∙ obey_all-asks_to_stop s.handled (take signals_size s.pipe);
    errno_kept = is.errno_kept;
  }

  -- In every run the signals that were written to the pipe are read in this order, none twice, none
  -- left out; the loop is to stop exactly when SIGTERM or SIGINT is among those read; and no signal
  -- changes `errno`.
  pub Reach-IsInOrder : {s : State} → Reach room again errno s → IsInOrder errno s
  Reach-IsInOrder start = record { order = refl; stop = refl; errno_kept = refl }
  Reach-IsInOrder (later r step) = Step-IsInOrder (Reach-IsInOrder r) step
