-- ===== src/UnifiedEvents/Wakes.antt =====
-- A pipe that `signals` holds whole is always read to its end.
use notes_coding.Base.{
  ℕ, ◌≡◌, ◌≢◌, inl, inr, refl, sym, ◌∙◌, ap, Bool, true, false, List, [], ◌∷◌, ◌++◌, ltb,
  Bool-cases, length, drop, drop-all, length-append, ◌≤◌, arith, ◌⊎◌,
}
use mathlib.Core.List.{append-nil}
use notes_coding.UnifiedEvents.{
  signals_size, Event, connection, signals, State, read_signals, handle, reported, sig_handler,
  Step, interrupt, waits, fails, next, Reach, start, later,
}
use notes_coding.UnifiedEvents.InOrder.{asks_to_stop, IsInOrder, Reach-IsInOrder}

false≢true : false ≢ true
false≢true e = cc

-- The pipe is among the events.
abbrev has_signals : List Event → Bool
has_signals [] = false
has_signals (connection connfd ∷ es) = has_signals es
has_signals (signals ∷ es) = true

has_signals-reported : (before after : List ℕ) → has_signals (reported true before after) ≡ true
has_signals-reported [] after = refl
has_signals-reported (fd ∷ before) after = has_signals-reported before after

-- The pipe is within its room, and the loop knows of what waits in it.
pub record IsWoken (room : ℕ) (s : State) : Type 0 where
  pub small : length s.pipe ≤ room
  pub known : (s.pipe ≡ []) ⊎ ((s.edge ≡ true) ⊎ (has_signals s.events ≡ true))

module _ (room again : ℕ) (fits : room ≤ signals_size) where
  Step-IsWoken : {s g : State} → IsWoken room s → Step room again s g → IsWoken room g
  unfolding sig_handler handle read_signals
  Step-IsWoken {s} is (interrupt sig) = elim (Bool-cases (ltb (length s.pipe) room)) [
    | inl e ↦
        rw e (record {
          small = ground (arith, length-append s.pipe (sig ∷ []));
          known = inr (inl refl);
        })
    | inr e ↦ rw e (record { small = is.small; known = is.known })
  ]
  Step-IsWoken {s} is (waits before after on none_left) = record {
    small = is.small;
    known = elim is.known [
      | inl empty ↦ inl empty
      | inr (inl e) ↦ inr (
          inr
            (ap (λ b. has_signals (reported b before after)) e ∙ has_signals-reported before after))
      | inr (inr there) ↦ absurd (false≢true (sym (ap has_signals none_left) ∙ there))
    ];
  }
  Step-IsWoken {s} is (fails on none_left) = is
  Step-IsWoken {s} is (next (connection connfd) es e) = record {
    small = is.small;
    known = elim is.known [
      | inl empty ↦ inl empty
      | inr (inl edge) ↦ inr (inl edge)
      | inr (inr there) ↦ inr (inr (sym (ap has_signals e) ∙ there))
    ];
  }
  Step-IsWoken {s} is (next signals es e) =
      let empty : drop signals_size s.pipe ≡ [] =
        drop-all signals_size s.pipe (omega (arith, is.small, fits)) in
      record { small = omega (arith, ap length empty); known = inl empty }

  Reach-IsWoken : {errno : ℕ} {s : State} → Reach room again errno s → IsWoken room s
  Reach-IsWoken start = record { small = omega arith; known = inl refl }
  Reach-IsWoken (later r step) = Step-IsWoken (Reach-IsWoken r) step

  -- With a pipe of at most 1024 bytes, whenever the loop waits with nothing to do it has read every
  -- signal that was written to the pipe, and is to stop exactly when SIGTERM or SIGINT is among
  -- these.
  pub Reach-all_read :
      {errno : ℕ} {s : State}
      → Reach room again errno s
      → s.events ≡ []
      → s.edge ≡ false
      → (s.handled ≡ s.written) × (s.stop_server ≡ asks_to_stop s.written)
  Reach-all_read {errno} {s} r none_left quiet =
      let in_order : IsInOrder errno s = Reach-IsInOrder room again r in
      let empty : s.pipe ≡ [] = elim ((Reach-IsWoken r).known) [
        | inl e ↦ e
        | inr (inl edge) ↦ absurd (false≢true (sym quiet ∙ edge))
        | inr (inr there) ↦ absurd (false≢true (sym (ap has_signals none_left) ∙ there))
      ] in
      let same : s.handled ≡ s.written =
        sym (append-nil s.handled) ∙ ap (λ l. s.handled ++ l) (sym empty) ∙ in_order.order in
      (same, in_order.stop ∙ ap asks_to_stop same)
