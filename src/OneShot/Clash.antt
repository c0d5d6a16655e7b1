-- ===== src/OneShot/Clash.antt =====
-- Two events that are handled before their threads begin.
use notes_coding.Base.{
  ℕ, ◌≡◌, ◌≢◌, refl, sym, ◌∙◌, true, false, not, ◌&&◌, none, some, update_same, update_other,
}
use notes_coding.OneShot.{State, reported, dispatch, begin, event, first_lines, Reach, later}

-- Both threads serve the socket `b`, and `a`, which has had an event too, is not watched any more.
pub record Clash (i j a b : ℕ) (g : State) : Type 0 where
  pub reach : Reach g
  pub first : g.serving i ≡ some b
  pub second : g.serving j ≡ some b
  pub lost : g.armed a ≡ false

-- The events of `a` and of `b` are handled, then the threads `i` and `j` begin.
abbrev pub two_events : (i j a b : ℕ) → State → State
two_events i j a b s = begin j (begin i (dispatch j b (reported b (dispatch i a (reported a s)))))

-- When the events of two watched oneshot sockets are handled before the threads that are made for
-- them begin, both threads serve the second socket, and the first is watched no more.
pub two_events-Clash :
    (i j a b : ℕ) (s : State)
    → Reach s
    → i ≢ j
    → a ≢ b
    → (s.armed a ≡ true) × (s.oneshot a ≡ true)
    → s.armed b ≡ true
    → (s.starting i ≡ false) × (s.serving i ≡ none)
    → (s.starting j ≡ false) × (s.serving j ≡ none)
    → Clash i j a b (two_events i j a b s)
unfolding dispatch begin
two_events-Clash i j a b s r ij ab on_a on_b free_i free_j =
    let s1 : State = dispatch i a (reported a s) in
    let s2 : State = dispatch j b (reported b s1) in
    let still : s1.armed b ≡ true = update_other s.armed a b _ ab ∙ on_b in
    let new_j : s1.starting j ≡ false = update_other s.starting i j true ij ∙ free_j.0 in
    let i_new : s2.starting i ≡ true =
      update_other s1.starting j i true (λ e. ij (sym e)) ∙ update_same s.starting i true in
    let j_new : (begin i s2).starting j ≡ true =
      update_other s2.starting i j false ij ∙ update_same s1.starting j true in
    let off : (s.armed a && not (s.oneshot a)) ≡ false = rw (on_a.0, on_a.1) refl in
    record {
      reach =
          later
            (later
              (later (later r (event i a on_a.0 free_i.0 free_i.1))
                (event j b still new_j free_j.1))
              (first_lines i i_new))
            (first_lines j j_new);
      first =
          update_other (begin i s2).serving j i (some b) (λ e. ij (sym e))
          ∙ update_same s2.serving i (some b);
      second = update_same (begin i s2).serving j (some b);
      lost = update_other s1.armed b a _ (λ e. ab (sym e)) ∙ update_same s.armed a _ ∙ off;
    }
