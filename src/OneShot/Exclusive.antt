-- ===== src/OneShot/Exclusive.antt =====
-- One thread at a time for a socket.
use notes_coding.Base.{
  ℕ, ◌≡◌, ◌≢◌, inl, inr, refl, sym, ◌∙◌, ap, true, false, not, ◌&&◌, some, some-injective,
  none≢some, update, update_same, update_other, update_cases,
}
use notes_coding.OneShot.{
  State, init, addfd, connect, reported, dispatch, begin, connection, event, first_lines, turn,
  IsPrompt, PromptReach, prompt_start, prompt_later,
}
use notes_coding.OneShot.Invariant.{IsExclusive, apart_by, not_both}
use notes_coding.OneShot.Turns.{receive-IsExclusive}

init-IsExclusive : IsExclusive init
init-IsExclusive = record {
  opened = λ fd h. cc;
  flagged = λ fd h. cc;
  busy = λ i fd h. absurd (none≢some h);
  alone = λ i j fd h k. absurd (none≢some h);
  next = λ i h. cc;
  single = λ i j h k. cc;
}

connect-IsExclusive :
    (c : ℕ) (s : State) → IsExclusive s → s.open_fds c ≡ false → IsExclusive (connect c s)
unfolding connect addfd
connect-IsExclusive c s is shut = record {
  opened = λ fd h. elim (update_cases s.armed c true fd) [
    | inl (e, _) ↦ ap (update s.open_fds c true) e ∙ update_same s.open_fds c true
    | inr (ne, e) ↦ update_other s.open_fds c fd true ne ∙ is.opened fd (sym e ∙ h)
  ];
  flagged = λ fd h. elim (update_cases s.open_fds c true fd) [
    | inl (e, _) ↦ ap (update s.oneshot c true) e ∙ update_same s.oneshot c true
    | inr (ne, e) ↦ update_other s.oneshot c fd true ne ∙ is.flagged fd (sym e ∙ h)
  ];
  busy = λ i fd h.
      let (a, o) = is.busy i fd h in
      let ne : c ≢ fd = apart_by s.open_fds fd c o shut in
      (update_other s.armed c fd true ne ∙ a, update_other s.open_fds c fd true ne ∙ o);
  alone = is.alone;
  next = λ i h.
      let (a, o, f) = is.next i h in
      let ne : c ≢ s.sockfd = apart_by s.open_fds s.sockfd c o shut in
      (
        update_other s.armed c s.sockfd true ne ∙ a,
        update_other s.open_fds c s.sockfd true ne ∙ o,
        f,
      );
  single = is.single;
}

event-IsExclusive :
    (i fd : ℕ) (s : State)
    → IsExclusive s
    → s.armed fd ≡ true
    → ((j : ℕ) → s.starting j ≡ false)
    → IsExclusive (dispatch i fd (reported fd s))
unfolding dispatch
event-IsExclusive i fd s is on prompt =
    let off : (s.armed fd && not (s.oneshot fd)) ≡ false =
      rw (on, is.flagged fd (is.opened fd on)) refl in
    record {
      opened = λ x h. elim (update_cases s.armed fd (s.armed fd && not (s.oneshot fd)) x) [
        | inl (_, e) ↦ absurd (not_both h (e ∙ off))
        | inr (ne, e) ↦ is.opened x (sym e ∙ h)
      ];
      flagged = is.flagged;
      busy = λ j x h.
          let (a, o) = is.busy j x h in
          let ne : fd ≢ x = λ e. not_both on (ap s.armed e ∙ a) in
          (update_other s.armed fd x _ ne ∙ a, o);
      alone = is.alone;
      next = λ j h. (
        update_same s.armed fd _ ∙ off,
        is.opened fd on,
        λ k works. not_both on (is.busy k fd works).0,
      );
      single = λ j k h g. only i s prompt j h ∙ sym (only i s prompt k g);
    }
  where
    only :
        (i : ℕ) (s : State)
        → ((j : ℕ) → s.starting j ≡ false)
        → (j : ℕ) → update s.starting i true j ≡ true
        → j ≡ i
    only i s prompt j h = elim (update_cases s.starting i true j) [
      | inl (e, _) ↦ e
      | inr (_, e) ↦ absurd (not_both h (e ∙ prompt j))
    ]

begin-IsExclusive :
    (i : ℕ) (s : State) → IsExclusive s → s.starting i ≡ true → IsExclusive (begin i s)
unfolding begin
begin-IsExclusive i s is new =
    let (off, on, none_else) = is.next i new in
    record {
      opened = is.opened;
      flagged = is.flagged;
      busy = λ j fd h. elim (update_cases s.serving i (some s.sockfd) j) [
        | inl (_, e) ↦
            let here : s.sockfd ≡ fd = some-injective (sym e ∙ h) in
            (ap s.armed (sym here) ∙ off, ap s.open_fds (sym here) ∙ on)
        | inr (_, e) ↦ is.busy j fd (sym e ∙ h)
      ];
      alone = λ j k fd h g. elim (update_cases s.serving i (some s.sockfd) j) [
        | inl (ej, vj) ↦ elim (update_cases s.serving i (some s.sockfd) k) [
          | inl (ek, _) ↦ ej ∙ sym ek
          | inr (_, vk) ↦ absurd (none_else k (sym vk ∙ g ∙ sym h ∙ vj))
        ]
        | inr (_, vj) ↦ elim (update_cases s.serving i (some s.sockfd) k) [
          | inl (_, vk) ↦ absurd (none_else j (sym vj ∙ h ∙ sym g ∙ vk))
          | inr (_, vk) ↦ is.alone j k fd (sym vj ∙ h) (sym vk ∙ g)
        ]
      ];
      next = λ j h. absurd (nobody i s is new j h);
      single = λ j k h g. absurd (nobody i s is new j h);
    }
  where
    nobody :
        (i : ℕ) (s : State)
        → IsExclusive s
        → s.starting i ≡ true
        → (j : ℕ) → update s.starting i false j ≡ true
        → ⊥
    nobody i s is new j h = elim (update_cases s.starting i false j) [
      | inl (_, e) ↦ not_both h e
      | inr (ne, e) ↦ ne (is.single i j new (sym e ∙ h))
    ]

-- In every state of an execution in which each new thread begins before the next event is handled, a
-- socket has one thread at most, and while it has one epoll does not watch it.
pub PromptReach-IsExclusive : (s : State) → PromptReach s → IsExclusive s
unfolding IsPrompt
PromptReach-IsExclusive s prompt_start = init-IsExclusive
PromptReach-IsExclusive s (prompt_later {s = r} p (connection c shut) q) =
    connect-IsExclusive c r (PromptReach-IsExclusive r p) shut
PromptReach-IsExclusive s (prompt_later {s = r} p (event i fd on free idle) q) =
    event-IsExclusive i fd r (PromptReach-IsExclusive r p) on q
PromptReach-IsExclusive s (prompt_later {s = r} p (first_lines i new) q) =
    begin-IsExclusive i r (PromptReach-IsExclusive r p) new
PromptReach-IsExclusive s (prompt_later {s = r} p (turn i fd got works) q) =
    receive-IsExclusive i fd got r (PromptReach-IsExclusive r p) works
