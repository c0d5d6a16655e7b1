-- ===== src/OneShot/Turns.antt =====
-- A turn of a thread keeps its socket to itself, or gives it up.
use notes_coding.Base.{
  ℕ, ◌≡◌, ◌≢◌, inl, inr, refl, sym, ◌∙◌, ap, Bool, true, false, none, some, none≢some, update,
  update_other, update_cases,
}
use notes_coding.OneShot.{
  State, reset_oneshot, Received, bytes, end_of_stream, again, failed, receive,
}
use notes_coding.OneShot.Invariant.{IsExclusive, not_both}

-- The thread `i` gives up its socket, which ends up watched and open like this.
module _ (i fd : ℕ) (s : State) (is : IsExclusive s) (works : s.serving i ≡ some fd) where
  others_work : (j x : ℕ) → update s.serving i none j ≡ some x → (s.serving j ≡ some x) × (fd ≢ x)
  others_work j x h = elim (update_cases s.serving i none j) [
    | inl (_, e) ↦ absurd (none≢some (sym e ∙ h))
    | inr (ne, e) ↦ (sym e ∙ h, λ q. ne (is.alone i j x (works ∙ ap some q) (sym e ∙ h)))
  ]

  gives_up :
      (armed oneshot open_fds : ℕ → Bool)
      → ((x : ℕ) → fd ≢ x → armed x ≡ s.armed x)
      → ((x : ℕ) → fd ≢ x → open_fds x ≡ s.open_fds x)
      → ((x : ℕ) → armed x ≡ true → open_fds x ≡ true)
      → ((x : ℕ) → open_fds x ≡ true → oneshot x ≡ true)
      → IsExclusive (record s {
        armed = armed;
        oneshot = oneshot;
        open_fds = open_fds;
        serving = update s.serving i none;
      })
  gives_up armed oneshot open_fds same_armed same_open opened flagged = record {
    opened = opened;
    flagged = flagged;
    busy = λ j x h.
        let (h', ne) = others_work j x h in
        let (a, o) = is.busy j x h' in (same_armed x ne ∙ a, same_open x ne ∙ o);
    alone = λ j k x h g. is.alone j k x (others_work j x h).0 (others_work k x g).0;
    next = λ j h.
        let (a, o, f) = is.next j h in
        let ne : fd ≢ s.sockfd = λ q. f i (works ∙ ap some q) in
        (
          same_armed s.sockfd ne ∙ a,
          same_open s.sockfd ne ∙ o,
          λ k g. f k (others_work k s.sockfd g).0,
        );
    single = is.single;
  }

pub receive-IsExclusive :
    (i fd : ℕ) (got : Received) (s : State)
    → IsExclusive s
    → s.serving i ≡ some fd
    → IsExclusive (receive i fd got s)
unfolding receive reset_oneshot
receive-IsExclusive i fd (bytes xs) s is works = record {
  opened = is.opened;
  flagged = is.flagged;
  busy = is.busy;
  alone = is.alone;
  next = is.next;
  single = is.single;
}
receive-IsExclusive i fd end_of_stream s is works =
    gives_up i fd s is works (update s.armed fd false) s.oneshot (update s.open_fds fd false)
      (λ x ne. update_other s.armed fd x false ne) (λ x ne. update_other s.open_fds fd x false ne)
      (λ x h. elim (update_cases s.armed fd false x) [
        | inl (_, e) ↦ absurd (not_both h e)
        | inr (ne, e) ↦ update_other s.open_fds fd x false ne ∙ is.opened x (sym e ∙ h)
      ])
      (λ x h. elim (update_cases s.open_fds fd false x) [
        | inl (_, e) ↦ absurd (not_both h e)
        | inr (_, e) ↦ is.flagged x (sym e ∙ h)
      ])
receive-IsExclusive i fd again s is works =
    gives_up i fd s is works (update s.armed fd true) (update s.oneshot fd true) s.open_fds
      (λ x ne. update_other s.armed fd x true ne) (λ x ne. refl)
      (λ x h. elim (update_cases s.armed fd true x) [
        | inl (e, _) ↦ ap s.open_fds e ∙ (is.busy i fd works).1
        | inr (_, e) ↦ is.opened x (sym e ∙ h)
      ])
      (λ x h. elim (update_cases s.oneshot fd true x) [
        | inl (_, e) ↦ e
        | inr (_, e) ↦ e ∙ is.flagged x h
      ])
receive-IsExclusive i fd failed s is works = is
