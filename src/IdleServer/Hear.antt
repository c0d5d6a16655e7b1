-- ===== src/IdleServer/Hear.antt =====
-- Something can be read from a client.
use notes_coding.Base.{
  All-map, ℕ, ◌+◌, ◌≤◌, ◌≡◌, ◌≢◌, inl, inr, refl, ap, sym, ◌∙◌, subst, false, true, List, [], ◌∷◌,
  ◌++◌, arith, All, All-append, All-append_left, All-append_right, ◌==◌, Bool-cases, length,
  length-append, update, update_other,
}
use notes_coding.Memory.{Ptr, null}
use notes_coding.Memory.Chain.{has}
use notes_coding.Memory.Unlink.{Distinct-split, has-remove}
use notes_coding.Memory.Ends
use notes_coding.Memory.Ends.{Ends, ends}
use notes_coding.TimerList.{UtilTimer, Timers, put_off, del_timer}
use notes_coding.TimerList.Spec.{Cell, insert}
use notes_coding.TimerList.Delete.{del_timer-remove}
use notes_coding.TimerList.Order.{put_off-insert, IsSorted-remove}
use notes_coding.IdleServer.{
  Server, on_timers, cb_func, hang_up, hear, Received, bytes, end_of_stream, again, failed,
}
use notes_coding.IdleServer.Found.{
  Found, Found-unique, Found-right, Split, Found-Split, Found-insert_new, Found-insert_old,
  Found-remove, All-insert, length-insert,
}
use notes_coding.IdleServer.Serving.{Owned, Owned-timers, idle_time, IsServing, Serves, lift-Ends}

-- The timer of an open connection stands in the list, and a round of its own is given to each.
module _ (now k : ℕ) (s : Server) (ys zs : List Cell) (t : Ptr) (tv : UtilTimer)
    (is : IsServing now s (ys ++ (t, tv) ∷ zs)) where
  abbrev xs : List Cell
  xs = ys ++ (t, tv) ∷ zs

  abbrev fd : ℕ
  fd = tv.user_data

  abbrev deadline : ℕ
  deadline = now + idle_time

  abbrev later : UtilTimer
  later = record tv { expire = deadline }

  split_owned : Owned s (t, tv)
  split_owned = (All-append_right (Owned s) ys ((t, tv) ∷ zs) is.owned).0

  without : (P : Cell → Type 0) → All P xs → All P (ys ++ zs)
  without P a =
      All-append P ys zs (All-append_left P ys ((t, tv) ∷ zs) a)
        (All-append_right P ys ((t, tv) ∷ zs) a).1

  at_t : (f : ℕ) → Found t f xs → f ≡ fd
  at_t f found =
      Found-unique t f fd xs is.holds.distinct found
        (Found-right t fd ys ((t, tv) ∷ zs) (inl (refl, refl)))

  later-timed :
      (f : ℕ) → s.open_fds f ≡ true → Found (s.users f).timer f (insert (t, later) (ys ++ zs))
  later-timed f on = elim (Bool-cases ((s.users f).timer == t)) [
    | inl own ↦
        let e : (s.users f).timer ≡ t = ground arith in
        let same : f ≡ fd = at_t f (subst (λ p. Found p f xs) e (is.timed f on)) in
        subst (λ p. Found p f (insert (t, later) (ys ++ zs))) (sym e)
          (subst (λ n. Found t n (insert (t, later) (ys ++ zs))) (sym same)
            (Found-insert_new t later (ys ++ zs)))
    | inr other ↦
        let ne : (s.users f).timer ≢ t = ground arith in
        Found-insert_old (s.users f).timer f (t, later) (ys ++ zs)
          (Found-remove (s.users f).timer f ys t tv zs ne (is.timed f on))
  ]

  put_off-Serves :
      length xs ≤ k → Ends (λ _ g. Serves now xs g) (on_timers (put_off k t deadline) s)
  put_off-Serves fuel = lift-Ends s (Serves now xs) _ (
      Ends.weaken
        (put_off-insert k s.timers t tv ys zs deadline is.holds is.sorted
          (All-append_right (λ x. x.1.expire ≤ deadline) ys ((t, tv) ∷ zs) is.recent).0
          (omega (arith, length-append ys ((t, tv) ∷ zs), length-append ys zs)))
        λ _ g c. record {
          cells = insert (t, later) (ys ++ zs);
          serving = record {
            holds = c.0;
            sorted = c.1;
            owned = All-map (Owned s) (Owned (record s { timers = g })) _ (Owned-timers s g) (
                All-insert (Owned s) (t, later) (ys ++ zs)
                  (record {
                    points = split_owned.points;
                    number = split_owned.number;
                    on = split_owned.on;
                  })
                  (without (Owned s) is.owned));
            timed = later-timed;
            recent =
                All-insert (λ x. x.1.expire ≤ deadline) (t, later) (ys ++ zs) (omega arith)
                  (without (λ x. x.1.expire ≤ deadline) is.recent);
          };
          growth = omega (
            arith,
            length-insert (t, later) (ys ++ zs),
            length-append ys ((t, tv) ∷ zs),
            length-append ys zs,
          );
        })

  abbrev closed : Server
  closed = cb_func fd s

  closed-open : closed.open_fds ≡ update s.open_fds fd false
  unfolding cb_func
  closed-open = ap (λ n. update s.open_fds n false) split_owned.number

  abbrev hung_up : Timers → Server
  hung_up g = record s { open_fds = update s.open_fds fd false; timers = g }

  -- The timers of the others are those of other descriptors.
  hung_up-Owned :
      (g : Timers) (ws : List Cell)
      → has t ws ≡ false
      → All (Owned s) ws
      → All (Owned (hung_up g)) ws
  hung_up-Owned g [] out a = tt
  hung_up-Owned g (x ∷ ws) out (o, a) =
      let ne : fd ≢ x.1.user_data = λ e.
        absurd
          (ground (arith, sym split_owned.points ∙ ap (λ n. (s.users n).timer) e ∙ o.points)) in
      (
        record {
          points = o.points;
          number = o.number;
          on = update_other s.open_fds fd x.1.user_data false ne ∙ o.on;
        },
        hung_up-Owned g ws (ground arith) a,
      )

  hung_up-timed :
      (f : ℕ) → update s.open_fds fd false f ≡ true → Found (s.users f).timer f (ys ++ zs)
  hung_up-timed f on = elim (Bool-cases (f == fd)) [
    | inl same ↦
        let off : update s.open_fds fd false f ≡ false = rw same refl in
        absurd (ground (arith, off, on))
    | inr other ↦
        let ne : fd ≢ f = ground arith in
        let before : Found (s.users f).timer f xs =
          is.timed f (sym (update_other s.open_fds fd f false ne) ∙ on) in
        let apart : (s.users f).timer ≢ t =
          λ e. ne (sym (at_t f (subst (λ p. Found p f xs) e before))) in
        Found-remove (s.users f).timer f ys t tv zs apart before
  ]

  del_timer-Serves : Ends (λ _ g. Serves now xs g) (on_timers (del_timer t) (hung_up s.timers))
  del_timer-Serves = lift-Ends (hung_up s.timers) (Serves now xs) _ (
      Ends.weaken (del_timer-remove s.timers t tv ys zs is.holds) λ _ g c. record {
        cells = ys ++ zs;
        serving = record {
          holds = c.holds;
          sorted = IsSorted-remove ys (t, tv) zs is.sorted;
          owned =
              hung_up-Owned g (ys ++ zs) (has-remove ys (t, tv) zs is.holds.distinct)
                (without (Owned s) is.owned);
          timed = hung_up-timed;
          recent = without (λ x. x.1.expire ≤ deadline) is.recent;
        };
        growth = omega (arith, length-append ys ((t, tv) ∷ zs), length-append ys zs);
      })

  hang_up-Split : Ends (λ _ g. Serves now xs g) (hang_up fd s)
  unfolding hang_up cb_func
  hang_up-Split =
      let real : (t == null) ≡ false = (Distinct-split ys ((t, tv) ∷ zs) is.holds.distinct).1.0 in
      rw (split_owned.points, split_owned.number, real) del_timer-Serves

  hear-Split :
      (got : Received) → length xs ≤ k → Ends (λ _ g. Serves now xs g) (hear k fd got now s)
  unfolding hear
  hear-Split bytes fuel =
      let real : (t == null) ≡ false = (Distinct-split ys ((t, tv) ∷ zs) is.holds.distinct).1.0 in
      rw (split_owned.points, real) (put_off-Serves fuel)
  hear-Split end_of_stream fuel = hang_up-Split
  hear-Split again fuel = ends (record { cells = xs; serving = is; growth = omega arith })
  hear-Split failed fuel = hang_up-Split

-- When something can be read from an open connection, the server ends with its timer put off, taken
-- out or left, and still serves.
pub hear-Serves :
    (k now : ℕ) (s : Server) (xs : List Cell) (sockfd : ℕ) (got : Received)
    → IsServing now s xs
    → s.open_fds sockfd ≡ true
    → length xs ≤ k
    → Ends (λ _ g. Serves now xs g) (hear k sockfd got now s)
hear-Serves k now s xs sockfd got is on fuel =
    let p : Split (s.users sockfd).timer sockfd xs =
      Found-Split (s.users sockfd).timer sockfd xs (is.timed sockfd on) in
    let t : Ptr = (s.users sockfd).timer in
    subst (λ l. Ends (λ _ g. Serves now l g) (hear k sockfd got now s)) (sym p.whole)
      (subst (λ n. Ends (λ _ g. Serves now (p.ys ++ (t, p.tv) ∷ p.zs) g) (hear k n got now s))
        p.owner
        (hear-Split now k s p.ys p.zs t p.tv (subst (λ l. IsServing now s l) p.whole is) got
          (subst (λ l. length l ≤ k) p.whole fuel)))
