-- ===== src/IdleServer/Idle.antt =====
-- The idle connections are closed.
use notes_coding.Base.{
  All-map, ℕ, ◌+◌, ◌<◌, ◌≤◌, ◌≡◌, inl, inr, ap, sym, ◌∙◌, subst, false, true, List, [], ◌∷◌, ◌++◌,
  map, arith, All, All-append_left, All-append_right, All-append, ltb, lt→ltb, le→not_ltb,
  Bool-cases, length, length-append,
}
use notes_coding.Memory.{Ptr, done}
use notes_coding.Memory.Chain.{has, Distinct}
use notes_coding.Memory.Unlink.{Distinct-split}
use notes_coding.Memory.Ends
use notes_coding.Memory.Ends.{Ends, ends}
use notes_coding.TimerList.{Timers, tick}
use notes_coding.TimerList.Spec.{Cell, Holds, IsSorted}
use notes_coding.TimerList.Tick.{call}
use notes_coding.TimerList.Due.{tick-Served}
use notes_coding.IdleServer.{Server, lift, run_calls, timer_handler}
use notes_coding.IdleServer.Found.{Found, Found-append}
use notes_coding.IdleServer.Serving.{Owned, idle_time, IsServing, lift-then, Owned-timers}
use notes_coding.IdleServer.Calls.{
  run_calls-users, run_calls-timers, run_calls-apart, run_calls-shut, run_calls-Found, All-Found,
  Owned-apart,
}

-- The timers `xs` have been looked at: the connections of those that expire at `now` or before are
-- closed, and the others are served as before.
pub record Swept (now : ℕ) (xs : List Cell) (g : Server) : Type 0 where
  pub stay : List Cell
  pub serving : IsServing now g stay
  pub open_late : All (λ x. g.open_fds x.1.user_data ≡ ltb now x.1.expire) xs
  pub shorter : length stay ≤ length xs

All-both :
    (P Q R : Cell → Type 0) (xs : List Cell)
    → ((x : Cell) → P x → Q x → R x)
    → All P xs
    → All Q xs
    → All R xs
All-both P Q R [] f a b = tt
All-both P Q R (x ∷ xs) f (p, a) (q, b) = (f x p q, All-both P Q R xs f a b)

module _ (now : ℕ) (s : Server) (ran stay : List Cell) (owned : All (Owned s) (ran ++ stay))
    (timed : (fd : ℕ) → s.open_fds fd ≡ true → Found (s.users fd).timer fd (ran ++ stay)) where
  abbrev closed : Server
  closed = run_calls (map call ran) s

  ran-Owned : All (Owned s) ran
  ran-Owned = All-append_left (Owned s) ran stay owned

  stay-Owned : All (Owned s) stay
  stay-Owned = All-append_right (Owned s) ran stay owned

  ran-number : All (λ x. (s.users x.1.user_data).sockfd ≡ x.1.user_data) ran
  ran-number = All-map (Owned s) _ ran (λ x o. o.number) ran-Owned

  far :
      (ws : List Cell)
      → ((a : Ptr) → has a ran ≡ true → has a ws ≡ false)
      → All (λ x. has x.0 ran ≡ false) ws
  far [] apart = tt
  far (x ∷ ws) apart = (
    elim (Bool-cases (has x.0 ran)) [
      | inl into ↦ absurd (ground (arith, apart x.0 into))
      | inr out ↦ out
    ],
    far ws (λ a i. ground (arith, apart a i)),
  )

  closed-stay :
      (ws : List Cell)
      → All (Owned s) ws
      → All (λ x. has x.0 ran ≡ false) ws
      → All (λ x. closed.open_fds x.1.user_data ≡ true) ws
  closed-stay [] a out = tt
  closed-stay (x ∷ ws) (o, a) (far_off, out) = (
    run_calls-apart ran s x.1.user_data ran-number (Owned-apart s ran x ran-Owned o far_off) ∙ o.on,
    closed-stay ws a out,
  )

  closed-Owned :
      (ws : List Cell)
      → All (Owned s) ws
      → All (λ x. closed.open_fds x.1.user_data ≡ true) ws
      → All (Owned closed) ws
  closed-Owned [] a b = tt
  closed-Owned (x ∷ ws) (o, a) (on, b) =
      let same : closed.users x.1.user_data ≡ s.users x.1.user_data =
        ap (λ f. f x.1.user_data) (run_calls-users (map call ran) s) in
      (
        record {
          points = ap (λ d. d.timer) same ∙ o.points;
          number = ap (λ d. d.sockfd) same ∙ o.number;
          on = on;
        },
        closed-Owned ws a b,
      )

  closed-timed : (fd : ℕ) → closed.open_fds fd ≡ true → Found (closed.users fd).timer fd stay
  closed-timed fd on = elim (Bool-cases (s.open_fds fd)) [
    | inl before ↦ elim (Found-append (s.users fd).timer fd ran stay (timed fd before)) [
      | inl there ↦
          absurd (ground (arith, on, run_calls-Found ran s (s.users fd).timer fd ran-number there))
      | inr here ↦
          subst (λ f. Found (f fd).timer fd stay) (sym (run_calls-users (map call ran) s)) here
    ]
    | inr shut ↦ absurd (ground (arith, on, run_calls-shut (map call ran) s fd shut))
  ]

  ran-shut :
      (ws : List Cell)
      → All (λ x. Found x.0 x.1.user_data ran) ws
      → All (λ x. closed.open_fds x.1.user_data ≡ false) ws
  ran-shut [] a = tt
  ran-shut (x ∷ ws) (f, a) = (run_calls-Found ran s x.0 x.1.user_data ran-number f, ran-shut ws a)

  Swept-closed :
      Distinct (ran ++ stay)
      → Holds s.timers stay
      → IsSorted stay
      → All (λ x. x.1.expire ≤ now + idle_time) stay
      → All (λ x. x.1.expire ≤ now) ran
      → All (λ x. now < x.1.expire) stay
      → Swept now (ran ++ stay) closed
  Swept-closed distinct holds sorted recent due early =
      let apart = (Distinct-split ran stay distinct).2 in
      let on : All (λ x. closed.open_fds x.1.user_data ≡ true) stay =
        closed-stay stay stay-Owned (far stay apart) in
      let shut : All (λ x. closed.open_fds x.1.user_data ≡ false) ran =
        ran-shut ran (All-Found ran) in
      record {
        stay = stay;
        serving = record {
          holds = subst (λ t. Holds t stay) (sym (run_calls-timers (map call ran) s)) holds;
          sorted = sorted;
          owned = closed-Owned stay stay-Owned on;
          timed = closed-timed;
          recent = recent;
        };
        open_late =
            All-append _ ran stay
              (All-both (λ x. closed.open_fds x.1.user_data ≡ false) (λ x. x.1.expire ≤ now) _ ran
                (λ x a b. a ∙ sym (le→not_ltb now x.1.expire b)) shut due)
              (All-both (λ x. closed.open_fds x.1.user_data ≡ true) (λ x. now < x.1.expire) _ stay
                (λ x a b. a ∙ sym (lt→ltb now x.1.expire b)) on early);
        shorter = omega (arith, length-append ran stay);
      }

-- `timer_handler()` ends without a fault, given a round for each timer and one more, and closes just
-- the connections whose timers expire by now; every other one keeps its timer in the list.
pub timer_handler-Swept :
    (k now : ℕ) (s : Server) (xs : List Cell)
    → IsServing now s xs
    → length xs < k
    → Ends (λ _ g. Swept now xs g) (timer_handler k now s)
unfolding timer_handler lift
timer_handler-Swept k now s xs is fuel =
    let reset : Timers = record (s.timers) { fields = record (s.timers.fields) { calls = [] } } in
    let reset-Holds : Holds reset xs = record {
      linked = is.holds.linked;
      distinct = is.holds.distinct;
      head = is.holds.head;
      tail = is.holds.tail;
    } in
    lift-then (record s { timers = reset }) (tick k now reset) (Swept now xs)
      (λ g. done tt (run_calls g.timers.fields.calls g))
      (Ends.weaken (tick-Served k now reset xs reset-Holds is.sorted fuel) λ _ t c.
        let g : Server = record s { timers = t } in
        let all : xs ≡ c.ran ++ c.stay = sym c.all in
        let owned : All (Owned g) (c.ran ++ c.stay) =
          subst (λ l. All (Owned g) l) all
            (All-map (Owned s) (Owned g) xs (Owned-timers s t) is.owned) in
        let timed : (fd : ℕ)
            → s.open_fds fd ≡ true
            → Found (s.users fd).timer fd (c.ran ++ c.stay) =
          subst (λ l. (fd : ℕ) → s.open_fds fd ≡ true → Found (s.users fd).timer fd l) all
            is.timed in
        let swept : Swept now xs (run_calls (map call c.ran) g) =
          subst (λ l. Swept now l (run_calls (map call c.ran) g)) c.all
            (Swept-closed now g c.ran c.stay owned timed
              (subst (λ l. Distinct l) all is.holds.distinct) c.holds c.sorted
              (All-append_right (λ x. x.1.expire ≤ now + idle_time) c.ran c.stay
                (subst (λ l. All (λ x. x.1.expire ≤ now + idle_time) l) all is.recent))
              c.ran_due c.stay_early) in
        subst (λ cs. Ends (λ _ g. Swept now xs g) (done tt (run_calls cs g))) (sym c.calls)
          (ends swept))
