-- ===== src/TimerList/Due.antt =====
-- `tick` on an ascending list.
use notes_coding.Base.{
  ℕ, ◌≤◌, ◌<◌, ◌≡◌, refl, ap, inl, inr, false, none, List, [], ◌∷◌, ◌++◌, map, arith, ltb,
  not_ltb→le, ltb→lt, Bool-cases, All, length,
}
use notes_coding.Memory.{Ptr}
use notes_coding.Memory.Chain.{has}
use notes_coding.Memory.Ends
use notes_coding.Memory.Ends.{Ends}
use notes_coding.TimerList.{Timers, tick}
use notes_coding.TimerList.Spec.{Cell, Holds, IsSorted}
use notes_coding.TimerList.Tick.{due, pending, call, tick-Ticked}

later-pending :
    (now n : ℕ) (xs : List Cell)
    → now < n
    → All (λ y. n ≤ y.1.expire) xs
    → All (λ y. now < y.1.expire) xs
later-pending now n [] h a = tt
later-pending now n (x ∷ xs) h a = (omega arith, later-pending now n xs h a.1)

due-pending :
    (now : ℕ) (xs : List Cell)
    → IsSorted xs
    → (due now xs ++ pending now xs ≡ xs)
      × All (λ x. x.1.expire ≤ now) (due now xs)
      × All (λ x. now < x.1.expire) (pending now xs)
      × IsSorted (pending now xs)
unfolding due pending
due-pending now [] s = (refl, tt, tt, tt)
due-pending now (x ∷ xs) s = elim (Bool-cases (ltb now x.1.expire)) [
  | inl early ↦
      rw early
        (refl, tt, (ltb→lt _ _ early, later-pending now x.1.expire xs (ltb→lt _ _ early) s.0), s)
  | inr over ↦
      let (e, a, b, o) = due-pending now xs s.1 in
      rw over (ap (λ l. x ∷ l) e, (not_ltb→le _ _ over, a), b, o)
]

-- The timers `xs` of the list split into those that have run and been freed, and those that stay.
pub record Served (now : ℕ) (s g : Timers) (xs : List Cell) : Type 0 where
  pub ran : List Cell
  pub stay : List Cell
  pub all : ran ++ stay ≡ xs
  pub ran_due : All (λ x. x.1.expire ≤ now) ran
  pub stay_early : All (λ x. now < x.1.expire) stay
  pub holds : Holds g stay
  pub sorted : IsSorted stay
  pub calls : g.fields.calls ≡ s.fields.calls ++ map call ran
  pub freed : All (λ x. g.nodes x.0 ≡ none) ran
  pub same : (a : Ptr) → has a xs ≡ false → g.nodes a ≡ s.nodes a

-- On an ascending list, given rounds for it and one more, `tick` calls the callback of every timer
-- that expires at `now` or before, once, in list order and with its client data, frees these timers
-- and no other, and leaves the ones that expire later as an ascending list.
pub tick-Served :
    (k now : ℕ) (s : Timers) (xs : List Cell)
    → Holds s xs
    → IsSorted xs
    → length xs < k
    → Ends (λ _ g. Served now s g xs) (tick k now s)
tick-Served k now s xs is sorted fuel = Ends.weaken (tick-Ticked now k s xs is fuel) λ _ g t.
    let (e, a, b, o) = due-pending now xs sorted in
    record {
      ran = due now xs;
      stay = pending now xs;
      all = e;
      ran_due = a;
      stay_early = b;
      holds = t.holds;
      sorted = o;
      calls = t.calls;
      freed = t.freed;
      same = t.same;
    }
