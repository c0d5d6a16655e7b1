-- ===== src/TimerList/Insert.antt =====
-- `addTimer(timer)`, on its branches.
use notes_coding.Base.{
  ℕ, ◌≤◌, ◌≡◌, refl, subst, inl, inr, true, false, some, List, [], ◌∷◌, arith, ltb, ◌==◌,
  Bool-cases, length,
}
use notes_coding.Memory.{Ptr, null, write}
use notes_coding.Memory.Access.{load_then, next_then, prev_then}
use notes_coding.Memory.Chain.{node, has, first, last, Distinct, Linked, frame}
use notes_coding.Memory.Ends
use notes_coding.Memory.Ends.{Ends, ends}
use notes_coding.TimerList.{UtilTimer, Timers, add_timer}
use notes_coding.TimerList.Spec.{
  Cell, EndsAt, Holds, headed, headed-first, insert, has-insert, Distinct-insert,
}
use notes_coding.TimerList.Add.{Placed, add_timer_after-Placed}

-- The list holds `ys`, no callback has run, and only the cells `xs` and `t` have been written.
pub record Changed (s g : Timers) (t : Ptr) (xs ys : List Cell) : Type 0 where
  pub holds : Holds g ys
  pub calls : g.fields.calls ≡ s.fields.calls
  pub same : (a : Ptr) → has a xs ≡ false → (a == t) ≡ false → g.nodes a ≡ s.nodes a

-- What the walk leaves is the whole list, if it began at the head.
pub Placed-Changed :
    (s g : Timers) (t p : Ptr) (tv v : UtilTimer) (xs : List Cell)
    → (t == null) ≡ false
    → has t ((p, v) ∷ xs) ≡ false
    → Distinct ((p, v) ∷ xs)
    → Placed (headed s p) g null t ((p, v) ∷ xs) ((p, v) ∷ insert (t, tv) xs)
    → Changed s g t ((p, v) ∷ xs) ((p, v) ∷ insert (t, tv) xs)
Placed-Changed s g t p tv v xs real out d r = record {
  holds = record {
    linked = r.linked;
    distinct = (
      d.0,
      ground (arith, has-insert p (t, tv) xs),
      Distinct-insert (t, tv) xs real (ground arith) d.2,
    );
    head = r.head;
    tail = r.tail;
  };
  calls = r.calls;
  same = r.same;
}

module _ (k : ℕ) (s : Timers) (t : Ptr) (tv : UtilTimer) (real : (t == null) ≡ false)
    (held : s.nodes t ≡ some (node tv null null)) where
  add_front :
      (p : Ptr) (v : UtilTimer) (xs : List Cell)
      → ltb tv.expire v.expire ≡ true
      → has t ((p, v) ∷ xs) ≡ false
      → Linked s.nodes null ((p, v) ∷ xs) null
      → Distinct ((p, v) ∷ xs)
      → s.fields.tail ≡ last p xs
      → Ends
          (λ _ g. Changed s g t ((p, v) ∷ xs) ((t, tv) ∷ (p, v) ∷ xs))
          (add_timer k t (headed s p))
  unfolding add_timer write
  add_front p v xs before out l d e =
      rw (real, d.0)
        (load_then _ _ _ (node tv null null) real held (
          load_then _ _ _ (node v null (first xs null)) d.0 l.0 (
            rw before (
              next_then _ _ _ _ (node tv null null) real held (
                prev_then _ _ _ _ (node v null (first xs null)) d.0 (ground arith) (
                  ends (record {
                    holds = record {
                      linked =
                          (ground arith, (ground arith, frame _ _ p xs null l.1 (ground arith)));
                      distinct = (real, out, d);
                      head = refl;
                      tail = e;
                    };
                    calls = refl;
                    same = ground arith;
                  })))))))

  add_headed :
      (xs : List Cell)
      → has t xs ≡ false
      → Linked s.nodes null xs null
      → Distinct xs
      → EndsAt xs s.fields.tail
      → length xs ≤ k
      → Ends
          (λ _ g. Changed s g t xs (insert (t, tv) xs))
          (add_timer k t (headed s (first xs null)))
  unfolding add_timer insert
  add_headed [] out l d e fuel = rw real (
      ends (record {
        holds = record {
          linked = (held, tt);
          distinct = (real, refl, tt);
          head = refl;
          tail = refl;
        };
        calls = refl;
        same = λ a o at. refl;
      }))
  add_headed ((p, v) ∷ xs) out l d e fuel = elim (Bool-cases (ltb tv.expire v.expire)) [
    | inl before ↦ rw before (add_front p v xs before out l d e)
    | inr after ↦
        rw (real, d.0)
          (load_then _ _ _ (node tv null null) real held (
            load_then _ _ _ (node v null (first xs null)) d.0 l.0 (
              rw after (
                Ends.weaken
                  (add_timer_after-Placed k (headed s p) t p null null null tv v xs real d out l e
                    held (omega arith))
                  λ _ g. Placed-Changed s g t p tv v xs real out d))))
  ]

  -- Given a timer with null links that is not in the list, and rounds for its length, `addTimer`
  -- puts the timer before the first one that expires later (at the end, if there is none), keeps
  -- both link directions, `head` and `tail` right, and writes to no node outside the list.
  pub add_timer-insert :
      (xs : List Cell)
      → Holds s xs
      → has t xs ≡ false
      → length xs ≤ k
      → Ends (λ _ g. Changed s g t xs (insert (t, tv) xs)) (add_timer k t s)
  add_timer-insert xs is out fuel =
      subst (λ u. Ends (λ _ g. Changed s g t xs (insert (t, tv) xs)) (add_timer k t u))
        (headed-first s xs is) (add_headed xs out is.linked is.distinct is.tail fuel)
