-- ===== src/TimerList/Tick.antt =====
-- The loop of `tick`.
use mathlib.Core.List.{append_assoc, append-nil}
use notes_coding.Base.{
  ℕ, zero, suc, ◌<◌, ◌≡◌, refl, ap, sym, ◌∙◌, subst, inl, inr, true, false, none, List, [], ◌∷◌,
  ◌++◌, map, arith, ltb, Bool-cases, All, if◌then◌else◌, length,
}
use notes_coding.Memory.{Ptr, null}
use notes_coding.Memory.Access.{load_then, prev_then, delete_then}
use notes_coding.Memory.Chain.{
  node, has, first, Distinct, Linked, frame-write, write_self, write_other, relink_first,
}
use notes_coding.Memory.Unlink.{not-has_head, not-has_tail}
use notes_coding.Memory.Ends
use notes_coding.Memory.Ends.{Ends, ends}
use notes_coding.TimerList.{UtilTimer, Timers, call_back, retire, tick_loop, tick}
use notes_coding.TimerList.Spec.{Cell, EndsAt, Holds, headed, headed-first}
use notes_coding.TimerList.Delete.{Deleted}

-- The timers at the front whose time has come, and those behind them.
unfoldable pub due : ℕ → List Cell → List Cell
due now [] = []
due now (x ∷ xs) = if ltb now x.1.expire then [] else x ∷ due now xs

unfoldable pub pending : ℕ → List Cell → List Cell
pending now [] = []
pending now (x ∷ xs) = if ltb now x.1.expire then x ∷ xs else pending now xs

abbrev pub call : Cell → ℕ × ℕ
call x = (x.1.cb_func, x.1.user_data)

module _ (s : Timers) (p : Ptr) (v : UtilTimer) where
  retire-Deleted :
      (xs : List Cell)
      → Distinct ((p, v) ∷ xs)
      → Linked s.nodes null ((p, v) ∷ xs) null
      → EndsAt ((p, v) ∷ xs) s.fields.tail
      → Ends (λ r g. (r ≡ first xs null) × Deleted s g p ((p, v) ∷ xs) xs) (retire p s)
  unfolding retire
  retire-Deleted [] d l e = load_then _ _ _ (node v null null) d.0 l.0 (
      delete_then _ _ _ (node v null null) d.0 l.0 (
        ends (
          refl,
          record {
            holds = record { linked = tt; distinct = tt; head = refl; tail = tt };
            calls = refl;
            freed = write_self s.nodes p none;
            same = λ a o. write_other s.nodes p a none (not-has_head a (p, v) [] o);
          },
        )))
  retire-Deleted ((q, w) ∷ xs) d l e =
      let pq = not-has_head p (q, w) xs d.1 in
      load_then _ _ _ (node v null q) d.0 l.0 (
        rw d.2.0 (
          prev_then _ _ _ _ (node w p (first xs null)) d.2.0 l.1.0 (
            delete_then _ _ _ (node v null q) d.0 (write_other s.nodes q p _ pq ∙ l.0) (
              ends (
                refl,
                record {
                  holds = record {
                    linked =
                        frame-write _ null ((q, w) ∷ xs) null p none
                          (relink_first s.nodes p null q w xs null d.2.1 l.1) d.1;
                    distinct = d.2;
                    head = refl;
                    tail = e;
                  };
                  calls = refl;
                  freed = write_self _ p none;
                  same = λ a o.
                      write_other _ p a none (not-has_head a (p, v) ((q, w) ∷ xs) o)
                      ∙ write_other s.nodes q a _
                          (not-has_head a (q, w) xs (not-has_tail a (p, v) ((q, w) ∷ xs) o));
                },
              )))))

-- After a tick: the due timers have been called in order and freed, and the others are the list.
pub record Ticked (now : ℕ) (s g : Timers) (xs : List Cell) : Type 0 where
  pub holds : Holds g (pending now xs)
  pub calls : g.fields.calls ≡ s.fields.calls ++ map call (due now xs)
  pub freed : All (λ x. g.nodes x.0 ≡ none) (due now xs)
  pub same : (a : Ptr) → has a xs ≡ false → g.nodes a ≡ s.nodes a

module _ (now : ℕ) where
  abbrev called : Timers → UtilTimer → Timers
  called s v = record s {
    fields = record (s.fields) { calls = s.fields.calls ++ ((v.cb_func, v.user_data) ∷ []) };
  }

  Ticked-cons :
      (s g' g : Timers) (p : Ptr) (v : UtilTimer) (xs : List Cell)
      → ltb now v.expire ≡ false
      → has p xs ≡ false
      → Deleted (called s v) g' p ((p, v) ∷ xs) xs
      → Ticked now g' g xs
      → Ticked now s g ((p, v) ∷ xs)
  unfolding due pending
  Ticked-cons s g' g p v xs over out r t = record {
    holds = rw over t.holds;
    calls =
        t.calls
        ∙ ap (λ c. c ++ map call (due now xs)) r.calls
        ∙ append_assoc s.fields.calls (call (p, v) ∷ []) (map call (due now xs))
        ∙ rw over refl;
    freed = rw over (t.same p out ∙ r.freed, t.freed);
    same = λ a o. t.same a (not-has_tail a (p, v) xs o) ∙ r.same a o;
  }

  Ticked-early :
      (s : Timers) (p : Ptr) (v : UtilTimer) (xs : List Cell)
      → ltb now v.expire ≡ true
      → Holds s ((p, v) ∷ xs)
      → Ticked now s s ((p, v) ∷ xs)
  unfolding due pending
  Ticked-early s p v xs early is = record {
    holds = rw early is;
    calls = rw early (sym (append-nil s.fields.calls));
    freed = rw early tt;
    same = λ a o. refl;
  }

  tick_loop-Ticked :
      (k : ℕ) (s : Timers) (xs : List Cell)
      → Holds s xs
      → length xs < k
      → Ends (λ _ g. Ticked now s g xs) (tick_loop k now (first xs null) s)
  unfolding tick_loop due pending call_back
  tick_loop-Ticked zero s xs is fuel = absurd (omega arith)
  tick_loop-Ticked (suc k) s [] is fuel = ends (record {
    holds = is;
    calls = sym (append-nil s.fields.calls);
    freed = tt;
    same = λ a o. refl;
  })
  tick_loop-Ticked (suc k) s ((p, v) ∷ xs) is fuel = rw is.distinct.0 (
      load_then _ _ _ (node v null (first xs null)) is.distinct.0 is.linked.0
        (elim (Bool-cases (ltb now v.expire)) [
          | inl early ↦ rw early (ends (Ticked-early s p v xs early is))
          | inr over ↦ rw over (
              Ends.then (retire-Deleted (called s v) p v xs is.distinct is.linked is.tail)
                λ r g' (e, del). rw e (
                  Ends.weaken (tick_loop-Ticked k g' xs del.holds (omega arith))
                    λ _ g t. Ticked-cons s g' g p v xs over is.distinct.1 del t))
        ]))

  tick-headed :
      (k : ℕ) (s : Timers) (xs : List Cell)
      → Holds s xs
      → length xs < k
      → Ends (λ _ g. Ticked now s g xs) (tick k now (headed s (first xs null)))
  unfolding tick due pending
  tick-headed k s [] is fuel = ends (record {
    holds = record { linked = tt; distinct = tt; head = refl; tail = tt };
    calls = sym (append-nil s.fields.calls);
    freed = tt;
    same = λ a o. refl;
  })
  tick-headed k s ((p, v) ∷ xs) is fuel = rw is.distinct.0 (
      subst (λ u. Ends (λ _ g. Ticked now s g ((p, v) ∷ xs)) (tick_loop k now p u))
        (sym (headed-first s ((p, v) ∷ xs) is)) (tick_loop-Ticked k s ((p, v) ∷ xs) is fuel))

  -- Given rounds for the list and one more, `tick` calls the callbacks of the timers at the front
  -- that are due, in list order, each with its client data, frees them and leaves the others linked.
  pub tick-Ticked :
      (k : ℕ) (s : Timers) (xs : List Cell)
      → Holds s xs
      → length xs < k
      → Ends (λ _ g. Ticked now s g xs) (tick k now s)
  tick-Ticked k s xs is fuel =
      subst (λ u. Ends (λ _ g. Ticked now s g xs) (tick k now u)) (headed-first s xs is)
        (tick-headed k s xs is fuel)
