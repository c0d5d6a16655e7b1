-- ===== src/TimerList/Adjust.antt =====
-- `adjustTimer` of a timer whose expiry has been put off.
use notes_coding.Base.{
  ℕ, ◌≤◌, ◌<◌, ◌≡◌, refl, ap, sym, subst, inl, inr, false, List, [], ◌∷◌, ◌++◌, ltb, ==_refl,
  le→not_ltb, Bool-cases, All, length,
}
use notes_coding.Memory.{Ptr, null}
use notes_coding.Memory.Access.{load_then, next_then}
use notes_coding.Memory.Chain.{node, first, last, Linked-split, write_self}
use notes_coding.Memory.Unlink.{Distinct-split, has-remove, not-has_head}
use notes_coding.Memory.Ends
use notes_coding.Memory.Ends.{Ends, ends}
use notes_coding.TimerList.{UtilTimer, Timers, adjust_timer}
use notes_coding.TimerList.Spec.{Cell, Holds, headed, headed-first, insert}
use notes_coding.TimerList.Insert.{Changed}
use notes_coding.TimerList.Unlink.{drop_head-Removed, bypass-Removed}
use notes_coding.TimerList.Relocate.{
  Before, insert_middle, relocate, has_self, node_of, Changed-Removed, cut, detach,
}

module _ (k : ℕ) (s : Timers) (t : Ptr) (tv : UtilTimer) (q : Ptr) (w : UtilTimer) (zs : List Cell)
    (later : ltb tv.expire w.expire ≡ false) where
  adjust_first :
      Holds s ((t, tv) ∷ (q, w) ∷ zs)
      → length zs < k
      → Ends
          (λ _ g. Changed s g t ((t, tv) ∷ (q, w) ∷ zs) (insert (t, tv) ((q, w) ∷ zs)))
          (adjust_timer k t (headed s t))
  unfolding adjust_timer
  adjust_first is fuel =
      let d = is.distinct in
      let l = is.linked in
      rw d.0 (
        load_then _ _ _ (node tv null q) d.0 l.0 (
          rw d.2.0 (
            load_then _ _ _ (node w t (first zs null)) d.2.0 l.1.0 (
              rw (later, ==_refl t)
                (Ends.then (drop_head-Removed s t q tv w zs d l is.tail) λ _ g r.
                  let r' = detach s g t tv _ _ (has_self t tv ((q, w) ∷ zs)) d.1 r in
                  next_then _ _ _ _ r.left.0 d.0 r.left.1 (
                    Ends.weaken
                      (relocate k _ t q r.left.0.prev null tv w zs r'.holds d.0 d.1
                        (node_of (cut g t r.left.0) t tv (record (r.left.0) { next = null })
                          (write_self g.nodes t _) r.left.2)
                        later fuel)
                      λ _ g' c. Changed-Removed s _ g' t tv [] ((q, w) ∷ zs) _ r' c))))))

  adjust_inner :
      (p : Ptr) (v : UtilTimer) (ys : List Cell)
      → Holds s (((p, v) ∷ ys) ++ (t, tv) ∷ (q, w) ∷ zs)
      → v.expire ≤ tv.expire
      → length (ys ++ (q, w) ∷ zs) < k
      → Ends
          (λ _ g.
            Changed s g t
              (((p, v) ∷ ys) ++ (t, tv) ∷ (q, w) ∷ zs)
              (insert (t, tv) (((p, v) ∷ ys) ++ (q, w) ∷ zs)))
          (adjust_timer k t (headed s p))
  unfolding adjust_timer
  adjust_inner p v ys is put_off fuel =
      let (dx, dt, apart) = Distinct-split ((p, v) ∷ ys) ((t, tv) ∷ (q, w) ∷ zs) is.distinct in
      let (lx, lt) =
        Linked-split s.nodes null ((p, v) ∷ ys) ((t, tv) ∷ (q, w) ∷ zs) null is.linked in
      let out = has-remove ((p, v) ∷ ys) (t, tv) ((q, w) ∷ zs) is.distinct in
      let far = not-has_head t (p, v) (ys ++ (q, w) ∷ zs) out in
      rw dt.0 (
        load_then _ _ _ (node tv (last p ys) q) dt.0 lt.0 (
          rw dt.2.0 (
            load_then _ _ _ (node w t (first zs null)) dt.2.0 lt.1.0 (
              rw (later, far)
                (Ends.then (bypass-Removed s p v ys t tv q w zs is.distinct is.linked is.tail)
                  λ _ g r.
                    Ends.weaken
                      (relocate k g t p r.left.0.prev r.left.0.next tv v (ys ++ (q, w) ∷ zs) r.holds
                        dt.0 out (node_of g t tv r.left.0 r.left.1 r.left.2)
                        (le→not_ltb _ _ put_off) fuel)
                      λ _ g' c. Changed-Removed s g g' t tv ((p, v) ∷ ys) ((q, w) ∷ zs) _ r c)))))

-- The early returns: the timer is the last one, or still expires before the next one.
adjust_stays :
    (k : ℕ) (s : Timers) (t : Ptr) (tv : UtilTimer) (ys zs : List Cell)
    → Holds s (ys ++ (t, tv) ∷ zs)
    → Before (t, tv) zs
    → Ends (λ _ g. g ≡ s) (adjust_timer k t s)
unfolding adjust_timer
adjust_stays k s t tv ys [] is b =
    let (dx, dt, apart) = Distinct-split ys ((t, tv) ∷ []) is.distinct in
    let (lx, lt) = Linked-split s.nodes null ys ((t, tv) ∷ []) null is.linked in
    rw dt.0 (load_then _ _ _ (node tv (last null ys) null) dt.0 lt.0 (ends refl))
adjust_stays k s t tv ys ((q, w) ∷ zs) is b =
    let (dx, dt, apart) = Distinct-split ys ((t, tv) ∷ (q, w) ∷ zs) is.distinct in
    let (lx, lt) = Linked-split s.nodes null ys ((t, tv) ∷ (q, w) ∷ zs) null is.linked in
    rw dt.0 (
      load_then _ _ _ (node tv (last null ys) q) dt.0 lt.0
        (rw dt.2.0 (load_then _ _ _ (node w t (first zs null)) dt.2.0 lt.1.0 (rw b (ends refl)))))

module _ (k : ℕ) (s : Timers) (t : Ptr) (tv : UtilTimer) where
  adjust_in_place :
      (ys zs : List Cell)
      → Holds s (ys ++ (t, tv) ∷ zs)
      → All (λ y. y.1.expire ≤ tv.expire) ys
      → Before (t, tv) zs
      → Ends
          (λ _ g. Changed s g t (ys ++ (t, tv) ∷ zs) (insert (t, tv) (ys ++ zs)))
          (adjust_timer k t s)
  adjust_in_place ys zs is put_off b = rw (insert_middle (t, tv) ys zs put_off b) (
      Ends.weaken (adjust_stays k s t tv ys zs is b) λ _ g e. record {
        holds = subst (λ u. Holds u (ys ++ (t, tv) ∷ zs)) (sym e) is;
        calls = ap (λ u. u.fields.calls) e;
        same = λ a o at. ap (λ u. u.nodes a) e;
      })

  adjust_moved :
      (ys : List Cell) (q : Ptr) (w : UtilTimer) (zs : List Cell)
      → Holds s (ys ++ (t, tv) ∷ (q, w) ∷ zs)
      → All (λ y. y.1.expire ≤ tv.expire) ys
      → ltb tv.expire w.expire ≡ false
      → length (ys ++ (q, w) ∷ zs) ≤ k
      → Ends
          (λ _ g. Changed s g t (ys ++ (t, tv) ∷ (q, w) ∷ zs) (insert (t, tv) (ys ++ (q, w) ∷ zs)))
          (adjust_timer k t s)
  adjust_moved [] q w zs is put_off later fuel =
      subst
        (λ u.
          Ends (λ _ g. Changed s g t ((t, tv) ∷ (q, w) ∷ zs) (insert (t, tv) ((q, w) ∷ zs)))
            (adjust_timer k t u))
        (headed-first s _ is) (adjust_first k s t tv q w zs later is fuel)
  adjust_moved ((p, v) ∷ ys) q w zs is put_off later fuel =
      subst
        (λ u.
          Ends
            (λ _ g.
              Changed s g t (((p, v) ∷ ys) ++ (t, tv) ∷ (q, w) ∷ zs)
                (insert (t, tv) (((p, v) ∷ ys) ++ (q, w) ∷ zs)))
            (adjust_timer k t u))
        (headed-first s _ is) (adjust_inner k s t tv q w zs later p v ys is put_off.0 fuel)

  -- A timer of the list whose expiry is now no earlier than that of any timer in front of it is put
  -- where it belongs among the others, on every branch of `adjustTimer`, given rounds for the
  -- length of the list; no callback runs, and nothing outside the list is written.
  pub adjust_timer-insert :
      (ys zs : List Cell)
      → Holds s (ys ++ (t, tv) ∷ zs)
      → All (λ y. y.1.expire ≤ tv.expire) ys
      → length (ys ++ zs) ≤ k
      → Ends
          (λ _ g. Changed s g t (ys ++ (t, tv) ∷ zs) (insert (t, tv) (ys ++ zs)))
          (adjust_timer k t s)
  adjust_timer-insert ys [] is put_off fuel = adjust_in_place ys [] is put_off tt
  adjust_timer-insert ys ((q, w) ∷ zs) is put_off fuel =
      elim (Bool-cases (ltb tv.expire w.expire)) [
        | inl b ↦ adjust_in_place ys ((q, w) ∷ zs) is put_off b
        | inr later ↦ adjust_moved ys q w zs is put_off later fuel
      ]
