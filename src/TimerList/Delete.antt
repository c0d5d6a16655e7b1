-- ===== src/TimerList/Delete.antt =====
-- `delTimer`, on its four branches.
use notes_coding.Base.{
  ◌≡◌, refl, sym, ◌∙◌, subst, true, false, none, List, [], ◌∷◌, ◌++◌, arith, ◌==◌, ==_refl,
}
use mathlib.Core.List.{append-nil}
use notes_coding.Memory.{Ptr, null, delete, write}
use notes_coding.Memory.Access.{delete_then, delete_last}
use notes_coding.Memory.Chain.{
  node, has, last, last-append, Distinct, Linked, frame-write, write_self, write_other, ne-of-has,
  has-last, has-append,
}
use notes_coding.Memory.Unlink.{Distinct-split, has-remove, not-has_head}
use notes_coding.Memory.Ends
use notes_coding.Memory.Ends.{Ends, ends}
use notes_coding.TimerList.{UtilTimer, Timers, del_timer}
use notes_coding.TimerList.Spec.{Cell, Holds, headed, headed-first}
use notes_coding.TimerList.Unlink.{Removed, drop_head-Removed, drop_tail-Removed, bypass-Removed}

-- The list holds `ys`, no callback has run, the node `t` is freed, and only cells of `xs` have
-- been written.
pub record Deleted (s g : Timers) (t : Ptr) (xs ys : List Cell) : Type 0 where
  pub holds : Holds g ys
  pub calls : g.fields.calls ≡ s.fields.calls
  pub freed : g.nodes t ≡ none
  pub same : (a : Ptr) → has a xs ≡ false → g.nodes a ≡ s.nodes a

at_ends :
    (s : Timers) (p t : Ptr)
    → s.fields.head ≡ p
    → s.fields.tail ≡ t
    → record s { fields = record (s.fields) { head = p; tail = t } } ≡ s
at_ends s p t e f = λ i. record s { fields = record (s.fields) { head = sym e i; tail = sym f i } }

module _ (s : Timers) (t : Ptr) (tv : UtilTimer) where
  free-Removed :
      (g : Timers) (xs ys : List Cell)
      → has t ys ≡ false
      → has t xs ≡ true
      → Removed s g t tv xs ys
      → Deleted s (record g { nodes = write g.nodes t none }) t xs ys
  free-Removed g xs ys out into r = record {
    holds = record {
      linked = frame-write g.nodes null ys null t none r.holds.linked out;
      distinct = r.holds.distinct;
      head = r.holds.head;
      tail = r.holds.tail;
    };
    calls = r.calls;
    freed = write_self g.nodes t none;
    same = λ a o. write_other g.nodes t a none (ne-of-has a t xs o into) ∙ r.same a o;
  }

  has_middle : (ys zs : List Cell) → has t (ys ++ (t, tv) ∷ zs) ≡ true
  has_middle ys zs = ground (arith, has-append t ys ((t, tv) ∷ zs))

  delete-Removed :
      (g : Timers) (ys zs : List Cell)
      → Distinct (ys ++ (t, tv) ∷ zs)
      → (t == null) ≡ false
      → Removed s g t tv (ys ++ (t, tv) ∷ zs) (ys ++ zs)
      → Ends (λ _ g'. Deleted s g' t (ys ++ (t, tv) ∷ zs) (ys ++ zs)) (delete t g)
  delete-Removed g ys zs d real r =
      delete_last g t r.left.0 real r.left.1
        (free-Removed g _ _ (has-remove ys (t, tv) zs d) (has_middle ys zs) r)

  del_only :
      Linked s.nodes null ((t, tv) ∷ []) null
      → (t == null) ≡ false
      → Ends
          (λ _ g. Deleted s g t ((t, tv) ∷ []) [])
          (del_timer t (record s { fields = record (s.fields) { head = t; tail = t } }))
  unfolding del_timer
  del_only l real =
      rw (real, ==_refl t)
        (delete_then _ _ _ (node tv null null) real l.0 (
          ends (record {
            holds = record { linked = tt; distinct = tt; head = refl; tail = tt };
            calls = refl;
            freed = write_self s.nodes t none;
            same = λ a o. write_other s.nodes t a none (not-has_head a (t, tv) [] o);
          })))

  del_first :
      (q : Ptr) (w : UtilTimer) (zs : List Cell)
      → Distinct ((t, tv) ∷ (q, w) ∷ zs)
      → Linked s.nodes null ((t, tv) ∷ (q, w) ∷ zs) null
      → s.fields.tail ≡ last q zs
      → Ends (λ _ g. Deleted s g t ((t, tv) ∷ (q, w) ∷ zs) ((q, w) ∷ zs)) (del_timer t (headed s t))
  unfolding del_timer
  del_first q w zs d l e =
      let far : (t == s.fields.tail) ≡ false =
        rw e (ne-of-has t (last q zs) ((q, w) ∷ zs) d.1 (has-last q w zs)) in
      rw (d.0, ==_refl t, far)
        (Ends.then (drop_head-Removed s t q tv w zs d l e)
          λ _ g r. delete-Removed g [] ((q, w) ∷ zs) d d.0 r)

  module _ (p : Ptr) (v : UtilTimer) (ys : List Cell) (real : (t == null) ≡ false) where
    del_last :
        Distinct (((p, v) ∷ ys) ++ (t, tv) ∷ [])
        → Linked s.nodes null (((p, v) ∷ ys) ++ (t, tv) ∷ []) null
        → Ends
            (λ _ g. Deleted s g t (((p, v) ∷ ys) ++ (t, tv) ∷ []) (((p, v) ∷ ys) ++ []))
            (del_timer t (record s { fields = record (s.fields) { head = p; tail = t } }))
    unfolding del_timer
    del_last d l =
        let far = not-has_head t (p, v) (ys ++ []) (has-remove ((p, v) ∷ ys) (t, tv) [] d) in
        rw (real, far, ==_refl t)
          (Ends.then (drop_tail-Removed s p v ys t tv d l) λ _ g r.
            delete-Removed g ((p, v) ∷ ys) [] d real (
              subst (Removed s g t tv (((p, v) ∷ ys) ++ (t, tv) ∷ []))
                (sym (append-nil ((p, v) ∷ ys))) r))

    del_middle :
        (q : Ptr) (w : UtilTimer) (zs : List Cell)
        → Distinct (((p, v) ∷ ys) ++ (t, tv) ∷ (q, w) ∷ zs)
        → Linked s.nodes null (((p, v) ∷ ys) ++ (t, tv) ∷ (q, w) ∷ zs) null
        → s.fields.tail ≡ last p (ys ++ (t, tv) ∷ (q, w) ∷ zs)
        → Ends
            (λ _ g.
              Deleted s g t (((p, v) ∷ ys) ++ (t, tv) ∷ (q, w) ∷ zs) (((p, v) ∷ ys) ++ (q, w) ∷ zs))
            (del_timer t (headed s p))
    unfolding del_timer
    del_middle q w zs d l e =
        let dt = (Distinct-split ((p, v) ∷ ys) ((t, tv) ∷ (q, w) ∷ zs) d).1 in
        let far =
          not-has_head t (p, v) (ys ++ (q, w) ∷ zs)
            (has-remove ((p, v) ∷ ys) (t, tv) ((q, w) ∷ zs) d) in
        let far' : (t == s.fields.tail) ≡ false =
          rw (e, last-append p ys ((t, tv) ∷ (q, w) ∷ zs))
            (ne-of-has t (last q zs) ((q, w) ∷ zs) dt.1 (has-last q w zs)) in
        rw (real, far, far')
          (Ends.then (bypass-Removed s p v ys t tv q w zs d l e)
            λ _ g r. delete-Removed g ((p, v) ∷ ys) ((q, w) ∷ zs) d real r)

  -- `delTimer` of a timer in the list takes just that timer out, frees its node, keeps the links,
  -- `head` and `tail` right, and writes to no node outside the list.
  pub del_timer-remove :
      (ys zs : List Cell)
      → Holds s (ys ++ (t, tv) ∷ zs)
      → Ends (λ _ g. Deleted s g t (ys ++ (t, tv) ∷ zs) (ys ++ zs)) (del_timer t s)
  del_timer-remove [] [] is =
      subst (λ u. Ends (λ _ g. Deleted s g t ((t, tv) ∷ []) []) (del_timer t u))
        (at_ends s t t is.head is.tail) (del_only is.linked is.distinct.0)
  del_timer-remove [] ((q, w) ∷ zs) is =
      subst (λ u. Ends (λ _ g. Deleted s g t ((t, tv) ∷ (q, w) ∷ zs) ((q, w) ∷ zs)) (del_timer t u))
        (headed-first s _ is) (del_first q w zs is.distinct is.linked is.tail)
  del_timer-remove ((p, v) ∷ ys) [] is =
      let real = (Distinct-split ((p, v) ∷ ys) ((t, tv) ∷ []) is.distinct).1.0 in
      subst
        (λ u.
          Ends (λ _ g. Deleted s g t (((p, v) ∷ ys) ++ (t, tv) ∷ []) (((p, v) ∷ ys) ++ []))
            (del_timer t u))
        (at_ends s p t is.head (is.tail ∙ last-append p ys ((t, tv) ∷ [])))
        (del_last p v ys real is.distinct is.linked)
  del_timer-remove ((p, v) ∷ ys) ((q, w) ∷ zs) is =
      let real = (Distinct-split ((p, v) ∷ ys) ((t, tv) ∷ (q, w) ∷ zs) is.distinct).1.0 in
      subst
        (λ u.
          Ends
            (λ _ g.
              Deleted s g t (((p, v) ∷ ys) ++ (t, tv) ∷ (q, w) ∷ zs) (((p, v) ∷ ys) ++ (q, w) ∷ zs))
            (del_timer t u))
        (headed-first s _ is) (del_middle p v ys real q w zs is.distinct is.linked is.tail)
