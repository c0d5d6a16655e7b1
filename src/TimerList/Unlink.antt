-- ===== src/TimerList/Unlink.antt =====
-- The three ways in which a timer leaves the list: at the head, at the tail and in between.
use notes_coding.Base.{◌≡◌, refl, sym, ◌∙◌, false, some, List, [], ◌∷◌, ◌++◌, ==_false_sym}
use notes_coding.Memory.{Ptr, null, Node}
use notes_coding.Memory.Access.{load_then, next_then, next_last, prev_last}
use notes_coding.Memory.Chain.{
  node, has, first, last, Distinct, Linked, Linked-split, last-append, write_other, ne-of-has,
  has-last, last-ne-null, relink_last, relink_first,
}
use notes_coding.Memory.Unlink.{
  Distinct-split, Distinct-remove, bypass_chain, outside, has_second, not-has_head, not-has_tail,
}
use notes_coding.Memory.Ends.{Ends}
use notes_coding.TimerList.{UtilTimer, Timers, bypass, drop_head, drop_tail}
use notes_coding.TimerList.Spec.{Cell, Holds, headed}

-- The list holds `ys` instead of `xs`, and the node `t` is still there, with its timer `tv`.
pub record Removed (s g : Timers) (t : Ptr) (tv : UtilTimer) (xs ys : List Cell) : Type 0 where
  pub holds : Holds g ys
  pub calls : g.fields.calls ≡ s.fields.calls
  pub left : (n : Node UtilTimer) × (g.nodes t ≡ some n) × (n.content ≡ tv)
  pub same : (a : Ptr) → has a xs ≡ false → g.nodes a ≡ s.nodes a

module _ (s : Timers) where
  pub drop_head-Removed :
      (p q : Ptr) (v w : UtilTimer) (xs : List Cell)
      → Distinct ((p, v) ∷ (q, w) ∷ xs)
      → Linked s.nodes null ((p, v) ∷ (q, w) ∷ xs) null
      → s.fields.tail ≡ last q xs
      → Ends (λ _ g. Removed s g p v ((p, v) ∷ (q, w) ∷ xs) ((q, w) ∷ xs)) (drop_head (headed s p))
  unfolding drop_head
  drop_head-Removed p q v w xs d l e = load_then _ _ _ (node v null q) d.0 l.0 (
      prev_last _ _ _ (node w p (first xs null)) d.2.0 l.1.0 (record {
        holds = record {
          linked = relink_first s.nodes p null q w xs null d.2.1 l.1;
          distinct = d.2;
          head = refl;
          tail = e;
        };
        calls = refl;
        left =
            (node v null q, write_other s.nodes q p _ (not-has_head p (q, w) xs d.1) ∙ l.0, refl);
        same = λ a o.
            write_other s.nodes q a _
              (not-has_head a (q, w) xs (not-has_tail a (p, v) ((q, w) ∷ xs) o));
      }))

  module _ (p : Ptr) (v : UtilTimer) (xs : List Cell) (t : Ptr) (tv : UtilTimer) where
    pub drop_tail-Removed :
        Distinct (((p, v) ∷ xs) ++ (t, tv) ∷ [])
        → Linked s.nodes null (((p, v) ∷ xs) ++ (t, tv) ∷ []) null
        → Ends
            (λ _ g. Removed s g t tv (((p, v) ∷ xs) ++ (t, tv) ∷ []) ((p, v) ∷ xs))
            (drop_tail (record s { fields = record (s.fields) { head = p; tail = t } }))
    unfolding drop_tail
    drop_tail-Removed d l =
        let (dx, dt, apart) = Distinct-split ((p, v) ∷ xs) ((t, tv) ∷ []) d in
        let (lx, lt) = Linked-split s.nodes null ((p, v) ∷ xs) ((t, tv) ∷ []) null l in
        let (n, held, l') = relink_last s.nodes null p v xs t null dx lx in
        let far = not-has_head _ (t, tv) [] (apart (last p xs) (has-last p v xs)) in
        load_then _ _ _ (node tv (last p xs) null) dt.0 lt.0 (
          next_last _ _ _ n (last-ne-null p v xs dx) held (record {
            holds = record { linked = l'; distinct = dx; head = refl; tail = refl };
            calls = refl;
            left = (
              node tv (last p xs) null,
              write_other s.nodes (last p xs) t _ (==_false_sym _ t far) ∙ lt.0,
              refl,
            );
            same = λ a o. write_other s.nodes (last p xs) a _ (
                ne-of-has a _ ((p, v) ∷ xs) (outside a ((p, v) ∷ xs) ((t, tv) ∷ []) o).0
                  (has-last p v xs));
          }))

    module _ (q : Ptr) (w : UtilTimer) (ys : List Cell) where
      same_tail : last p (xs ++ (t, tv) ∷ (q, w) ∷ ys) ≡ last p (xs ++ (q, w) ∷ ys)
      same_tail = last-append p xs _ ∙ sym (last-append p xs _)

      pub bypass-Removed :
          Distinct (((p, v) ∷ xs) ++ (t, tv) ∷ (q, w) ∷ ys)
          → Linked s.nodes null (((p, v) ∷ xs) ++ (t, tv) ∷ (q, w) ∷ ys) null
          → s.fields.tail ≡ last p (xs ++ (t, tv) ∷ (q, w) ∷ ys)
          → Ends
              (λ _ g.
                Removed s g t tv
                  (((p, v) ∷ xs) ++ (t, tv) ∷ (q, w) ∷ ys)
                  (((p, v) ∷ xs) ++ (q, w) ∷ ys))
              (bypass t (headed s p))
      unfolding bypass
      bypass-Removed d l e =
          let (dx, dt, apart) = Distinct-split ((p, v) ∷ xs) ((t, tv) ∷ (q, w) ∷ ys) d in
          let (lx, lt) = Linked-split s.nodes null ((p, v) ∷ xs) ((t, tv) ∷ (q, w) ∷ ys) null l in
          let (n, (held, t-held, q-held, l')) =
            bypass_chain s.nodes null p v xs t tv q w ys null d l in
          load_then _ _ _ (node tv (last p xs) q) dt.0 lt.0 (
            next_then _ _ _ _ n (last-ne-null p v xs dx) held (
              load_then _ _ _ (node tv (last p xs) q) dt.0 t-held (
                prev_last _ _ _ (node w t (first ys null)) dt.2.0 q-held (record {
                  holds = record {
                    linked = l';
                    distinct = Distinct-remove ((p, v) ∷ xs) (t, tv) ((q, w) ∷ ys) d;
                    head = refl;
                    tail = e ∙ same_tail;
                  };
                  calls = refl;
                  left = (
                    node tv (last p xs) q,
                    write_other _ q t _ (not-has_head t (q, w) ys dt.1) ∙ t-held,
                    refl,
                  );
                  same = λ a o.
                      let (ox, ot) = outside a ((p, v) ∷ xs) ((t, tv) ∷ (q, w) ∷ ys) o in
                      write_other _ q a _
                        (ne-of-has a q ((t, tv) ∷ (q, w) ∷ ys) ot (has_second q t tv w ys))
                      ∙ write_other s.nodes (last p xs) a _
                          (ne-of-has a (last p xs) ((p, v) ∷ xs) ox (has-last p v xs));
                }))))
