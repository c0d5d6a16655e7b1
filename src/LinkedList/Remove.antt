-- ===== src/LinkedList/Remove.antt =====
-- `removeListNode`, of any node between the dummies.
use notes_coding.Base.{ℕ, ◌≡◌, refl, sym, ◌∙◌, ap, subst, false, none, List, [], ◌∷◌, ◌++◌, ◌==◌}
use mathlib.Core.List.{append_assoc}
use notes_coding.Memory.{Ptr, null, Nodes}
use notes_coding.Memory.Access.{load_then, next_then, prev_then, delete_then}
use notes_coding.Memory.Chain.{
  node, has, first, last, Distinct, Linked, Linked-split, frame-write, write_self, write_other,
  ne-of-has, has-last, last-ne-null,
}
use notes_coding.Memory.Unlink.{
  Distinct-split, Distinct-remove, has-remove, bypass_chain, outside, not-has_head, has_second,
}
use notes_coding.Memory.Ends.{Ends, ends}
use notes_coding.LinkedList.{LinkedList, remove_list_node, shrink}
use notes_coding.LinkedList.Shape.{Cell, behind, Holds}
use notes_coding.LinkedList.Insert.{next_cell, Outside}

-- The list holds the cells `ys` in place of `xs`, the node `t` is freed, and only nodes of `xs` have
-- been written.
pub record Shrunk (s g : LinkedList) (t : Ptr) (xs ys : List Cell) : Type 0 where
  pub holds : Holds g ys
  pub size : g.fields.size ≡ shrink s.fields.size
  pub freed : g.nodes t ≡ none
  pub head : g.fields.dummy_head ≡ s.fields.dummy_head
  pub tail : g.fields.dummy_tail ≡ s.fields.dummy_tail
  pub same : (a : Ptr) → Outside s xs a → g.nodes a ≡ s.nodes a

-- The node `t` between the last cell behind `p` and the cell `q` is unlinked and freed.
module _ (s : LinkedList) (p : Ptr) (v : ℕ) (xs : List Cell) (t : Ptr) (tv : ℕ) (q : Ptr) (w : ℕ)
    (ys : List Cell) (d : Distinct (((p, v) ∷ xs) ++ (t, tv) ∷ (q, w) ∷ ys))
    (l : Linked s.nodes null (((p, v) ∷ xs) ++ (t, tv) ∷ (q, w) ∷ ys) null) where
  remove-out :
      (Q : Unit {0} → LinkedList → Type 0)
      → ((g : Nodes ℕ)
          → Linked g null (((p, v) ∷ xs) ++ (q, w) ∷ ys) null
          → g t ≡ none
          → ((a : Ptr) → has a (((p, v) ∷ xs) ++ (t, tv) ∷ (q, w) ∷ ys) ≡ false → g a ≡ s.nodes a)
          → Q tt (record { nodes = g; fields = record (s.fields) { size = shrink s.fields.size } }))
      → Ends Q (remove_list_node t s)
  unfolding remove_list_node
  remove-out Q r =
      let (dx, dt, apart) = Distinct-split ((p, v) ∷ xs) ((t, tv) ∷ (q, w) ∷ ys) d in
      let (lx, lt) = Linked-split s.nodes null ((p, v) ∷ xs) ((t, tv) ∷ (q, w) ∷ ys) null l in
      let (n, (held, t-held, q-held, l')) = bypass_chain s.nodes null p v xs t tv q w ys null d l in
      let tq : (t == q) ≡ false = not-has_head t (q, w) ys dt.1 in
      load_then _ _ _ (node tv (last p xs) q) dt.0 lt.0 (
        next_then _ _ _ _ n (last-ne-null p v xs dx) held (
          load_then _ _ _ (node tv (last p xs) q) dt.0 t-held (
            prev_then _ _ _ _ (node w t (first ys null)) dt.2.0 q-held (
              delete_then _ _ _ (node tv (last p xs) q) dt.0 (write_other _ q t _ tq ∙ t-held) (
                ends (
                  r _
                    (frame-write _ null (((p, v) ∷ xs) ++ (q, w) ∷ ys) null t none l'
                      (has-remove ((p, v) ∷ xs) (t, tv) ((q, w) ∷ ys) d))
                    (write_self _ t none)
                    (λ a o.
                      let (ox, ot) = outside a ((p, v) ∷ xs) ((t, tv) ∷ (q, w) ∷ ys) o in
                      write_other _ t a none (not-has_head a (t, tv) ((q, w) ∷ ys) ot)
                      ∙ write_other _ q a _
                          (ne-of-has a q ((t, tv) ∷ (q, w) ∷ ys) ot (has_second q t tv w ys))
                      ∙ write_other s.nodes (last p xs) a _
                          (ne-of-has a (last p xs) ((p, v) ∷ xs) ox (has-last p v xs)))))))))

-- `removeListNode` takes its node out, frees it, keeps the others in their order, and takes one from
-- `size`.
pub remove-Shrunk :
    (s : LinkedList) (ys zs : List Cell) (t : Ptr) (tv : ℕ)
    → Holds s (ys ++ (t, tv) ∷ zs)
    → Ends (λ _ g. Shrunk s g t (ys ++ (t, tv) ∷ zs) (ys ++ zs)) (remove_list_node t s)
remove-Shrunk s ys zs t tv is =
    let dh : Ptr = s.fields.dummy_head in
    let e : Cell = (s.fields.dummy_tail, 0) in
    let (q, w, r, eq) = next_cell zs e in
    let split : behind s (ys ++ (t, tv) ∷ zs) ≡ ys ++ (t, tv) ∷ (q, w) ∷ r =
      append_assoc ys ((t, tv) ∷ zs) (e ∷ []) ∙ ap (λ l. ys ++ (t, tv) ∷ l) eq in
    let joins : ys ++ (q, w) ∷ r ≡ behind s (ys ++ zs) =
      ap (λ l. ys ++ l) (sym eq) ∙ sym (append_assoc ys zs (e ∷ [])) in
    let d : Distinct ((dh, 0) ∷ ys ++ (t, tv) ∷ (q, w) ∷ r) =
      subst (λ l. Distinct ((dh, 0) ∷ l)) split is.distinct in
    let l : Linked s.nodes null ((dh, 0) ∷ ys ++ (t, tv) ∷ (q, w) ∷ r) null =
      subst (λ l. Linked s.nodes null ((dh, 0) ∷ l) null) split is.linked in
    remove-out s dh 0 ys t tv q w r d l _ λ g linked freed same. record {
      holds = record {
        linked = subst (λ l. Linked g null ((dh, 0) ∷ l) null) joins linked;
        distinct =
            subst (λ l. Distinct ((dh, 0) ∷ l)) joins
              (Distinct-remove ((dh, 0) ∷ ys) (t, tv) ((q, w) ∷ r) d);
      };
      size = refl;
      freed = freed;
      head = refl;
      tail = refl;
      same = λ a far. same a (subst (λ l. has a ((dh, 0) ∷ l) ≡ false) split far);
    }
