-- ===== src/LinkedList/Push.antt =====
-- `pushFront` and `pushBack`, and what removes what they add.
use notes_coding.Base.{
  ℕ, ◌^◌, ◌<◌, ◌≡◌, sym, ◌∙◌, ap, subst, arith, false, none, some, List, [], ◌∷◌, ◌++◌, ◌==◌,
}
use mathlib.Core.List.{append-nil}
use notes_coding.Memory.{Ptr, null, write, ◌>>◌}
use notes_coding.Memory.Access.{load_then}
use notes_coding.Memory.Chain.{node, last, Linked-split, frame-write, write_self, write_other}
use notes_coding.Memory.Unlink.{Distinct-split}
use notes_coding.Memory.Ends
use notes_coding.Memory.Ends.{Ends, ends}
use notes_coding.LinkedList.{LinkedList, push_front, push_back, remove_list_node, grow, shrink}
use notes_coding.LinkedList.Shape.{Cell, behind, Holds}
use notes_coding.LinkedList.Insert.{Grown, Outside, insert-Grown}
use notes_coding.LinkedList.Remove.{remove-Shrunk}

module _ (s : LinkedList) (xs : List Cell) (t : Ptr) (val : ℕ) (is : Holds s xs)
    (out : Outside s xs t) (real : (t == null) ≡ false) where
  -- The new node has been made.
  abbrev made : LinkedList
  made = record s { nodes = write s.nodes t (some (node val null null)) }

  made-Holds : Holds made xs
  made-Holds = record {
    linked =
        frame-write s.nodes null ((s.fields.dummy_head, 0) ∷ behind s xs) null t _ is.linked out;
    distinct = is.distinct;
  }

  made-Grown : (ys : List Cell) (g : LinkedList) → Grown made g t xs ys → Grown s g t xs ys
  made-Grown ys g r = record {
    holds = r.holds;
    size = r.size;
    head = r.head;
    tail = r.tail;
    same = λ a far ne. r.same a far ne ∙ write_other s.nodes t a _ ne;
  }

  -- `pushFront` puts a node with the value before all others.
  pub push_front-Grown : Ends (λ _ g. Grown s g t xs ((t, val) ∷ xs)) (push_front t val s)
  unfolding push_front
  push_front-Grown =
      Ends.weaken
        (insert-Grown made [] xs t val null null made-Holds out real (write_self s.nodes t _))
        λ _ g r. made-Grown ((t, val) ∷ xs) g r

  -- `pushBack` puts a node with the value behind all others.
  pub push_back-Grown : Ends (λ _ g. Grown s g t xs (xs ++ (t, val) ∷ [])) (push_back t val s)
  unfolding push_back
  push_back-Grown =
      let dh : Ptr = s.fields.dummy_head in
      let end : List Cell = (s.fields.dummy_tail, 0) ∷ [] in
      let (lx, le) = Linked-split made.nodes null ((dh, 0) ∷ xs) end null made-Holds.linked in
      let nil : xs ++ [] ≡ xs = append-nil xs in
      let ys : List Cell = xs ++ (t, val) ∷ [] in
      let end-real = (Distinct-split ((dh, 0) ∷ xs) end is.distinct).1.0 in
      load_then _ _ _ (node 0 (last dh xs) null) end-real le.0 (
        Ends.weaken
          (insert-Grown made xs [] t val null null (subst (Holds made) (sym nil) made-Holds)
            (subst (λ l. Outside s l t) (sym nil) out) real (write_self s.nodes t _))
          λ _ g r. made-Grown ys g (subst (λ l. Grown made g t l ys) nil r))

-- The list is as it was, and the node is freed.
pub record Restored (s g : LinkedList) (xs : List Cell) (t : Ptr) : Type 0 where
  pub holds : Holds g xs
  pub size : g.fields.size ≡ s.fields.size
  pub freed : g.nodes t ≡ none

restore : (n : ℕ) → n < 2 ^ 32 → shrink (grow n) ≡ n
restore n small = omega arith

-- `removeListNode` of the node that `pushBack` has added gives back the list and its `size`, and the
-- memory of the node, which is a new one at first; the size is one of 32 bits.
pub push_back-remove :
    (s : LinkedList) (xs : List Cell) (t : Ptr) (val : ℕ)
    → Holds s xs
    → Outside s xs t
    → (t == null) ≡ false
    → s.fields.size < 2 ^ 32
    → Ends (λ _ g. Restored s g xs t) ((push_back t val >> remove_list_node t) s)
push_back-remove s xs t val is out real small =
    Ends.then (push_back-Grown s xs t val is out real) λ _ g r.
      Ends.weaken (remove-Shrunk g xs [] t val r.holds) λ _ f w. record {
        holds = subst (Holds f) (append-nil xs) w.holds;
        size = w.size ∙ ap shrink r.size ∙ restore s.fields.size small;
        freed = w.freed;
      }
