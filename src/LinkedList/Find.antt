-- ===== src/LinkedList/Find.antt =====
-- The walks of `findListNode` and `toString`.
use notes_coding.Base.{
  ℕ, zero, suc, ◌<◌, ◌≡◌, refl, ap, inl, inr, arith, Bool-cases, false, List, [], ◌∷◌, map, length,
  ◌==◌, ==_refl, if◌then◌else◌,
}
use notes_coding.Memory.{Ptr, null}
use notes_coding.Memory.Access.{load_then}
use notes_coding.Memory.Chain.{node, has-append, first, Distinct, Linked}
use notes_coding.Memory.Ends
use notes_coding.Memory.Ends.{Ends, ends}
use notes_coding.LinkedList.{LinkedList, find_loop, find_list_node, to_string_loop, to_string}
use notes_coding.LinkedList.Shape.{Cell, behind, Holds}

-- The address of the first node with the value, null if there is none.
unfoldable pub find : ℕ → List Cell → Ptr
find val [] = null
find val ((p, v) ∷ xs) = let rest : Ptr = find val xs in if v == val then p else rest

module _ (s : LinkedList) where
  find_loop-find :
      (k val : ℕ) (b : Ptr) (xs : List Cell)
      → Linked s.nodes b (behind s xs) null
      → Distinct (behind s xs)
      → length xs < k
      → Ends (λ p g. (p ≡ find val xs) × (g ≡ s)) (find_loop k val (first (behind s xs) null) s)
  unfolding find_loop find
  find_loop-find zero val b xs l d fuel = absurd (omega arith)
  find_loop-find (suc k) val b [] l d fuel = rw (==_refl s.fields.dummy_tail) (ends (refl, refl))
  find_loop-find (suc k) val b ((p, v) ∷ xs) l d fuel =
      let inner : (p == s.fields.dummy_tail) ≡ false =
        ground (arith, d.1, has-append p xs ((s.fields.dummy_tail, 0) ∷ [])) in
      rw inner (
        load_then _ _ _ (node v b (first (behind s xs) null)) d.0 l.0
          (elim (Bool-cases (v == val)) [
            | inl here ↦ rw here (ends (refl, refl))
            | inr other ↦ rw other (find_loop-find k val p xs l.1 d.2 (omega arith))
          ]))

  -- `findListNode` returns the first node with the value, null if there is none, and changes nothing,
  -- given a round for each node and one more.
  pub find_list_node-find :
      (k val : ℕ) (xs : List Cell)
      → Holds s xs
      → length xs < k
      → Ends (λ p g. (p ≡ find val xs) × (g ≡ s)) (find_list_node k val s)
  unfolding find_list_node
  find_list_node-find k val xs is fuel =
      load_then _ _ _ (node 0 null (first (behind s xs) null)) is.distinct.0 is.linked.0
        (find_loop-find k val s.fields.dummy_head xs is.linked.1 is.distinct.2 fuel)

  to_string_loop-values :
      (k : ℕ) (b : Ptr) (xs : List Cell)
      → Linked s.nodes b (behind s xs) null
      → Distinct (behind s xs)
      → length xs < k
      → Ends
          (λ vals g. (vals ≡ map (λ x. x.1) xs) × (g ≡ s))
          (to_string_loop k (first (behind s xs) null) s)
  unfolding to_string_loop
  to_string_loop-values zero b xs l d fuel = absurd (omega arith)
  to_string_loop-values (suc k) b [] l d fuel = rw (==_refl s.fields.dummy_tail) (ends (refl, refl))
  to_string_loop-values (suc k) b ((p, v) ∷ xs) l d fuel =
      let inner : (p == s.fields.dummy_tail) ≡ false =
        ground (arith, d.1, has-append p xs ((s.fields.dummy_tail, 0) ∷ [])) in
      rw inner (
        load_then _ _ _ (node v b (first (behind s xs) null)) d.0 l.0 (
          Ends.then (to_string_loop-values k p xs l.1 d.2 (omega arith))
            λ vals g r. ends (ap (λ l. v ∷ l) r.0, r.1)))

  -- `toString` prints `size` and the values in their order, and changes nothing.
  pub to_string-values :
      (k : ℕ) (xs : List Cell)
      → Holds s xs
      → length xs < k
      → Ends (λ r g. (r ≡ (s.fields.size, map (λ x. x.1) xs)) × (g ≡ s)) (to_string k s)
  unfolding to_string
  to_string-values k xs is fuel =
      load_then _ _ _ (node 0 null (first (behind s xs) null)) is.distinct.0 is.linked.0 (
        Ends.then (to_string_loop-values k s.fields.dummy_head xs is.linked.1 is.distinct.2 fuel)
          λ vals g r. ends (ap (λ l. (s.fields.size, l)) r.0, r.1))
