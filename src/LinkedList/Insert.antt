-- ===== src/LinkedList/Insert.antt =====
-- `insert`, between any two neighbours.
use notes_coding.Base.{
  ℕ, ◌≡◌, refl, sym, ◌∙◌, ap, subst, false, some, List, [], ◌∷◌, ◌++◌, ◌==◌, ==_false_sym,
}
use mathlib.Core.List.{append_assoc}
use notes_coding.Memory.{Ptr, null, write}
use notes_coding.Memory.Access.{load_then, next_then, prev_then}
use notes_coding.Memory.Chain.{
  node, has, first, last, Distinct, Linked, Linked-split, write_self, write_other, ne-of-has,
  has-last, last-ne-null,
}
use notes_coding.Memory.Unlink.{Distinct-split, outside, not-has_head}
use notes_coding.Memory.Ends.{Ends, ends}
use notes_coding.LinkedList.{LinkedList, insert, grow}
use notes_coding.LinkedList.Shape.{Cell, behind, Holds, last-node}
use notes_coding.LinkedList.Links.{
  joined-same, beyond, t-prev, tied-same, inserted-Linked, Distinct-insert, tied,
}

-- What `insert` leaves behind, as one state.
module _ (s : LinkedList) (p : Ptr) (v : ℕ) (xs : List Cell) (q : Ptr) (w : ℕ) (ys : List Cell)
    (t : Ptr) (tv : ℕ) (b old : Ptr) (d : Distinct (((p, v) ∷ xs) ++ (q, w) ∷ ys))
    (l : Linked s.nodes null (((p, v) ∷ xs) ++ (q, w) ∷ ys) null)
    (out : has t (((p, v) ∷ xs) ++ (q, w) ∷ ys) ≡ false) (real : (t == null) ≡ false)
    (held : s.nodes t ≡ some (node tv b old)) where
  abbrev into : ℕ → Ptr → LinkedList
  into u a = record {
    nodes = write (tied s.nodes p v xs q w ys t tv old d l out) (last p xs) (some (node u a t));
    fields = record (s.fields) { size = grow s.fields.size };
  }

  insert-into :
      (Q : Unit {0} → LinkedList → Type 0) (u : ℕ) (a : Ptr)
      → s.nodes (last p xs) ≡ some (node u a q)
      → Q tt (into u a)
      → Ends Q (insert (last p xs) t s)
  unfolding insert
  insert-into Q u a e r =
      let (dx, dy, apart) = Distinct-split ((p, v) ∷ xs) ((q, w) ∷ ys) d in
      let (lx, ly) = Linked-split s.nodes null ((p, v) ∷ xs) ((q, w) ∷ ys) null l in
      let off : (last p xs == t) ≡ false =
        ==_false_sym t (last p xs) (t-prev s.nodes p v xs q w ys t tv old d l out) in
      let q-off : (q == t) ≡ false =
        ==_false_sym t q
          (not-has_head t (q, w) ys (beyond s.nodes p v xs q w ys t tv old d l out)) in
      let prev-real = last-ne-null p v xs dx in
      prev_then _ _ _ _ (node tv b old) real held (
        load_then _ _ _ (node u a q) prev-real (write_other _ t _ _ off ∙ e) (
          next_then _ _ _ _ (node tv (last p xs) old) real (write_self s.nodes t _) (
            load_then _ _ _ (node u a q) prev-real
              (joined-same s.nodes p v xs q w ys t tv old d l out (last p xs) off ∙ e)
              (prev_then _ _ _ _ (node w (last p xs) (first ys null)) dy.0
                (joined-same s.nodes p v xs q w ys t tv old d l out q q-off ∙ ly.0)
                (next_then _ _ _ _ (node u a q) prev-real
                  (tied-same s.nodes p v xs q w ys t tv old d l out (last p xs) (has-last p v xs)
                    ∙ e)
                  (ends r))))))

-- The list holds the cells `ys` in place of `xs`, and only nodes of these have been written.
pub record Grown (s g : LinkedList) (t : Ptr) (xs ys : List Cell) : Type 0 where
  pub holds : Holds g ys
  pub size : g.fields.size ≡ grow s.fields.size
  pub head : g.fields.dummy_head ≡ s.fields.dummy_head
  pub tail : g.fields.dummy_tail ≡ s.fields.dummy_tail
  pub same :
      (a : Ptr)
      → has a ((s.fields.dummy_head, 0) ∷ behind s xs) ≡ false
      → (a == t) ≡ false
      → g.nodes a ≡ s.nodes a

-- The address is that of no node of the list.
abbrev pub Outside : LinkedList → List Cell → Ptr → Type 0
Outside s xs t = has t ((s.fields.dummy_head, 0) ∷ behind s xs) ≡ false

-- Something stands behind every node but the dummy tail.
pub next_cell :
    (zs : List Cell) (e : Cell)
    → (q : Ptr) × (w : ℕ) × (ys : List Cell) × (zs ++ e ∷ [] ≡ (q, w) ∷ ys)
next_cell [] e = (e.0, e.1, [], refl)
next_cell (z ∷ zs) e = (z.0, z.1, zs ++ e ∷ [], refl)

-- `insert` of a new node behind any node but the dummy tail puts it there, keeps the rest of the list
-- and its order, and adds one to `size`.
pub insert-Grown :
    (s : LinkedList) (ys zs : List Cell) (t : Ptr) (tv : ℕ) (b old : Ptr)
    → Holds s (ys ++ zs)
    → Outside s (ys ++ zs) t
    → (t == null) ≡ false
    → s.nodes t ≡ some (node tv b old)
    → Ends
        (λ _ g. Grown s g t (ys ++ zs) (ys ++ (t, tv) ∷ zs))
        (insert (last s.fields.dummy_head ys) t s)
insert-Grown s ys zs t tv b old is out real held =
    let dh : Ptr = s.fields.dummy_head in
    let e : Cell = (s.fields.dummy_tail, 0) in
    let (q, w, r, eq) = next_cell zs e in
    let split : behind s (ys ++ zs) ≡ ys ++ (q, w) ∷ r =
      append_assoc ys zs (e ∷ []) ∙ ap (λ l. ys ++ l) eq in
    let joins : ys ++ (t, tv) ∷ (q, w) ∷ r ≡ behind s (ys ++ (t, tv) ∷ zs) =
      ap (λ l. ys ++ (t, tv) ∷ l) (sym eq) ∙ sym (append_assoc ys ((t, tv) ∷ zs) (e ∷ [])) in
    let d : Distinct ((dh, 0) ∷ ys ++ (q, w) ∷ r) =
      subst (λ l. Distinct ((dh, 0) ∷ l)) split is.distinct in
    let l : Linked s.nodes null ((dh, 0) ∷ ys ++ (q, w) ∷ r) null =
      subst (λ l. Linked s.nodes null ((dh, 0) ∷ l) null) split is.linked in
    let o : has t ((dh, 0) ∷ ys ++ (q, w) ∷ r) ≡ false =
      subst (λ l. has t ((dh, 0) ∷ l) ≡ false) split out in
    let (u, a, at) =
      last-node s.nodes null dh 0 ys q
        (Linked-split s.nodes null ((dh, 0) ∷ ys) ((q, w) ∷ r) null l).0 in
    insert-into s dh 0 ys q w r t tv b old d l o real held _ u a at (record {
      holds = record {
        linked =
            subst
              (λ cs.
                Linked (into s dh 0 ys q w r t tv b old d l o real held u a).nodes null
                  ((dh, 0) ∷ cs) null)
              joins (inserted-Linked s.nodes dh 0 ys q w r t tv old d l o u a at);
        distinct =
            subst (λ l. Distinct ((dh, 0) ∷ l)) joins
              (Distinct-insert ((dh, 0) ∷ ys) t tv ((q, w) ∷ r) real o d);
      };
      size = refl;
      head = refl;
      tail = refl;
      same = λ x far ne.
          let f : has x ((dh, 0) ∷ ys ++ (q, w) ∷ r) ≡ false =
            subst (λ l. has x ((dh, 0) ∷ l) ≡ false) split far in
          let (f0, f1) = outside x ((dh, 0) ∷ ys) ((q, w) ∷ r) f in
          write_other _ (last dh ys) x _ (ne-of-has x _ ((dh, 0) ∷ ys) f0 (has-last dh 0 ys))
          ∙ write_other _ q x _ (not-has_head x (q, w) r f1)
          ∙ joined-same s.nodes dh 0 ys q w r t tv old d l o x ne;
    })
