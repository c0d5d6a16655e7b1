-- ===== src/LinkedList/Links.antt =====
-- The links of a node that comes between two others.
use notes_coding.Base.{
  ℕ, ◌≡◌, sym, ◌∙◌, subst, arith, true, false, some, List, [], ◌∷◌, ◌++◌, ◌==◌, ==_false_sym,
  some-injective,
}
use notes_coding.Memory.{Ptr, null, Nodes, write}
use notes_coding.Memory.Chain.{
  node, has, first, last, Distinct, Linked, Linked-split, Linked-append, frame, frame-write,
  write_self, write_other, ne-of-has, has-last, has-append, relink_last, relink_first,
}
use notes_coding.Memory.Unlink.{Distinct-split, outside, not-has_head, not-has_tail, apart_sym}
use notes_coding.LinkedList.Shape.{Cell}

-- A node `t` that is in no chain, put between the last cell behind `p` and the cell `q`.
module _ (h : Nodes ℕ) (p : Ptr) (v : ℕ) (xs : List Cell) (q : Ptr) (w : ℕ) (ys : List Cell)
    (t : Ptr) (tv : ℕ) (old : Ptr) (d : Distinct (((p, v) ∷ xs) ++ (q, w) ∷ ys))
    (l : Linked h null (((p, v) ∷ xs) ++ (q, w) ∷ ys) null)
    (out : has t (((p, v) ∷ xs) ++ (q, w) ∷ ys) ≡ false) where
  abbrev pub prev : Ptr
  prev = last p xs

  -- The first link of `t` is set, then both, then the one that leads back to it.
  abbrev pub begun : Nodes ℕ
  begun = write h t (some (node tv prev old))

  abbrev pub joined : Nodes ℕ
  joined = write begun t (some (node tv prev q))

  abbrev pub tied : Nodes ℕ
  tied = write joined q (some (node w t (first ys null)))

  pub joined-same : (a : Ptr) → (a == t) ≡ false → joined a ≡ h a
  joined-same a far = write_other begun t a _ far ∙ write_other h t a _ far

  pub before : has t ((p, v) ∷ xs) ≡ false
  before = (outside t ((p, v) ∷ xs) ((q, w) ∷ ys) out).0

  pub beyond : has t ((q, w) ∷ ys) ≡ false
  beyond = (outside t ((p, v) ∷ xs) ((q, w) ∷ ys) out).1

  pub t-prev : (t == prev) ≡ false
  t-prev = ne-of-has t prev ((p, v) ∷ xs) before (has-last p v xs)

  prev-far : has prev ((q, w) ∷ ys) ≡ false
  prev-far = (Distinct-split ((p, v) ∷ xs) ((q, w) ∷ ys) d).2 prev (has-last p v xs)

  q-far : has q ((p, v) ∷ xs) ≡ false
  q-far =
      apart_sym ((p, v) ∷ xs) ((q, w) ∷ ys) q (Distinct-split ((p, v) ∷ xs) ((q, w) ∷ ys) d).2
        (ground arith)

  pub tied-same : (a : Ptr) → has a ((p, v) ∷ xs) ≡ true → tied a ≡ h a
  tied-same a i =
      write_other joined q a _ (==_false_sym q a (ne-of-has q a ((p, v) ∷ xs) q-far i))
      ∙ joined-same a (==_false_sym t a (ne-of-has t a ((p, v) ∷ xs) before i))

  pub inserted-Linked :
      (u : ℕ) (b : Ptr)
      → h prev ≡ some (node u b q)
      → Linked
          (write tied prev (some (node u b t)))
          null
          (((p, v) ∷ xs) ++ (t, tv) ∷ (q, w) ∷ ys)
          null
  inserted-Linked u b e =
      let (dx, dy, apart) = Distinct-split ((p, v) ∷ xs) ((q, w) ∷ ys) d in
      let (lx, ly) = Linked-split h null ((p, v) ∷ xs) ((q, w) ∷ ys) null l in
      let lx' : Linked tied null ((p, v) ∷ xs) q = frame h tied null ((p, v) ∷ xs) q lx tied-same in
      let (n, held, left) = relink_last tied null p v xs q t dx lx' in
      let n-eq : n ≡ node u b q =
        some-injective (sym held ∙ tied-same prev (has-last p v xs) ∙ e) in
      let ly' : Linked joined prev ((q, w) ∷ ys) null =
        frame h joined prev ((q, w) ∷ ys) null ly
          (λ a i. joined-same a (==_false_sym t a (ne-of-has t a ((q, w) ∷ ys) beyond i))) in
      let right : Linked tied t ((q, w) ∷ ys) null =
        relink_first joined prev t q w ys null dy.1 ly' in
      let c = some (node u b t) in
      Linked-append (write tied prev c) null ((p, v) ∷ xs) ((t, tv) ∷ (q, w) ∷ ys) null
        (subst (λ m. Linked (write tied prev (some (record m { next = t }))) null ((p, v) ∷ xs) t)
          n-eq left)
        (
          write_other tied prev t c t-prev
              ∙ write_other joined q t _ (not-has_head t (q, w) ys beyond)
              ∙ write_self begun t _,
          frame-write tied t ((q, w) ∷ ys) null prev c right prev-far,
        )

pub Distinct-insert :
    (xs : List Cell) (t : Ptr) (tv : ℕ) (ys : List Cell)
    → (t == null) ≡ false
    → has t (xs ++ ys) ≡ false
    → Distinct (xs ++ ys)
    → Distinct (xs ++ (t, tv) ∷ ys)
Distinct-insert [] t tv ys real out d = (real, out, d)
Distinct-insert ((p, v) ∷ xs) t tv ys real out d = (
  d.0,
  ground (arith, has-append p xs ys, has-append p xs ((t, tv) ∷ ys)),
  Distinct-insert xs t tv ys real (not-has_tail t (p, v) (xs ++ ys) out) d.2,
)
