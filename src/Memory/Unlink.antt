-- ===== src/Memory/Unlink.antt =====
-- A cell taken out of the middle of a chain.
use notes_coding.Base.{
  ◌≡◌, ◌∙◌, false, true, some, List, [], ◌∷◌, ◌++◌, arith, ◌==◌, ==_false_sym, Bool-cases, inl, inr,
}
use notes_coding.Memory.{Ptr, Node, Nodes, write}
use notes_coding.Memory.Chain.{
  node, has, first, last, Distinct, Linked, has-append, Linked-split, Linked-append, frame-write,
  write_other, has-last, relink_last, relink_first,
}

module _ {A : Type 0} where
  pub Distinct-split :
      (xs ys : List (Ptr × A))
      → Distinct (xs ++ ys)
      → Distinct xs × Distinct ys × ((a : Ptr) → has a xs ≡ true → has a ys ≡ false)
  Distinct-split [] ys d = (tt, d, λ a i. cc)
  Distinct-split ((p, v) ∷ xs) ys d =
      let (l, r, apart) = Distinct-split xs ys d.2 in
      (
        (d.0, ground (arith, has-append p xs ys), l),
        r,
        λ a i. ground (arith, has-append p xs ys, apart a),
      )

  pub Distinct-remove :
      (xs : List (Ptr × A)) (x : Ptr × A) (ys : List (Ptr × A))
      → Distinct (xs ++ x ∷ ys)
      → Distinct (xs ++ ys)
  Distinct-remove [] x ys d = d.2
  Distinct-remove ((p, v) ∷ xs) x ys d = (
    d.0,
    ground (arith, has-append p xs (x ∷ ys), has-append p xs ys),
    Distinct-remove xs x ys d.2,
  )

  pub has-remove :
      (xs : List (Ptr × A)) (x : Ptr × A) (ys : List (Ptr × A))
      → Distinct (xs ++ x ∷ ys)
      → has x.0 (xs ++ ys) ≡ false
  has-remove [] x ys d = d.1
  has-remove ((p, v) ∷ xs) x ys d = ground (arith, has-append p xs (x ∷ ys), has-remove xs x ys d.2)

  pub not-has_tail :
      (a : Ptr) (x : Ptr × A) (xs : List (Ptr × A)) → has a (x ∷ xs) ≡ false → has a xs ≡ false
  not-has_tail a x xs h = ground arith

  pub not-has_head :
      (a : Ptr) (x : Ptr × A) (xs : List (Ptr × A)) → has a (x ∷ xs) ≡ false → (a == x.0) ≡ false
  not-has_head a x xs h = ground arith

  pub has_second :
      (q t : Ptr) (tv w : A) (ys : List (Ptr × A)) → has q ((t, tv) ∷ (q, w) ∷ ys) ≡ true
  has_second q t tv w ys = ground arith

  pub apart_sym :
      (xs ys : List (Ptr × A)) (a : Ptr)
      → ((a : Ptr) → has a xs ≡ true → has a ys ≡ false)
      → has a ys ≡ true
      → has a xs ≡ false
  apart_sym xs ys a apart i = elim (Bool-cases (has a xs)) [ inl h ↦ cc (apart a h) | inr h ↦ h ]

  -- `t` between the last cell behind `p` and the cell `q`: the two writes that bypass it.
  module _ (h : Nodes A) (b p : Ptr) (v : A) (xs : List (Ptr × A)) (t : Ptr) (tv : A) (q : Ptr)
      (w : A) (ys : List (Ptr × A)) (stop : Ptr)
      (d : Distinct (((p, v) ∷ xs) ++ (t, tv) ∷ (q, w) ∷ ys))
      (l : Linked h b (((p, v) ∷ xs) ++ (t, tv) ∷ (q, w) ∷ ys) stop) where
    abbrev pub Bypassed : Node A → Type 0
    Bypassed n =
        let h' : Nodes A = write h (last p xs) (some (record n { next = q })) in
        (h (last p xs) ≡ some n)
        × (h' t ≡ some (node tv (last p xs) q))
        × (h' q ≡ some (node w t (first ys stop)))
        × Linked (write h' q (some (node w (last p xs) (first ys stop)))) b
            (((p, v) ∷ xs) ++ (q, w) ∷ ys) stop

    pub bypass_chain : (n : Node A) × Bypassed n
    bypass_chain =
        let (dx, dy, apart) = Distinct-split ((p, v) ∷ xs) ((t, tv) ∷ (q, w) ∷ ys) d in
        let (lx, ly) = Linked-split h b ((p, v) ∷ xs) ((t, tv) ∷ (q, w) ∷ ys) stop l in
        let (n, held, l') = relink_last h b p v xs t q dx lx in
        let far = apart (last p xs) (has-last p v xs) in
        let c = some (record n { next = q }) in
        let ly' =
          frame-write h t ((q, w) ∷ ys) stop (last p xs) c ly.1
            (not-has_tail (last p xs) (t, tv) ((q, w) ∷ ys) far) in
        let q-out =
          apart_sym ((p, v) ∷ xs) ((t, tv) ∷ (q, w) ∷ ys) q apart (has_second q t tv w ys) in
        let t-far = not-has_head (last p xs) (t, tv) ((q, w) ∷ ys) far in
        (
          n,
          (
            held,
            write_other h (last p xs) t c (==_false_sym (last p xs) t t-far) ∙ ly.0,
            ly'.0,
            Linked-append _ b ((p, v) ∷ xs) ((q, w) ∷ ys) stop
                (frame-write _ b ((p, v) ∷ xs) q q _ l' q-out)
                (relink_first _ t (last p xs) q w ys stop dy.2.1 ly'),
          ),
        )

  pub outside :
      (a : Ptr) (xs ys : List (Ptr × A))
      → has a (xs ++ ys) ≡ false
      → (has a xs ≡ false) × (has a ys ≡ false)
  outside a xs ys h = ground (arith, has-append a xs ys)
