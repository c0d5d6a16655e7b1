-- ===== src/Memory/Chain.antt =====
-- Doubly linked chains of nodes: what a walk along `next` meets, and what `prev` leads back to.
use notes_coding.Base.{
  ◌≡◌, refl, ap, ◌∙◌, Bool, false, true, ◌||◌, Option, some, List, [], ◌∷◌, ◌++◌, arith, ◌==◌,
  Bool-cases, inl, inr,
}
use notes_coding.Memory.{Ptr, null, Node, Nodes, write}

module _ {A : Type 0} where
  abbrev pub node : A → Ptr → Ptr → Node A
  node v b q = record { content = v; prev = b; next = q }

  abbrev pub has : Ptr → List (Ptr × A) → Bool
  has a [] = false
  has a ((p, _) ∷ xs) = a == p || has a xs

  -- The address of the first cell, or what stands behind the chain.
  abbrev pub first : List (Ptr × A) → Ptr → Ptr
  first [] stop = stop
  first ((p, _) ∷ xs) stop = p

  -- The address of the last cell, or what stands before the chain.
  abbrev pub last : Ptr → List (Ptr × A) → Ptr
  last b [] = b
  last b ((p, _) ∷ xs) = last p xs

  -- The addresses are distinct, and none is null.
  abbrev pub Distinct : List (Ptr × A) → Type 0
  Distinct [] = Unit
  Distinct ((p, _) ∷ xs) = ((p == null) ≡ false) × (has p xs ≡ false) × Distinct xs

  -- The cells stand in `h` one behind another, after `b` and before `stop`.
  abbrev pub Linked : Nodes A → Ptr → List (Ptr × A) → Ptr → Type 0
  Linked h b [] stop = Unit
  Linked h b ((p, v) ∷ xs) stop = (h p ≡ some (node v b (first xs stop))) × Linked h p xs stop

  pub has-append : (a : Ptr) (xs ys : List (Ptr × A)) → has a (xs ++ ys) ≡ (has a xs || has a ys)
  has-append a [] ys = refl
  has-append a ((p, v) ∷ xs) ys = ground (arith, has-append a xs ys)

  pub first-append :
      (xs ys : List (Ptr × A)) (stop : Ptr) → first (xs ++ ys) stop ≡ first xs (first ys stop)
  first-append [] ys stop = refl
  first-append (x ∷ xs) ys stop = refl

  pub last-append : (b : Ptr) (xs ys : List (Ptr × A)) → last b (xs ++ ys) ≡ last (last b xs) ys
  last-append b [] ys = refl
  last-append b ((p, v) ∷ xs) ys = last-append p xs ys

  pub Linked-split :
      (h : Nodes A) (b : Ptr) (xs ys : List (Ptr × A)) (stop : Ptr)
      → Linked h b (xs ++ ys) stop
      → Linked h b xs (first ys stop) × Linked h (last b xs) ys stop
  Linked-split h b [] ys stop l = (tt, l)
  Linked-split h b ((p, v) ∷ xs) ys stop l =
      let rest = Linked-split h p xs ys stop l.1 in ((l.0 ∙ cell, rest.0), rest.1)
    where
      cell : some (node v b (first (xs ++ ys) stop)) ≡ some (node v b (first xs (first ys stop)))
      cell = ap (λ q. some (node v b q)) (first-append xs ys stop)

  pub Linked-append :
      (h : Nodes A) (b : Ptr) (xs ys : List (Ptr × A)) (stop : Ptr)
      → Linked h b xs (first ys stop)
      → Linked h (last b xs) ys stop
      → Linked h b (xs ++ ys) stop
  Linked-append h b [] ys stop l m = m
  Linked-append h b ((p, v) ∷ xs) ys stop l m =
      (rw (first-append xs ys stop) l.0, Linked-append h p xs ys stop l.1 m)

  -- A chain survives any change that spares its own cells.
  pub frame :
      (h g : Nodes A) (b : Ptr) (xs : List (Ptr × A)) (stop : Ptr)
      → Linked h b xs stop
      → ((a : Ptr) → has a xs ≡ true → g a ≡ h a)
      → Linked g b xs stop
  frame h g b [] stop l same = tt
  frame h g b ((p, v) ∷ xs) stop l same =
      (same p (ground arith) ∙ l.0, frame h g p xs stop l.1 (λ a i. same a (ground arith)))

  pub frame-write :
      (h : Nodes A) (b : Ptr) (xs : List (Ptr × A)) (stop a : Ptr) (c : Option (Node A))
      → Linked h b xs stop
      → has a xs ≡ false
      → Linked (write h a c) b xs stop
  unfolding write
  frame-write h b xs stop a c l out = frame h _ b xs stop l (ground arith)

  pub write_self : (h : Nodes A) (p : Ptr) (c : Option (Node A)) → write h p c p ≡ c
  unfolding write
  write_self h p c = ground arith

  pub write_other :
      (h : Nodes A) (p a : Ptr) (c : Option (Node A)) → (a == p) ≡ false → write h p c a ≡ h a
  unfolding write
  write_other h p a c e = rw e

  pub ne-of-has :
      (p a : Ptr) (xs : List (Ptr × A)) → has p xs ≡ false → has a xs ≡ true → (p == a) ≡ false
  ne-of-has p a xs out into = elim (Bool-cases (p == a)) [ inl e ↦ ground arith | inr e ↦ e ]

  pub has-last : (p : Ptr) (v : A) (xs : List (Ptr × A)) → has (last p xs) ((p, v) ∷ xs) ≡ true
  has-last p v [] = ground arith
  has-last p v ((q, w) ∷ xs) = ground (arith, has-last q w xs)

  pub last-ne-null :
      (p : Ptr) (v : A) (xs : List (Ptr × A)) → Distinct ((p, v) ∷ xs) → (last p xs == null) ≡ false
  last-ne-null p v [] d = d.0
  last-ne-null p v ((q, w) ∷ xs) d = last-ne-null q w xs d.2

  -- A write to the `next` of the last cell moves the end of the chain.
  pub relink_last :
      (h : Nodes A) (b p : Ptr) (v : A) (xs : List (Ptr × A)) (stop stop' : Ptr)
      → Distinct ((p, v) ∷ xs)
      → Linked h b ((p, v) ∷ xs) stop
      → (n : Node A) × (h (last p xs) ≡ some n)
        × Linked (write h (last p xs) (some (record n { next = stop' }))) b ((p, v) ∷ xs) stop'
  unfolding write
  relink_last h b p v [] stop stop' d l = (node v b stop, l.0, (ground arith, tt))
  relink_last h b p v ((q, w) ∷ xs) stop stop' d l =
      let (n, e, m) = relink_last h p q w xs stop stop' d.2 l.1 in
      (n, e, (write_other h _ p _ (ne-of-has p _ ((q, w) ∷ xs) d.1 (has-last q w xs)) ∙ l.0, m))

  -- A write to the `prev` of the first cell moves the start of the chain.
  pub relink_first :
      (h : Nodes A) (b b' p : Ptr) (v : A) (xs : List (Ptr × A)) (stop : Ptr)
      → has p xs ≡ false
      → Linked h b ((p, v) ∷ xs) stop
      → Linked (write h p (some (node v b' (first xs stop)))) b' ((p, v) ∷ xs) stop
  relink_first h b b' p v xs stop out l =
      (unfold write in ground arith, frame-write h p xs stop p _ l.1 out)
