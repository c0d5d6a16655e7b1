-- ===== src/Memory/Content.antt =====
-- A write to the content of a cell in a chain: the links stay.
use notes_coding.Base.{◌≡◌, refl, ap, sym, ◌∙◌, true, ◌||◌, some, List, [], ◌∷◌, ◌++◌, arith, ◌==◌}
use notes_coding.Memory.{Ptr, Nodes, write}
use notes_coding.Memory.Chain.{
  node, has, first, last, Distinct, Linked, has-append, frame-write, write_self, write_other,
  ne-of-has,
}

module _ {A : Type 0} (t : Ptr) (v v' : A) where
  pub first-content :
      (ys zs : List (Ptr × A)) (stop : Ptr)
      → first (ys ++ (t, v) ∷ zs) stop ≡ first (ys ++ (t, v') ∷ zs) stop
  first-content [] zs stop = refl
  first-content (y ∷ ys) zs stop = refl

  pub has-content :
      (a : Ptr) (ys zs : List (Ptr × A)) → has a (ys ++ (t, v) ∷ zs) ≡ has a (ys ++ (t, v') ∷ zs)
  has-content a [] zs = refl
  has-content a ((p, w) ∷ ys) zs = ap (λ b. a == p || b) (has-content a ys zs)

  pub has_middle : (ys zs : List (Ptr × A)) → has t (ys ++ (t, v) ∷ zs) ≡ true
  has_middle ys zs = ground (arith, has-append t ys ((t, v) ∷ zs))

  pub last-content :
      (b : Ptr) (ys zs : List (Ptr × A)) → last b (ys ++ (t, v) ∷ zs) ≡ last b (ys ++ (t, v') ∷ zs)
  last-content b [] zs = refl
  last-content b ((p, w) ∷ ys) zs = last-content p ys zs

  pub Distinct-content :
      (ys zs : List (Ptr × A)) → Distinct (ys ++ (t, v) ∷ zs) → Distinct (ys ++ (t, v') ∷ zs)
  Distinct-content [] zs d = d
  Distinct-content ((p, w) ∷ ys) zs d =
      (d.0, sym (has-content p ys zs) ∙ d.1, Distinct-content ys zs d.2)

  pub Linked-content :
      (h : Nodes A) (b : Ptr) (ys zs : List (Ptr × A)) (stop : Ptr)
      → Distinct (ys ++ (t, v) ∷ zs)
      → Linked h b (ys ++ (t, v) ∷ zs) stop
      → Linked (write h t (some (node v' (last b ys) (first zs stop)))) b (ys ++ (t, v') ∷ zs) stop
  Linked-content h b [] zs stop d l = (write_self h t _, frame-write h t zs stop t _ l.1 d.1)
  Linked-content h b ((p, w) ∷ ys) zs stop d l = (
    write_other h t p _ (ne-of-has p t (ys ++ (t, v) ∷ zs) d.1 (has_middle ys zs))
        ∙ l.0
        ∙ ap (λ q. some (node w b q)) (first-content ys zs stop),
    Linked-content h p ys zs stop d.2 l.1,
  )
