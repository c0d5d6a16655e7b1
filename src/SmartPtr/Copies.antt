-- ===== src/SmartPtr/Copies.antt =====
-- The copy constructor and the copy assignment of smart_ptr.cpp.
use notes_coding.Base.{
  ℕ, zero, suc, ◌+◌, ◌^◌, ◌<◌, ◌≡◌, ◌≢◌, ◌⊎◌, refl, ap, sym, ◌∙◌, inl, inr, false, Option, none,
  some, List, [], ◌∷◌, ◌++◌, arith, ◌==◌, Bool-cases, if◌then◌else◌, get_elem?, set, length,
  length-set, length-append, get_elem?-set_ne, set-set,
}
use notes_coding.Memory.{Ptr, null, fault}
use notes_coding.Memory.Ends
use notes_coding.Memory.Ends.{Ends, ends}
use notes_coding.SmartPtr.{
  SmartPtr, World, empty, load_count, increment, copy_construct, copy_assign,
}
use notes_coding.SmartPtr.Refs.{
  refers, refs, refs-append, refs-set, refs-le-length, refers-le-refs, refs-lt-length,
}
use notes_coding.SmartPtr.Sound.{Counted, objects_without, release-Released}
use notes_coding.SmartPtr.Lifetime.{read-done, increment-lem, more-Counted, get-append}

get-set :
    (vs : List (Option SmartPtr)) (x : ℕ) (h : SmartPtr) (y : ℕ) (k : SmartPtr)
    → get_elem? (set vs x (some h)) y ≡ some (some k)
    → (get_elem? (set vs x none) y ≡ some (some k)) ⊎ (k ≡ h)
get-set [] x h y k e = inl e
get-set (v ∷ vs) zero h zero k e = inr (cc)
get-set (v ∷ vs) zero h (suc y) k e = inl e
get-set (v ∷ vs) (suc x) h zero k e = inl e
get-set (v ∷ vs) (suc x) h (suc y) k e = get-set vs x h y k e

module _ (own : Ptr → Ptr) (w : World) (is : Counted own w) (y : ℕ) (o : SmartPtr)
    (held : get_elem? w.vars y ≡ some (some o)) (real : (o.cnt_ == null) ≡ false) where
  shared : 0 < refs o.cnt_ w.vars
  shared = ground (arith, refers-le-refs o.cnt_ w.vars y (some o) held)

  -- A copy of a variable that is not empty is one more variable of its object, rightly counted,
  -- as long as there are fewer than 2 ^ 64 variables.
  pub copy_construct-Counted :
      length w.vars + 1 < 2 ^ 64
      → Ends (λ _ g. Counted own g × (g.vars ≡ w.vars ++ some o ∷ [])) (copy_construct y w)
  unfolding copy_construct
  copy_construct-Counted small =
      let owns = is.owned y o held real in
      let le = refs-le-length o.cnt_ w.vars in
      rw (read-done w y o held, increment-lem own w is o real shared owns w refl (omega arith))
        (ends (
          more-Counted own w is o real shared owns (w.vars ++ some o ∷ [])
              (λ c. refs-append c w.vars (some o)) (get-append w.vars o)
              (omega (arith, length-append w.vars (some o ∷ []))),
          refl,
        ))

  module _ (x : ℕ) (t : SmartPtr) (target : get_elem? w.vars x ≡ some (some t))
      (differ : (t.ptr_ == o.ptr_) ≡ false) where
    x-ne-y : x ≢ y
    x-ne-y e = ground (arith, sym target ∙ ap (get_elem? w.vars) e ∙ held)

    still : get_elem? (set w.vars x none) y ≡ some (some o)
    still = get_elem?-set_ne w.vars x y none x-ne-y ∙ held

    copy_assign_new :
        Ends
          (λ _ g.
            Counted own g × (g.vars ≡ set w.vars x (some o)) × (g.objects ≡ objects_without t w))
          (copy_assign x y w)
    unfolding copy_assign
    copy_assign_new =
        rw (read-done w x t target, read-done w y o held, differ)
          (Ends.then (release-Released own w is x t target) λ t' g (e, r, off).
            let base : World = record g { vars = set w.vars x none } in
            let left : World = record g { vars = set g.vars x (some t') } in
            let at : get_elem? left.vars y ≡ some (some o) =
              get_elem?-set_ne g.vars x y (some t') x-ne-y ∙ ap (λ vs. get_elem? vs y) e ∙ held in
            let live : 0 < refs o.cnt_ base.vars =
              ground (arith, refers-le-refs o.cnt_ base.vars y (some o) still) in
            let owns = is.owned y o held real in
            let now : World = record g { vars = set left.vars x (some o) } in
            let same : now.vars ≡ set w.vars x (some o) =
              set-set g.vars x (some t') (some o) ∙ ap (λ vs. set vs x (some o)) e in
            let room = refs-lt-length o.cnt_ w.vars x (some t) target in
            let one : (c : Ptr) → refs c now.vars ≡ refs c base.vars + refers c (some o) = λ c.
              ap (refs c) same
              ∙ omega (
                arith,
                refs-set c w.vars x (some t) (some o) target,
                refs-set c w.vars x (some t) none target,
              ) in
            let old : (z : ℕ) (k : SmartPtr)
                → get_elem? now.vars z ≡ some (some k)
                → (get_elem? base.vars z ≡ some (some k)) ⊎ (k ≡ o) =
              λ z k a. get-set w.vars x o z k (ap (λ vs. get_elem? vs z) (sym same) ∙ a) in
            let size : length now.vars < 2 ^ 64 =
              rw (same, length-set w.vars x (some o)) is.small in
            rw
              (
                read-done left y o at,
                increment-lem own base r o real live owns now refl (omega (arith, is.small)),
              )
              (ends (more-Counted own base r o real live owns now.vars one old size, same, off)))

-- Assignment from a variable that is not empty makes the target share its object, and keeps every
-- count right: what the target held is given up, and the object is freed if the target was the last to
-- hold it, and no other object is. Between variables of one object nothing changes.
pub copy_assign-Counted :
    (own : Ptr → Ptr) (w : World) (x y : ℕ) (t o : SmartPtr)
    → Counted own w
    → get_elem? w.vars x ≡ some (some t)
    → get_elem? w.vars y ≡ some (some o)
    → (o.cnt_ == null) ≡ false
    → Ends
        (λ _ g.
          Counted own g
          × (g.vars ≡ (if t.ptr_ == o.ptr_ then w.vars else set w.vars x (some o)))
          × (g.objects ≡ (if t.ptr_ == o.ptr_ then w.objects else objects_without t w)))
        (copy_assign x y w)
unfolding copy_assign
copy_assign-Counted own w x y t o is target held real = elim (Bool-cases (t.ptr_ == o.ptr_)) [
  | inl same ↦ rw (read-done w x t target, read-done w y o held, same) (ends (is, refl, refl))
  | inr differ ↦ rw differ (copy_assign_new own w is y o held real x t target differ)
]

-- A copy construction from an empty variable writes through its null `cnt_`.
pub copy_empty-fault :
    (w : World) (y : ℕ) → get_elem? w.vars y ≡ some (some empty) → copy_construct y w ≡ fault
unfolding copy_construct increment load_count
copy_empty-fault w y held = rw (read-done w y empty held)
