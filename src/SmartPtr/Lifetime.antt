-- ===== src/SmartPtr/Lifetime.antt =====
-- The constructor, the destructor and `getCnt` of smart_ptr.cpp.
use notes_coding.Base.{
  ℕ, zero, suc, ◌+◌, ◌^◌, ◌<◌, ◌≡◌, ◌≢◌, ◌⊎◌, ap, sym, ◌∙◌, subst, inl, inr, true, false, Option,
  none, some, List, [], ◌∷◌, ◌++◌, arith, ◌==◌, Bool-cases, get_elem?, set, length, length-append,
}
use notes_coding.Memory.{Ptr, null, write, done}
use notes_coding.Memory.Ends
use notes_coding.Memory.Ends.{Ends, ends}
use notes_coding.SmartPtr.{
  SmartPtr, World, load_count, increment, read, construct, destroy, get_cnt,
}
use notes_coding.SmartPtr.Refs.{refers, refs, refs-append, refers-le-refs}
use notes_coding.SmartPtr.Sound.{Counted, release-Released}

pub read-done :
    (w : World) (x : ℕ) (h : SmartPtr) → get_elem? w.vars x ≡ some (some h) → read x w ≡ done h w
unfolding read
read-done w x h e = rw (e, read)

-- The destructor of a live variable does not fault, and keeps every count right: the last one to go
-- frees the object and the count.
pub destroy-Counted :
    (own : Ptr → Ptr) (w : World) (x : ℕ) (h : SmartPtr)
    → Counted own w
    → get_elem? w.vars x ≡ some (some h)
    → Ends (λ _ g. Counted own g × (g.vars ≡ set w.vars x none)) (destroy x w)
unfolding destroy
destroy-Counted own w x h is held = rw (read-done w x h held) (
    Ends.then (release-Released own w is x h held) λ h' g (e, r, off). ends (
      subst (λ vs. Counted own (record g { vars = set vs x none })) (sym e) r,
      ap (λ vs. set vs x none) e,
    ))

-- `getCnt()` is the number of live variables that share the object.
pub get_cnt-refs :
    (own : Ptr → Ptr) (w : World) (x : ℕ) (h : SmartPtr)
    → Counted own w
    → get_elem? w.vars x ≡ some (some h)
    → (h.cnt_ == null) ≡ false
    → get_cnt x w ≡ done (refs h.cnt_ w.vars) w
unfolding get_cnt load_count
get_cnt-refs own w x h is held real =
    rw (read-done w x h held)
      (ground (arith, is.counts h.cnt_ real, refers-le-refs h.cnt_ w.vars x (some h) held))

module _ (own : Ptr → Ptr) (w : World) (is : Counted own w) (o : SmartPtr)
    (real : (o.cnt_ == null) ≡ false) (live : 0 < refs o.cnt_ w.vars)
    (owns : o.ptr_ ≡ own o.cnt_) where
  -- `++(*cnt_)` in a world with these counts.
  pub increment-lem :
      (u : World)
      → u.counts ≡ w.counts
      → refs o.cnt_ w.vars + 1 < 2 ^ 64
      → increment o.cnt_ u
        ≡ done tt (record u { counts = write u.counts o.cnt_ (some (refs o.cnt_ w.vars + 1)) })
  unfolding increment load_count
  increment-lem u e small =
      let at : u.counts o.cnt_ ≡ some (refs o.cnt_ w.vars) =
        ap (λ f. f o.cnt_) e ∙ ground (arith, is.counts o.cnt_ real) in
      rw (real, at) (ground arith)

  -- One more variable that shares the object of `o`.
  pub more-Counted :
      (vs : List (Option SmartPtr))
      → ((c : Ptr) → refs c vs ≡ refs c w.vars + refers c (some o))
      → ((y : ℕ) (k : SmartPtr)
          → get_elem? vs y ≡ some (some k)
          → (get_elem? w.vars y ≡ some (some k)) ⊎ (k ≡ o))
      → length vs < 2 ^ 64
      → Counted own (record {
        objects = w.objects;
        counts = write w.counts o.cnt_ (some (refs o.cnt_ w.vars + 1));
        vars = vs;
      })
  unfolding write
  more-Counted vs one old small = record {
    counts = λ c r. ground (arith, one c, is.counts c r);
    owned = λ y k at r. elim (old y k at) [
      | inl e ↦ is.owned y k e r
      | inr e ↦ subst (λ k. k.ptr_ ≡ own k.cnt_) (sym e) owns
    ];
    alive = λ c r l. is.alive c r (was c l);
    apart = λ c d rc rd lc ld. is.apart c d rc rd (was c lc) (was d ld);
    small = small;
  }
    where
      was : (c : Ptr) → 0 < refs c vs → 0 < refs c w.vars
      was c l = ground (arith, one c)

pub get-append :
    (vs : List (Option SmartPtr)) (h : SmartPtr) (y : ℕ) (k : SmartPtr)
    → get_elem? (vs ++ some h ∷ []) y ≡ some (some k)
    → (get_elem? vs y ≡ some (some k)) ⊎ (k ≡ h)
get-append [] h zero k e = inr (cc)
get-append [] h (suc y) k e = cc
get-append (v ∷ vs) h zero k e = inl e
get-append (v ∷ vs) h (suc y) k e = get-append vs h y k e

live_or_new :
    (vs : List (Option SmartPtr)) (p c d : Ptr)
    → 0 < refs d (vs ++ some (record { ptr_ = p; cnt_ = c }) ∷ [])
    → (d ≡ c) ⊎ (0 < refs d vs)
live_or_new vs p c d l = elim (Bool-cases (c == d)) [
  | inl e ↦ inl (ground arith)
  | inr e ↦ inr (ground (arith, refs-append d vs (some (record { ptr_ = p; cnt_ = c }))))
]

abbrev wrap : Ptr → Ptr → SmartPtr
wrap p c = record { ptr_ = p; cnt_ = c }

module _ (own : Ptr → Ptr) (w : World) (p c : Ptr) (is : Counted own w)
    (p-real : (p == null) ≡ false) (c-real : (c == null) ≡ false) (on : w.objects p ≡ true)
    (new : refs c w.vars ≡ 0) (owns : own c ≡ p)
    (fresh : (d : Ptr) → (d == null) ≡ false → 0 < refs d w.vars → own d ≢ p)
    (small : length w.vars + 1 < 2 ^ 64) where
  built : Counted own (record {
    objects = w.objects;
    counts = write w.counts c (some 1);
    vars = w.vars ++ some (wrap p c) ∷ [];
  })
  unfolding write
  built = record {
    counts = λ d r. ground (arith, refs-append d w.vars (some (wrap p c)), is.counts d r);
    owned = λ y k at r. elim (get-append w.vars (wrap p c) y k at) [
      | inl e ↦ is.owned y k e r
      | inr e ↦ subst (λ k. k.ptr_ ≡ own k.cnt_) (sym e) (sym owns)
    ];
    alive = λ d r l. elim (live_or_new w.vars p c d l) [
      | inl e ↦ let q : own d ≡ p = ap own e ∙ owns in (rw q p-real, ap w.objects q ∙ on)
      | inr l ↦ is.alive d r l
    ];
    apart = λ d e rd re ld le same. elim (live_or_new w.vars p c d ld) [
      | inl dc ↦ elim (live_or_new w.vars p c e le) [
        | inl ec ↦ dc ∙ sym ec
        | inr l ↦ absurd (fresh e re l (sym same ∙ ap own dc ∙ owns))
      ]
      | inr l ↦ elim (live_or_new w.vars p c e le) [
        | inl ec ↦ absurd (fresh d rd l (same ∙ ap own ec ∙ owns))
        | inr m ↦ is.apart d e rd re l m same
      ]
    ];
    small = omega (arith, length-append w.vars (some (wrap p c) ∷ []));
  }

  -- A smart pointer made from an object that no other one has, with a count that was not in use, is
  -- counted once; every other count stays right.
  pub construct-Counted :
      Ends (λ _ g. Counted own g × (refs c g.vars ≡ 1) × (g.objects p ≡ true)) (construct p c w)
  unfolding construct
  construct-Counted = ends (built, ground (arith, refs-append c w.vars (some (wrap p c))), on)
