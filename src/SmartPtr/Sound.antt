-- ===== src/SmartPtr/Sound.antt =====
-- The invariant of the counts, and `release`.
use notes_coding.Base.{
  ℕ, zero, suc, ◌+◌, ◌-◌, ◌^◌, ◌≤◌, ◌<◌, ◌≡◌, refl, inl, inr, Bool, true, false, Option, none, some,
  List, [], ◌∷◌, arith, ◌==◌, Bool-cases, if◌then◌else◌, get_elem?, set, length, length-set, ap,
  ◌∙◌,
}
use notes_coding.Memory.{Ptr, null, write, done}
use notes_coding.Memory.Ends.{Ends, ends}
use notes_coding.SmartPtr.{
  SmartPtr, World, load_count, decrement, delete_object, delete_count, release,
}
use notes_coding.SmartPtr.Refs.{refers, refs, refs-set, refs-le-length, refers-le-refs}

-- `own` says which object a count is for. A count without variables is freed, and any other is the
-- number of its variables; its object is allocated, and no other count has it.
pub record Counted (own : Ptr → Ptr) (w : World) : Type 0 where
  pub counts :
      (c : Ptr)
      → (c == null) ≡ false
      → w.counts c ≡ (if refs c w.vars == 0 then none else some (refs c w.vars))
  pub owned :
      (x : ℕ) (h : SmartPtr)
      → get_elem? w.vars x ≡ some (some h)
      → (h.cnt_ == null) ≡ false
      → h.ptr_ ≡ own h.cnt_
  pub alive :
      (c : Ptr)
      → (c == null) ≡ false
      → 0 < refs c w.vars
      → ((own c == null) ≡ false) × (w.objects (own c) ≡ true)
  pub apart :
      (c d : Ptr)
      → (c == null) ≡ false
      → (d == null) ≡ false
      → 0 < refs c w.vars
      → 0 < refs d w.vars
      → own c ≡ own d
      → c ≡ d
  pub small : length w.vars < 2 ^ 64

delete_object-lem :
    (p : Ptr)
    → (p == null) ≡ false
    → (w : World) → w.objects p ≡ true
    → delete_object p w
      ≡ done tt (record w { objects = λ a. if a == p then false else w.objects a })
unfolding delete_object
delete_object-lem p real w on = rw (real, on)

delete_count-lem :
    (c : Ptr)
    → (c == null) ≡ false
    → (w : World) (n : ℕ) → w.counts c ≡ some n
    → delete_count c w ≡ done tt (record w { counts = write w.counts c none })
unfolding delete_count load_count
delete_count-lem c real w n e = rw (real, e)

-- The objects that are allocated when `h` is given up: its object is freed if `h` is the only variable
-- of its count, and no other object is.
unfoldable pub objects_without : SmartPtr → World → Ptr → Bool
objects_without h w =
    if h.cnt_ == null
    then w.objects
    else if refs h.cnt_ w.vars == 1
    then (λ a. if a == h.ptr_ then false else w.objects a)
    else w.objects

-- A world whose variables are some of those of `w`.
module _ (own : Ptr → Ptr) (w g : World) (is : Counted own w)
    (fewer : (c : Ptr) → (c == null) ≡ false → refs c g.vars ≤ refs c w.vars) where
  fewer-Counted :
      ((c : Ptr)
        → (c == null) ≡ false
        → g.counts c ≡ (if refs c g.vars == 0 then none else some (refs c g.vars)))
      → ((y : ℕ) (k : SmartPtr)
          → get_elem? g.vars y ≡ some (some k)
          → get_elem? w.vars y ≡ some (some k))
      → ((c : Ptr)
          → (c == null) ≡ false
          → 0 < refs c g.vars
          → g.objects (own c) ≡ w.objects (own c))
      → length g.vars ≡ length w.vars
      → Counted own g
  fewer-Counted counts same kept size = record {
    counts = counts;
    owned = λ y k at. is.owned y k (same y k at);
    alive = λ c real live.
        let (there, on) = is.alive c real (omega (arith, fewer c real)) in
        (there, kept c real live ∙ on);
    apart = λ c d rc rd lc ld.
        is.apart c d rc rd (omega (arith, fewer c rc)) (omega (arith, fewer d rd));
    small = rw size is.small;
  }

get-set-none :
    (vs : List (Option SmartPtr)) (x y : ℕ) (k : SmartPtr)
    → get_elem? (set vs x none) y ≡ some (some k)
    → get_elem? vs y ≡ some (some k)
get-set-none [] x y k e = e
get-set-none (v ∷ vs) zero zero k e = cc
get-set-none (v ∷ vs) zero (suc y) k e = e
get-set-none (v ∷ vs) (suc x) zero k e = e
get-set-none (v ∷ vs) (suc x) (suc y) k e = get-set-none vs x y k e

module _ (own : Ptr → Ptr) (w : World) (is : Counted own w) (x : ℕ) (h : SmartPtr)
    (held : get_elem? w.vars x ≡ some (some h)) where
  drop_refs : (c : Ptr) → refs c (set w.vars x none) + refers c (some h) ≡ refs c w.vars
  drop_refs c = omega (arith, refs-set c w.vars x (some h) none held)

  -- The world after `release()`, once the variable is given up.
  abbrev pub Released : SmartPtr → World → Type 0
  Released h' g =
      (g.vars ≡ w.vars)
      × Counted own (record g { vars = set w.vars x none })
      × (g.objects ≡ objects_without h w)

  release-null : (h.cnt_ == null) ≡ true → Ends Released (release h w)
  unfolding release objects_without
  release-null e = rw e (
      ends (
        refl,
        fewer-Counted own w (record w { vars = set w.vars x none }) is
            (λ c real. omega (arith, drop_refs c))
            (λ c real. ground (arith, drop_refs c, is.counts c real)) (get-set-none w.vars x)
            (λ c real live. refl) (length-set w.vars x none),
        rw (objects_without, e) refl,
      ))

  module _ (real : (h.cnt_ == null) ≡ false) where
    counted : 1 ≤ refs h.cnt_ w.vars
    counted = ground (arith, refers-le-refs h.cnt_ w.vars x (some h) held)

    bounded : refs h.cnt_ w.vars < 2 ^ 64
    bounded = omega (arith, refs-le-length h.cnt_ w.vars, is.small)

    decrement-lem :
        decrement h.cnt_ w
        ≡ done
            (refs h.cnt_ w.vars - 1)
            (record w { counts = write w.counts h.cnt_ (some (refs h.cnt_ w.vars - 1)) })
    unfolding decrement load_count
    decrement-lem = ground (arith, is.counts h.cnt_ real, counted, bounded)

    -- What `counts` is after the release of one of several variables, or of the last one.
    shared : 1 < refs h.cnt_ w.vars → Ends Released (release h w)
    unfolding release write objects_without
    shared more =
        rw (real, decrement-lem)
          (rw (more-false more) (
            ends (
              refl,
              fewer-Counted own w _ is (λ c r. omega (arith, drop_refs c))
                  (λ c r. ground (arith, drop_refs c, is.counts c r)) (get-set-none w.vars x)
                  (λ c r live. refl) (length-set w.vars x none),
              rw (objects_without, real, not_one more) refl,
            )))
      where
        not_one : 1 < refs h.cnt_ w.vars → (refs h.cnt_ w.vars == 1) ≡ false
        not_one m = ground arith

        more-false : 1 < refs h.cnt_ w.vars → (refs h.cnt_ w.vars - 1 == 0) ≡ false
        more-false m = ground arith

    -- The object of the last variable is not that of a count which is still shared.
    other-object :
        refs h.cnt_ w.vars ≡ 1
        → (c : Ptr) → (c == null) ≡ false
        → 0 < refs c (set w.vars x none)
        → (if own c == h.ptr_ then false else w.objects (own c)) ≡ w.objects (own c)
    other-object one c r live = elim (Bool-cases (own c == h.ptr_)) [
      | inl e ↦
          let same : c ≡ h.cnt_ =
            is.apart c h.cnt_ r real (omega (arith, drop_refs c)) (omega arith)
              (ground (arith, is.owned x h held real)) in
          absurd (ground (arith, drop_refs c))
      | inr e ↦ rw e
    ]

    only : refs h.cnt_ w.vars ≡ 1 → Ends Released (release h w)
    unfolding release write objects_without
    only one =
        let (there, on) = is.alive h.cnt_ real (omega arith) in
        let own_h = is.owned x h held real in
        let zero : World = record w { counts = write w.counts h.cnt_ (some 0) } in
        let freed : World = record zero {
          objects = λ a. if a == h.ptr_ then false else w.objects a;
        } in
        let first = delete_object-lem h.ptr_ (rw own_h there) zero (ap w.objects own_h ∙ on) in
        let second = delete_count-lem h.cnt_ real freed 0 (ground arith) in
        rw (real, decrement-lem, one)
          (rw (first, second)
            (ends (
              refl,
              fewer-Counted own w _ is (λ c r. omega (arith, drop_refs c))
                  (λ c r. ground (arith, drop_refs c, is.counts c r)) (get-set-none w.vars x)
                  (other-object one) (length-set w.vars x none),
              rw (objects_without, real, one) refl,
            )))

pub release-Released :
    (own : Ptr → Ptr) (w : World)
    → Counted own w
    → (x : ℕ) (h : SmartPtr) → get_elem? w.vars x ≡ some (some h)
    → Ends
        (λ _ g.
          (g.vars ≡ w.vars)
          × Counted own (record g { vars = set w.vars x none })
          × (g.objects ≡ objects_without h w))
        (release h w)
release-Released own w is x h held = elim (Bool-cases (h.cnt_ == null)) [
  | inl e ↦ release-null own w is x h held e
  | inr real ↦ elim (Bool-cases (refs h.cnt_ w.vars == 1)) [
    | inl one ↦ only own w is x h held real (ground arith)
    | inr more ↦ shared own w is x h held real (ground (arith, counted own w is x h held real))
  ]
]
