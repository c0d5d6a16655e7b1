-- ===== src/Singleton/Once.antt =====
-- With the mutex the object is made once.
use notes_coding.Base.{
  ℕ, ◌≤◌, ◌≡◌, ◌≢◌, refl, sym, ◌∙◌, ap, subst, arith, Option, none, some, some-injective, none≢some,
}
use notes_coding.Singleton.{
  Version, unguarded, guarded, double_checked, Place, at_first, at_lock, at_second, at_new,
  at_return, at_store, returned, State, init, go, if_none, advance, Reach, start, later,
}
use notes_coding.Singleton.Invariant.{
  Fits, Stage, empty, built, stored, IsOnce, Guarded, found, same-IsOnce, take-IsOnce, leave-IsOnce,
  make-IsOnce, store-IsOnce,
}

-- Before the test with the mutex nothing is stored, and no other thread is about to store.
not_made :
    (s : State)
    → IsOnce s
    → (i : ℕ) → s.owner ≡ some i
    → s.place i ≡ at_second
    → s.m_instance ≡ none
    → s.made ≡ 0
not_made s is i own at null = elim is.stage [
  | empty e m ↦ m
  | built j e m there ↦
      let (own', null', zeroth, one) =
        subst (Fits s.owner s.m_instance s.made j) there (is.fits j) in
      let same : i ≡ j = some-injective (sym own ∙ own') in
      absurd (second≢store (sym at ∙ ap s.place same ∙ there))
  | stored e m ↦ absurd (none≢some (sym null ∙ e))
]
  where
    second≢store : at_second ≢ at_store 0
    second≢store e = cc

pub by_null :
    {X : Type 0} (o : Option ℕ) {a b : Option State} {g : State}
    → if_none o a b ≡ some g
    → (o ≡ none → a ≡ some g → X)
    → ((n : ℕ) → o ≡ some n → b ≡ some g → X)
    → X
by_null none e f h = f refl e
by_null (some n) e f h = h n refl e

advance-IsOnce :
    (v : Version) (i : ℕ) (p : Place) (s g : State)
    → Guarded v
    → IsOnce s
    → s.place i ≡ p
    → advance v i p s ≡ some g
    → IsOnce g
unfolding advance
advance-IsOnce v i at_first s g gv is at e =
    let ne : s.place i ≢ at_store 0 = λ q. absurd cc in
    let f : s.owner ≢ some i = subst (Fits s.owner s.m_instance s.made i) at (is.fits i) in
    by_null s.m_instance e
      (λ null q.
        subst IsOnce (some-injective q)
          (subst (λ p. IsOnce (go i p s)) (sym gv) (same-IsOnce s is i at_lock ne f)))
      (λ n there q.
        subst IsOnce (some-injective q)
          (same-IsOnce s is i at_return ne (f, found s n is.stage there)))
advance-IsOnce v i at_lock s g gv is at e =
    by_null s.owner e
      (λ free q. subst IsOnce (some-injective q) (take-IsOnce s is i (λ r. absurd cc) free))
      (λ n taken q. absurd (none≢some q))
advance-IsOnce v i at_second s g gv is at e =
    let ne : s.place i ≢ at_store 0 = λ q. absurd cc in
    let own : s.owner ≡ some i = subst (Fits s.owner s.m_instance s.made i) at (is.fits i) in
    by_null s.m_instance e
      (λ null q.
        subst IsOnce (some-injective q)
          (same-IsOnce s is i at_new ne (own, null, not_made s is i own at null)))
      (λ n there q.
        subst IsOnce (some-injective q) (leave-IsOnce s is i own ne (found s n is.stage there)))
advance-IsOnce v i at_new s g gv is at e =
    let (own, null, new) = subst (Fits s.owner s.m_instance s.made i) at (is.fits i) in
    subst IsOnce (some-injective e) (make-IsOnce s is i own null new)
advance-IsOnce v i (at_store n) s g gv is at e =
    let (own, null, zeroth, one) = subst (Fits s.owner s.m_instance s.made i) at (is.fits i) in
    subst IsOnce (some-injective e) (store-IsOnce s is i own n null zeroth one)
advance-IsOnce v i at_return s g gv is at e =
    let (free, here) = subst (Fits s.owner s.m_instance s.made i) at (is.fits i) in
    subst IsOnce (some-injective e)
      (same-IsOnce s is i (returned s.m_instance) (λ q. absurd cc) (free, here, here))
advance-IsOnce v i (returned r) s g gv is at e = absurd (none≢some e)

init-IsOnce : (v : Version) → IsOnce (init v)
init-IsOnce unguarded = record { fits = λ j e. none≢some e; stage = empty refl refl }
init-IsOnce guarded = record { fits = λ j e. none≢some e; stage = empty refl refl }
init-IsOnce double_checked = record { fits = λ j e. none≢some e; stage = empty refl refl }

pub Reach-IsOnce : {v : Version} {s : State} → Guarded v → Reach v s → IsOnce s
Reach-IsOnce {v} gv start = init-IsOnce v
Reach-IsOnce {v} gv (later {s} {g} i r e) =
    advance-IsOnce v i (s.place i) s g gv (Reach-IsOnce gv r) refl e

-- In every run of `getInstance` with the mutex, with the first test before it or not, one step after
-- the other, at most one object is made, and every thread that has returned has this object.
pub Reach-once :
    {v : Version} {s : State}
    → Guarded v
    → Reach v s
    → (s.made ≤ 1) × ((i : ℕ) (r : Option ℕ) → s.place i ≡ returned r → (r ≡ some 0) × (s.made ≡ 1))
Reach-once {v} {s} gv r =
    let is : IsOnce s = Reach-IsOnce gv r in
    (
      elim is.stage [
        | empty e m ↦ omega (arith, m)
        | built j e m at ↦ omega (arith, m)
        | stored e m ↦ omega (arith, m)
      ],
      λ i o at.
          let (free, there, back) = subst (Fits s.owner s.m_instance s.made i) at (is.fits i) in
          (back, one s is.stage there),
    )
  where
    one : (g : State) → Stage g → g.m_instance ≡ some 0 → g.made ≡ 1
    one g (empty e m) h = absurd cc
    one g (built j e m at) h = m
    one g (stored e m) h = m
