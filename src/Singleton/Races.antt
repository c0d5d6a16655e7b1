-- ===== src/Singleton/Races.antt =====
-- Which versions have a data race: two threads that can access `m_instance` next, one to write it.
use notes_coding.Base.{
  ℕ, ◌≤◌, ◌≡◌, ◌≢◌, inl, inr, refl, sym, ◌∙◌, ap, subst, Option, some, some-injective, none≢some,
  update_same, update_other, ◌==◌, Bool-cases,
}
use notes_coding.Singleton.{
  guarded, double_checked, Place, at_first, at_lock, at_second, at_new, at_return, at_store,
  returned, State, init, go, advance, Reach, start, later,
}
use notes_coding.Singleton.Invariant.{Fits, IsOnce}
use notes_coding.Singleton.Once.{by_null, Reach-IsOnce, Reach-once}

-- The next step of a thread at this place reads or writes `m_instance`.
abbrev pub IsAccess : Place → Type 0
IsAccess at_first = Unit {0}
IsAccess at_lock = ⊥
IsAccess at_second = Unit {0}
IsAccess at_new = ⊥
IsAccess (at_store n) = Unit {0}
IsAccess at_return = Unit {0}
IsAccess (returned r) = ⊥

-- One object at most is made, every thread that has returned has it, and while a thread can write
-- `m_instance` next, no other can access it next.
pub record IsSafe (s : State) : Type 0 where
  pub once : s.made ≤ 1
  pub same : (i : ℕ) (r : Option ℕ) → s.place i ≡ returned r → (r ≡ some 0) × (s.made ≡ 1)
  pub no_race : (i j n : ℕ) → i ≢ j → s.place i ≡ at_store n → IsAccess (s.place j) → ⊥

step-place :
    (s : State) (i j : ℕ) (p : Place)
    → p ≢ at_first
    → s.place j ≢ at_first
    → (go i p s).place j ≢ at_first
step-place s i j p off away = elim (Bool-cases (j == i)) [ inl e ↦ rw e off | inr e ↦ rw e away ]

advance-place :
    (i j : ℕ) (p : Place) (s g : State)
    → s.place j ≢ at_first
    → p ≢ at_first
    → advance guarded i p s ≡ some g
    → g.place j ≢ at_first
unfolding advance
advance-place i j at_first s g away off e = absurd (off refl)
advance-place i j at_lock s g away off e =
    by_null s.owner e
      (λ free q.
        subst (λ (h : State). h.place j ≢ at_first) (some-injective q)
          (step-place s i j at_second (λ r. absurd cc) away))
      (λ n taken q. absurd (none≢some q))
advance-place i j at_second s g away off e =
    by_null s.m_instance e
      (λ null q.
        subst (λ (h : State). h.place j ≢ at_first) (some-injective q)
          (step-place s i j at_new (λ r. absurd cc) away))
      (λ n there q.
        subst (λ (h : State). h.place j ≢ at_first) (some-injective q)
          (step-place s i j at_return (λ r. absurd cc) away))
advance-place i j at_new s g away off e =
    subst (λ (h : State). h.place j ≢ at_first) (some-injective e)
      (step-place s i j (at_store s.made) (λ r. absurd cc) away)
advance-place i j (at_store n) s g away off e =
    subst (λ (h : State). h.place j ≢ at_first) (some-injective e)
      (step-place s i j at_return (λ r. absurd cc) away)
advance-place i j at_return s g away off e =
    subst (λ (h : State). h.place j ≢ at_first) (some-injective e)
      (step-place s i j (returned s.m_instance) (λ r. absurd cc) away)
advance-place i j (returned r) s g away off e = absurd (none≢some e)

-- With the mutex around the test no thread tests without it.
Reach-place : {s : State} → Reach guarded s → (j : ℕ) → s.place j ≢ at_first
Reach-place start j = λ e. absurd cc
Reach-place (later {s} {g} i r e) j =
    advance-place i j (s.place i) s g (Reach-place r j) (Reach-place r i) e

module _ (s : State) (is : IsOnce s) (i j n : ℕ) (ne : i ≢ j) (at : s.place i ≡ at_store n) where
  writer : Fits s.owner s.m_instance s.made i (at_store n)
  writer = subst (Fits s.owner s.m_instance s.made i) at (is.fits i)

  alone : s.owner ≡ some j → ⊥
  alone own = ne (some-injective (sym writer.0 ∙ own))

  store-IsAccess : (p : Place) → s.place j ≡ p → p ≢ at_first → IsAccess p → ⊥
  store-IsAccess at_first there off a = off refl
  store-IsAccess at_lock there off a = elim a [ ]
  store-IsAccess at_new there off a = elim a [ ]
  store-IsAccess (returned r) there off a = elim a [ ]
  store-IsAccess at_second there off a =
      alone (subst (Fits s.owner s.m_instance s.made j) there (is.fits j))
  store-IsAccess (at_store m) there off a =
      alone (subst (Fits s.owner s.m_instance s.made j) there (is.fits j)).0
  store-IsAccess at_return there off a =
      let (free, here) = subst (Fits s.owner s.m_instance s.made j) there (is.fits j) in
      none≢some (sym writer.1 ∙ here)

-- In every run of `foo`, which has the mutex around the test, whatever the threads and the order of their
-- steps, at most one object is made, every thread that has returned has this object, and there is no data
-- race on the pointer to it: while a thread can write it next, no other can read or write it next.
pub guarded-IsSafe : {s : State} → Reach guarded s → IsSafe s
guarded-IsSafe {s} r =
    let (once, same) = Reach-once refl r in
    record {
      once = once;
      same = same;
      no_race = λ i j n ne at.
          store-IsAccess s (Reach-IsOnce refl r) i j n ne at (s.place j) refl (Reach-place r j);
    }

-- One thread can write `m_instance` next, and another one, without the mutex, read it.
pub record IsRacing (s : State) (i j : ℕ) : Type 0 where
  pub run : Reach double_checked s
  pub writes : s.place i ≡ at_store 0
  pub reads : s.place j ≡ at_first

next :
    {s : State} (g : State) (i : ℕ) (p : Place)
    → Reach double_checked s
    → s.place i ≡ p
    → advance double_checked i p s ≡ some g
    → Reach double_checked g
next {s} g i p r at e = later i r (ap (λ q. advance double_checked i q s) at ∙ e)

-- With a first test before the mutex any two threads can come to a data race: one tests while the
-- other stores the new object.
double_checked-IsRacing : (i j : ℕ) → i ≢ j → (s : State) × IsRacing s i j
unfolding advance
double_checked-IsRacing i j ne =
    let s0 : State = init double_checked in
    let s1 : State = go i at_lock s0 in
    let s2 : State = record (go i at_second s1) { owner = some i } in
    let s3 : State = go i at_new s2 in
    let s4 : State = record (go i (at_store 0) s3) { made = 1 } in
    let r1 : Reach double_checked s1 = next s1 i at_first start refl refl in
    let r2 : Reach double_checked s2 = next s2 i at_lock r1 (update_same s0.place i at_lock) refl in
    let r3 : Reach double_checked s3 =
      next s3 i at_second r2 (update_same s1.place i at_second) refl in
    let r4 : Reach double_checked s4 = next s4 i at_new r3 (update_same s2.place i at_new) refl in
    (
      s4,
      record {
        run = r4;
        writes = update_same s3.place i (at_store 0);
        reads =
            update_other s3.place i j (at_store 0) ne
            ∙ update_other s2.place i j at_new ne
            ∙ update_other s1.place i j at_second ne
            ∙ update_other s0.place i j at_lock ne;
      },
    )
