-- ===== src/Singleton/Twice.antt =====
-- Without the mutex.
use notes_coding.Base.{ℕ, ◌≡◌, ◌≢◌, refl, sym, ◌∙◌, ap, some, update_same, update_other, none}
use notes_coding.Singleton.{
  unguarded, Place, at_first, at_new, at_return, at_store, returned, State, init, go, advance,
  Reach, start, later,
}

-- Two threads have returned different objects.
pub record Differ (s : State) (i j : ℕ) : Type 0 where
  pub run : Reach unguarded s
  pub first : s.place i ≡ returned (some 0)
  pub second : s.place j ≡ returned (some 1)

-- The step of thread `i` from the place `p`.
next :
    {s : State} (g : State) (i : ℕ) (p : Place)
    → Reach unguarded s
    → s.place i ≡ p
    → advance unguarded i p s ≡ some g
    → Reach unguarded g
next {s} g i p r at e = later i r (ap (λ q. advance unguarded i q s) at ∙ e)

-- Without the mutex any two threads can make an object each and return different ones: both see null
-- before one of them stores.
pub unguarded-Differ : (i j : ℕ) → i ≢ j → (s : State) × Differ s i j
unfolding advance
unguarded-Differ i j ne =
    let s0 : State = init unguarded in
    let s1 : State = go i at_new s0 in
    let s2 : State = go j at_new s1 in
    let s3 : State = record (go i (at_store 0) s2) { made = 1 } in
    let s4 : State = record (go i at_return s3) { m_instance = some 0; owner = none } in
    let s5 : State = go i (returned (some 0)) s4 in
    let s6 : State = record (go j (at_store 1) s5) { made = 2 } in
    let s7 : State = record (go j at_return s6) { m_instance = some 1; owner = none } in
    let s8 : State = go j (returned (some 1)) s7 in
    let back : j ≢ i = λ e. ne (sym e) in
    let i2 : s2.place i ≡ at_new =
      update_other s1.place j i at_new back ∙ update_same s0.place i at_new in
    let j5 : s5.place j ≡ at_new =
      update_other s4.place i j (returned (some 0)) ne
      ∙ update_other s3.place i j at_return ne
      ∙ update_other s2.place i j (at_store 0) ne
      ∙ update_same s1.place j at_new in
    let i8 : s8.place i ≡ returned (some 0) =
      update_other s7.place j i (returned (some 1)) back
      ∙ update_other s6.place j i at_return back
      ∙ update_other s5.place j i (at_store 1) back
      ∙ update_same s4.place i (returned (some 0)) in
    let r1 : Reach unguarded s1 = next s1 i at_first start refl refl in
    let r2 : Reach unguarded s2 =
      next s2 j at_first r1 (update_other s0.place i j at_new ne) refl in
    let r3 : Reach unguarded s3 = next s3 i at_new r2 i2 refl in
    let r4 : Reach unguarded s4 =
      next s4 i (at_store 0) r3 (update_same s2.place i (at_store 0)) refl in
    let r5 : Reach unguarded s5 = next s5 i at_return r4 (update_same s3.place i at_return) refl in
    let r6 : Reach unguarded s6 = next s6 j at_new r5 j5 refl in
    let r7 : Reach unguarded s7 =
      next s7 j (at_store 1) r6 (update_same s5.place j (at_store 1)) refl in
    let r8 : Reach unguarded s8 = next s8 j at_return r7 (update_same s6.place j at_return) refl in
    (s8, record { run = r8; first = i8; second = update_same s7.place j (returned (some 1)) })
