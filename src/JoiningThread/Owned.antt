-- ===== src/JoiningThread/Owned.antt =====
-- Every thread has one owner until it is waited for or let go.
use notes_coding.Base.{
  ℕ, suc, ◌+◌, ◌<◌, ◌≤◌, ◌≡◌, ◌≢◌, ◌⊎◌, inl, inr, refl, sym, ◌∙◌, ap, subst, arith, Bool, true,
  false, Option, none, some, some-injective, none≢some, ◌==◌, if◌then◌else◌, Bool-cases, update,
  update_same, update_other, update_cases,
}
use notes_coding.JoiningThread.{State}

-- A thread that was started is owned by an object, or was waited for once, or was let go.
pub data Fate (s : State) (k : ℕ) : Type 0 where
  owned : (x : ℕ) → s.t x ≡ some k → s.joins k ≡ 0 → s.detached k ≡ false → Fate s k
  joined : ((x : ℕ) → s.t x ≢ some k) → s.joins k ≡ 1 → s.detached k ≡ false → Fate s k
  let_go : ((x : ℕ) → s.t x ≢ some k) → s.joins k ≡ 0 → s.detached k ≡ true → Fate s k

-- No two objects own the same thread, and every thread has its fate.
pub record IsOwned (s : State) : Type 0 where
  pub range : (x k : ℕ) → s.t x ≡ some k → k < s.started
  pub one : (x y k : ℕ) → s.t x ≡ some k → s.t y ≡ some k → x ≡ y
  pub fate : (k : ℕ) → k < s.started → Fate s k
  pub fresh : (k : ℕ) → s.started ≤ k → (s.joins k ≡ 0) × (s.detached k ≡ false)

-- The other one of `x` and `y`.
abbrev pub swapped : (x y z : ℕ) → ℕ
swapped x y z = if z == x then y else if z == y then x else z

swapped_twice : (x y z : ℕ) → swapped x y (swapped x y z) ≡ z
swapped_twice x y z = ground arith

-- The objects `x` and `y` exchange their threads.
module _ (s : State) (is : IsOwned s) (x y : ℕ) (t : ℕ → Option ℕ) where
  pub exchange-IsOwned : ((z : ℕ) → t z ≡ s.t (swapped x y z)) → IsOwned (record s { t = t })
  exchange-IsOwned same = record {
    range = λ z k e. is.range (swapped x y z) k (sym (same z) ∙ e);
    one = λ z w k e f.
        sym (swapped_twice x y z)
        ∙ ap (swapped x y)
            (is.one (swapped x y z) (swapped x y w) k (sym (same z) ∙ e) (sym (same w) ∙ f))
        ∙ swapped_twice x y w;
    fate = λ k h. elim (is.fate k h) [
      | owned z e j d ↦
          owned (swapped x y z) (same (swapped x y z) ∙ ap s.t (swapped_twice x y z) ∙ e) j d
      | joined off j d ↦ joined (λ z e. off (swapped x y z) (sym (same z) ∙ e)) j d
      | let_go off j d ↦ let_go (λ z e. off (swapped x y z) (sym (same z) ∙ e)) j d
    ];
    fresh = is.fresh;
  }

-- A new object `x` starts a thread.
pub start-IsOwned :
    (x : ℕ) (s : State)
    → IsOwned s
    → s.t x ≡ none
    → IsOwned (record s { t = update s.t x (some s.started); started = suc s.started })
start-IsOwned x s is dead =
    let t : ℕ → Option ℕ = update s.t x (some s.started) in
    let live : (z k : ℕ) → s.t z ≡ some k → t z ≡ some k = λ z k e.
      update_other s.t x z (some s.started) (λ q. none≢some (sym dead ∙ ap s.t q ∙ e)) ∙ e in
    let only : (z k : ℕ) → t z ≡ some k → ((z ≡ x) × (k ≡ s.started)) ⊎ (s.t z ≡ some k) = λ z k e.
      elim (update_cases s.t x (some s.started) z) [
        | inl (q, here) ↦ inl (q, some-injective (sym e ∙ here))
        | inr (q, there) ↦ inr (sym there ∙ e)
      ] in
    record {
      range = λ z k e. elim (only z k e) [
        | inl (q, new) ↦ omega (arith, new)
        | inr old ↦ omega (arith, is.range z k old)
      ];
      one = λ z w k e f. elim (only z k e) [
        | inl (q, new) ↦ elim (only w k f) [
          | inl (r, new') ↦ q ∙ sym r
          | inr old ↦ absurd (omega (arith, new, is.range w k old))
        ]
        | inr old ↦ elim (only w k f) [
          | inl (r, new) ↦ absurd (omega (arith, new, is.range z k old))
          | inr old' ↦ is.one z w k old old'
        ]
      ];
      fate = λ k h. elim (Bool-cases (k == s.started)) [
        | inl e ↦
            let (j, d) = is.fresh k (ground arith) in
            owned x (update_same s.t x (some s.started) ∙ ap some (ground arith)) j d
        | inr e ↦
            let old : k < s.started = ground (arith, h) in
            let gone : ((z : ℕ) → s.t z ≢ some k) → (z : ℕ) → t z ≢ some k = λ off z q.
              elim (only z k q) [
                | inl (r, new) ↦ omega (arith, new, old)
                | inr there ↦ off z there
              ] in
            elim (is.fate k old) [
              | owned z q j d ↦ owned z (live z k q) j d
              | joined off j d ↦ joined (gone off) j d
              | let_go off j d ↦ let_go (gone off) j d
            ]
      ];
      fresh = λ k h. is.fresh k (omega (arith, h));
    }

-- The object `x` gives up its thread `k`, which is waited for or let go.
module _ (s : State) (is : IsOwned s) (x k : ℕ) (own : s.t x ≡ some k) where
  pub release-IsOwned :
      (joins : ℕ → ℕ) (detached : ℕ → Bool)
      → ((q : ℕ) → k ≢ q → (joins q ≡ s.joins q) × (detached q ≡ s.detached q))
      → ((joins k ≡ 1) × (detached k ≡ false)) ⊎ ((joins k ≡ 0) × (detached k ≡ true))
      → IsOwned (record s { t = update s.t x none; joins = joins; detached = detached })
  release-IsOwned joins detached others mine =
      let t : ℕ → Option ℕ = update s.t x none in
      let old : (z q : ℕ) → t z ≡ some q → (x ≢ z) × (s.t z ≡ some q) = λ z q e.
        elim (update_cases s.t x none z) [
          | inl (r, here) ↦ absurd (none≢some (sym here ∙ e))
          | inr (off, there) ↦ (off, sym there ∙ e)
        ] in
      let gone : (z : ℕ) → t z ≢ some k =
        λ z e. let (off, there) = old z k e in off (is.one x z k own there) in
      record {
        range = λ z q e. let (off, there) = old z q e in is.range z q there;
        one = λ z w q e f.
            let (off, there) = old z q e in
            let (off', there') = old w q f in is.one z w q there there';
        fate = λ q h. elim (Bool-cases (q == k)) [
          | inl e ↦
              let same : k ≡ q = ground arith in
              subst (Fate (record s { t = t; joins = joins; detached = detached })) same
                (elim mine [ inl (j, d) ↦ joined gone j d | inr (j, d) ↦ let_go gone j d ])
          | inr e ↦
              let off : k ≢ q = ground arith in
              let (js, ds) = others q off in
              elim (is.fate q h) [
                | owned z f j d ↦
                    owned z
                      (update_other s.t x z none
                          (λ r. off (some-injective (sym own ∙ ap s.t r ∙ f)))
                        ∙ f)
                      (js ∙ j) (ds ∙ d)
                | joined away j d ↦
                    joined (λ z e. let (apart, there) = old z q e in away z there) (js ∙ j) (ds ∙ d)
                | let_go away j d ↦
                    let_go (λ z e. let (apart, there) = old z q e in away z there) (js ∙ j) (ds ∙ d)
              ]
        ];
        fresh = λ q h.
            let off : k ≢ q = λ e. omega (arith, h, e, is.range x k own) in
            let (js, ds) = others q off in let (j, d) = is.fresh q h in (js ∙ j, ds ∙ d);
      }

  -- What an owned thread has counted so far.
  pub counted : (s.joins k ≡ 0) × (s.detached k ≡ false)
  counted = elim (is.fate k (is.range x k own)) [
    | owned z f j d ↦ (j, d)
    | joined away j d ↦ absurd (away x own)
    | let_go away j d ↦ absurd (away x own)
  ]

  pub join-IsOwned :
      IsOwned (record s { t = update s.t x none; joins = update s.joins k (s.joins k + 1) })
  join-IsOwned =
      let (j, d) = counted in
      release-IsOwned (update s.joins k (s.joins k + 1)) s.detached
        (λ q off. (update_other s.joins k q (s.joins k + 1) off, refl))
        (inl (update_same s.joins k (s.joins k + 1) ∙ ap (λ n. n + 1) j, d))

  pub detach-IsOwned :
      IsOwned (record s { t = update s.t x none; detached = update s.detached k true })
  detach-IsOwned =
      let (j, d) = counted in
      release-IsOwned s.joins (update s.detached k true)
        (λ q off. (refl, update_other s.detached k q true off))
        (inr (j, update_same s.detached k true))
