-- ===== src/Singleton/Invariant.antt =====
-- What holds at the places of the threads when the object is made with the mutex, and what each kind
-- of step keeps.
use notes_coding.Base.{
  ℕ, suc, ◌≡◌, ◌≢◌, inl, inr, refl, sym, ◌∙◌, ap, subst, arith, Option, none, some, some-injective,
  none≢some, update, update_same, update_other, ◌==◌, Bool-cases,
}
use notes_coding.Singleton.{
  Version, Place, at_first, at_lock, at_second, at_new, at_return, at_store, returned, State,
  after_first, go,
}

-- What holds at the place of thread `j`, for the owner of the mutex, `m_instance` and the number of
-- objects made.
abbrev pub Fits : (owner m_instance : Option ℕ) (made j : ℕ) → Place → Type 0
Fits owner inst made j at_first = owner ≢ some j
Fits owner inst made j at_lock = owner ≢ some j
Fits owner inst made j at_second = owner ≡ some j
Fits owner inst made j at_new = (owner ≡ some j) × (inst ≡ none) × (made ≡ 0)
Fits owner inst made j (at_store n) = (owner ≡ some j) × (inst ≡ none) × (n ≡ 0) × (made ≡ 1)
Fits owner inst made j at_return = (owner ≢ some j) × (inst ≡ some 0)
Fits owner inst made j (returned r) = (owner ≢ some j) × (inst ≡ some 0) × (r ≡ some 0)

-- Either no object has been made, or one has and is stored or about to be.
pub data Stage (s : State) : Type 0 where
  empty : s.m_instance ≡ none → s.made ≡ 0 → Stage s
  built : (j : ℕ) → s.m_instance ≡ none → s.made ≡ 1 → s.place j ≡ at_store 0 → Stage s
  stored : s.m_instance ≡ some 0 → s.made ≡ 1 → Stage s

pub record IsOnce (s : State) : Type 0 where
  pub fits : (j : ℕ) → Fits s.owner s.m_instance s.made j (s.place j)
  pub stage : Stage s

-- What holds at the new place of a thread and at the places of the others holds at all.
everywhere :
    (P : ℕ → Place → Type 0) (f : ℕ → Place) (i : ℕ) (p : Place)
    → P i p
    → ((j : ℕ) → i ≢ j → P j (f j))
    → (j : ℕ) → P j (update f i p j)
everywhere P f i p here rest j = elim (Bool-cases (j == i)) [
  | inl e ↦
      let same : i ≡ j = ground arith in
      subst (λ k. P k (update f i p k)) same (subst (P i) (sym (update_same f i p)) here)
  | inr e ↦
      let off : i ≢ j = ground arith in subst (P j) (sym (update_other f i j p off)) (rest j off)
]

-- A thread that does not have the mutex keeps its place's condition whatever the one that has it does.
bystander :
    (owner owner' inst inst' : Option ℕ) (made made' j : ℕ) (p : Place)
    → owner ≢ some j
    → owner' ≢ some j
    → (inst ≡ some 0 → inst' ≡ some 0)
    → Fits owner inst made j p
    → Fits owner' inst' made' j p
bystander o o' n n' m m' j at_first ne ne' keep f = ne'
bystander o o' n n' m m' j at_lock ne ne' keep f = ne'
bystander o o' n n' m m' j at_second ne ne' keep f = absurd (ne f)
bystander o o' n n' m m' j at_new ne ne' keep (own, e, z) = absurd (ne own)
bystander o o' n n' m m' j (at_store k) ne ne' keep (own, e, z, w) = absurd (ne own)
bystander o o' n n' m m' j at_return ne ne' keep (own, e) = (ne', keep e)
bystander o o' n n' m m' j (returned r) ne ne' keep (own, e, q) = (ne', keep e, q)

abbrev pub Guarded : Version → Type 0
Guarded v = after_first v ≡ at_lock

stage-go :
    (s : State) (i : ℕ) (p : Place) (owner : Option ℕ)
    → s.place i ≢ at_store 0
    → Stage s
    → Stage (record (go i p s) { owner = owner })
stage-go s i p owner ne (empty e m) = empty e m
stage-go s i p owner ne (built j e m at) =
    let off : i ≢ j = λ q. ne (ap s.place q ∙ at) in
    built j e m (update_other s.place i j p off ∙ at)
stage-go s i p owner ne (stored e m) = stored e m

pub found : (s : State) (n : ℕ) → Stage s → s.m_instance ≡ some n → s.m_instance ≡ some 0
found s n (empty e m) h = absurd cc
found s n (built j e m at) h = absurd cc
found s n (stored e m) h = e

-- The mutex and the object stay as they are, and thread `i` goes from one place to another.
module _ (s : State) (is : IsOnce s) (i : ℕ) where
  pub same-IsOnce :
      (p : Place)
      → s.place i ≢ at_store 0
      → Fits s.owner s.m_instance s.made i p
      → IsOnce (go i p s)
  same-IsOnce p ne f = record {
    fits = everywhere (Fits s.owner s.m_instance s.made) s.place i p f (λ j off. is.fits j);
    stage = stage-go s i p s.owner ne is.stage;
  }

  pub take-IsOnce :
      s.place i ≢ at_store 0
      → s.owner ≡ none
      → IsOnce (record (go i at_second s) { owner = some i })
  take-IsOnce ne free = record {
    fits = everywhere (Fits (some i) s.m_instance s.made) s.place i at_second refl (λ j off.
        bystander s.owner (some i) s.m_instance s.m_instance s.made s.made j (s.place j)
          (λ e. none≢some (sym free ∙ e)) (λ e. off (some-injective e)) (λ e. e) (is.fits j));
    stage = stage-go s i at_second (some i) ne is.stage;
  }

  module _ (own : s.owner ≡ some i) where
    -- The others do not have the mutex.
    others :
        (owner inst : Option ℕ) (made j : ℕ)
        → i ≢ j
        → owner ≢ some j
        → (s.m_instance ≡ some 0 → inst ≡ some 0)
        → Fits owner inst made j (s.place j)
    others owner inst made j off ne keep =
        bystander s.owner owner s.m_instance inst s.made made j (s.place j)
          (λ e. off (some-injective (sym own ∙ e))) ne keep (is.fits j)

    pub leave-IsOnce :
        s.place i ≢ at_store 0
        → s.m_instance ≡ some 0
        → IsOnce (record (go i at_return s) { owner = none })
    leave-IsOnce ne here = record {
      fits =
          everywhere (Fits none s.m_instance s.made) s.place i at_return ((λ e. none≢some e), here)
            (λ j off. others none s.m_instance s.made j off (λ e. none≢some e) (λ e. e));
      stage = stage-go s i at_return none ne is.stage;
    }

    pub make-IsOnce :
        s.m_instance ≡ none
        → s.made ≡ 0
        → IsOnce (record (go i (at_store s.made) s) { made = suc s.made })
    make-IsOnce null new = record {
      fits =
          everywhere (Fits s.owner s.m_instance (suc s.made)) s.place i (at_store s.made)
            (own, null, new, ap suc new)
            (λ j off.
              others s.owner s.m_instance (suc s.made) j off
                (λ e. off (some-injective (sym own ∙ e))) (λ e. e));
      stage = built i null (ap suc new) (update_same s.place i (at_store s.made) ∙ ap at_store new);
    }

    pub store-IsOnce :
        (n : ℕ)
        → s.m_instance ≡ none
        → n ≡ 0
        → s.made ≡ 1
        → IsOnce (record (go i at_return s) { m_instance = some n; owner = none })
    store-IsOnce n null zeroth one = record {
      fits =
          everywhere (Fits none (some n) s.made) s.place i at_return
            ((λ e. none≢some e), ap some zeroth)
            (λ j off. others none (some n) s.made j off (λ e. none≢some e) (λ e. ap some zeroth));
      stage = stored (ap some zeroth) one;
    }
