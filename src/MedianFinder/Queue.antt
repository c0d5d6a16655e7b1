-- ===== src/MedianFinder/Queue.antt =====
-- The priority queue, for any total order.
use notes_coding.Base.{
  suc, ◌≡◌, refl, ap, inl, inr, ◌⊎◌, Bool, true, false, List, [], ◌∷◌, All, All-map, length,
  Bool-cases,
}
use mathlib.Core.List.{Perm, perm_middle}
use mathlib.Core.List as L
use notes_coding.MedianFinder.{push}

-- Each element may come out before all that are behind it.
abbrev pub IsQueue : {A : Type 0} → (A → A → Bool) → List A → Type 0
IsQueue le [] = Unit
IsQueue le (x ∷ xs) = All (λ y. le x y ≡ true) xs × IsQueue le xs

module _ {A : Type 0} (le : A → A → Bool) where
  pub push-All : (P : A → Type 0) (x : A) (ys : List A) → P x → All P ys → All P (push le x ys)
  unfolding push
  push-All P x [] p a = (p, tt)
  push-All P x (y ∷ ys) p a = elim (Bool-cases (le x y)) [
    | inl e ↦ rw e (p, a)
    | inr e ↦ rw e (a.0, push-All P x ys p a.1)
  ]

  pub length-push : (x : A) (ys : List A) → length (push le x ys) ≡ suc (length ys)
  unfolding push
  length-push x [] = refl
  length-push x (y ∷ ys) = elim (Bool-cases (le x y)) [
    | inl e ↦ rw e refl
    | inr e ↦ rw e (ap suc (length-push x ys))
  ]

  pub push-Perm : (x : A) (ys : List A) → Perm (push le x ys) (x ∷ ys)
  unfolding push
  push-Perm x [] = L.Perm.refl (x ∷ [])
  push-Perm x (y ∷ ys) = elim (Bool-cases (le x y)) [
    | inl e ↦ rw e (L.Perm.refl (x ∷ y ∷ ys))
    | inr e ↦ rw e (L.Perm.trans (L.Perm.cons y (push-Perm x ys)) (L.Perm.swap x y ys))
  ]

  module _ (total : (a b : A) → (le a b ≡ true) ⊎ (le b a ≡ true))
      (trans : (a b c : A) → le a b ≡ true → le b c ≡ true → le a c ≡ true) where
    other_way : (a b : A) → le a b ≡ false → le b a ≡ true
    other_way a b e = elim (total a b) [ inl h ↦ cc | inr h ↦ h ]

    pub push-IsQueue : (x : A) (ys : List A) → IsQueue le ys → IsQueue le (push le x ys)
    unfolding push
    push-IsQueue x [] q = (tt, tt)
    push-IsQueue x (y ∷ ys) q = elim (Bool-cases (le x y)) [
      | inl e ↦ rw e (
        (e, All-map (λ z. le y z ≡ true) (λ z. le x z ≡ true) ys (λ z h. trans x y z e h) q.0),
        q,
      )
      | inr e ↦
          rw e (push-All (λ z. le y z ≡ true) x ys (other_way x y e) q.0, push-IsQueue x ys q.1)
    ]

    -- A new element comes out first, or what came out first still does.
    pub push_cases :
        (x : A) (ys : List A)
        → (push le x ys ≡ x ∷ ys)
          ⊎ ((y : A) × (zs : List A) × (ys ≡ y ∷ zs)
              × (push le x ys ≡ y ∷ push le x zs)
              × (le y x ≡ true))
    unfolding push
    push_cases x [] = inl refl
    push_cases x (y ∷ ys) = elim (Bool-cases (le x y)) [
      | inl e ↦ inl (rw e refl)
      | inr e ↦ inr (y, ys, refl, rw e refl, other_way x y e)
    ]
