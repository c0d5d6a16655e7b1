-- ===== src/Base/Keys.antt =====
-- The keys of a map that is gone through in some order: a new key comes somewhere into it, here at the
-- end.
use Prim.Native.Nat.{ℕ}
use mathlib.Core.Path.{◌≡◌, refl, sym, ap, ◌∙◌}
use mathlib.Core.Logic.{inl, inr}
use mathlib.Core.Bool.{Bool, true, false, ◌||◌}
use mathlib.Core.List.{List, [], ◌∷◌, ◌++◌}
use native.Mathlib.Omega.{arith}
use notes_coding.Base.Tests.{◌==◌, if◌then◌else◌, Bool-cases}

abbrev pub has : ℕ → List ℕ → Bool
has p [] = false
has p (q ∷ qs) = (q == p) || has p qs

abbrev pub add_key : ℕ → List ℕ → List ℕ
add_key p ps = if has p ps then ps else ps ++ p ∷ []

pub has-append : (p : ℕ) (ps qs : List ℕ) → has p (ps ++ qs) ≡ (has p ps || has p qs)
has-append p [] qs = refl
has-append p (x ∷ ps) qs = elim (Bool-cases (x == p)) [
  | inl e ↦ rw e refl
  | inr e ↦ rw e (has-append p ps qs)
]

pub has-add_key : (p : ℕ) (ps : List ℕ) → has p (add_key p ps) ≡ true
has-add_key p ps = elim (Bool-cases (has p ps)) [
  | inl e ↦ rw e e
  | inr e ↦ rw e (has-append p ps (p ∷ []) ∙ rw e (ground arith))
]

pub has-add_key_other : (p q : ℕ) (ps : List ℕ) → has p (add_key q ps) ≡ false → has p ps ≡ false
has-add_key_other p q ps h = elim (Bool-cases (has p ps)) [
  | inl e ↦ elim (Bool-cases (has q ps)) [
    | inl f ↦ sym (ap (λ b. has p (if b then ps else ps ++ q ∷ [])) f) ∙ h
    | inr f ↦
        let grown : has p (ps ++ q ∷ []) ≡ false =
          sym (ap (λ b. has p (if b then ps else ps ++ q ∷ [])) f) ∙ h in
        let there : true ≡ false =
          sym (has-append p ps (q ∷ []) ∙ ap (λ b. b || has p (q ∷ [])) e) ∙ grown in
        absurd cc
  ]
  | inr e ↦ e
]
