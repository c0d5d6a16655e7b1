-- ===== src/Base/Integers.antt =====
-- Integers over the native numbers, with the order of `int`.
use Prim.Native.Nat.{ℕ}
use mathlib.Core.Path.{◌≡◌, refl}
use mathlib.Core.Logic.{◌⊎◌, inl, inr}
use mathlib.Core.Bool.{Bool, true, false}
use native.Mathlib.Omega.{arith}
use notes_coding.Base.Tests.{leb}

-- `negsuc n` is -(n + 1).
pub data ℤ : Type 0 where
  pos negsuc : ℕ → ℤ

unfoldable pub leb_int : ℤ → ℤ → Bool
leb_int (pos a) (pos b) = leb a b
leb_int (pos a) (negsuc b) = false
leb_int (negsuc a) (pos b) = true
leb_int (negsuc a) (negsuc b) = leb b a

leb_total : (a b : ℕ) → (leb a b ≡ true) ⊎ (leb b a ≡ true)
leb_total a b = ground arith

leb_trans : (a b c : ℕ) → leb a b ≡ true → leb b c ≡ true → leb a c ≡ true
leb_trans a b c h k = ground arith

pub leb_int_total : (a b : ℤ) → (leb_int a b ≡ true) ⊎ (leb_int b a ≡ true)
unfolding leb_int
leb_int_total (pos a) (pos b) = leb_total a b
leb_int_total (pos a) (negsuc b) = inr refl
leb_int_total (negsuc a) (pos b) = inl refl
leb_int_total (negsuc a) (negsuc b) = leb_total b a

pub leb_int_trans : (a b c : ℤ) → leb_int a b ≡ true → leb_int b c ≡ true → leb_int a c ≡ true
unfolding leb_int
leb_int_trans (pos a) (pos b) (pos c) h k = leb_trans a b c h k
leb_int_trans (pos a) (pos b) (negsuc c) h k = cc
leb_int_trans (pos a) (negsuc b) c h k = cc
leb_int_trans (negsuc a) b (pos c) h k = refl
leb_int_trans (negsuc a) (pos b) (negsuc c) h k = cc
leb_int_trans (negsuc a) (negsuc b) (negsuc c) h k = leb_trans c b a k h
