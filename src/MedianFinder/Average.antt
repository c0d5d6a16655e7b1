-- ===== src/MedianFinder/Average.antt =====
-- The average of two numbers that priority_queue.cpp returns.
use notes_coding.Base.{
  ℕ, zero, suc, ◌+◌, ◌-◌, ◌/◌, ◌^◌, ◌<◌, ◌≤◌, ◌≡◌, refl, sym, ap, subst, inl, inr, arith, ℤ, pos,
  negsuc, false, Option, none, some, ltb, Bool-cases, ◌==◌, if◌then◌else◌,
}
use notes_coding.MedianFinder.{add_int, half, in_int, average}

-- What an integer is above zero, and below.
abbrev pub above : ℤ → ℕ
above (pos n) = n
above (negsuc n) = 0

abbrev pub below : ℤ → ℕ
below (pos n) = 0
below (negsuc n) = suc n

-- `- n`
abbrev pub opposite : ℕ → ℤ
opposite zero = pos 0
opposite (suc n) = negsuc n

-- The average of `a` and `b`, rounded to zero: nothing if `n`, their sum or its opposite, overflows.
pub data IsAverage (a b : ℤ) : Option ℤ → Type 0 where
  rising :
      (n : ℕ)
      → above a + above b ≡ below a + below b + n
      → n < 2 ^ 31
      → IsAverage a b (some (pos (n / 2)))
  falling :
      (n : ℕ)
      → below a + below b ≡ above a + above b + n
      → n ≤ 2 ^ 31
      → IsAverage a b (some (opposite (n / 2)))
  too_great : (n : ℕ) → above a + above b ≡ below a + below b + n → 2 ^ 31 ≤ n → IsAverage a b none
  too_small : (n : ℕ) → below a + below b ≡ above a + above b + n → 2 ^ 31 < n → IsAverage a b none

-- The sum, above zero or below.
data IsSum (a b : ℤ) : ℤ → Type 0 where
  rises : (n : ℕ) → above a + above b ≡ below a + below b + n → IsSum a b (pos n)
  falls : (n : ℕ) → below a + below b ≡ above a + above b + suc n → IsSum a b (negsuc n)

add_int-IsSum : (a b : ℤ) → IsSum a b (add_int a b)
unfolding add_int
add_int-IsSum (pos a) (pos b) = rises (a + b) (omega arith)
add_int-IsSum (pos a) (negsuc b) = elim (Bool-cases (ltb b a)) [
  | inl h ↦ rw h (rises (a - suc b) (ground arith))
  | inr h ↦ rw h (falls (b - a) (ground arith))
]
add_int-IsSum (negsuc a) (pos b) = elim (Bool-cases (ltb a b)) [
  | inl h ↦ rw h (rises (b - suc a) (ground arith))
  | inr h ↦ rw h (falls (a - b) (ground arith))
]
add_int-IsSum (negsuc a) (negsuc b) = falls (suc (a + b)) (omega arith)

half-opposite : (n : ℕ) → half (negsuc n) ≡ opposite (suc n / 2)
unfolding half
half-opposite n = at_half (suc n / 2)
  where
    at_half : (k : ℕ) → (if k == 0 then pos 0 else negsuc (k - 1)) ≡ opposite k
    at_half zero = refl
    at_half (suc k) =
        let off : (suc k == 0) ≡ false = ground arith in
        let e : suc k - 1 ≡ k = omega arith in rw off (ap negsuc e)

sum-IsAverage : (a b c : ℤ) → IsSum a b c → IsAverage a b (if in_int c then some (half c) else none)
unfolding in_int half
sum-IsAverage a b c (rises n e) = elim (Bool-cases (ltb n (2 ^ 31))) [
  | inl h ↦ rw h (rising n e (ground arith))
  | inr h ↦ rw h (too_great n e (ground arith))
]
sum-IsAverage a b c (falls n e) = elim (Bool-cases (ltb n (2 ^ 31))) [
  | inl h ↦ rw h (
      subst (λ z. IsAverage a b (some z)) (sym (half-opposite n))
        (falling (suc n) e (ground arith)))
  | inr h ↦ rw h (too_small (suc n) e (ground arith))
]

pub average-IsAverage : (a b : ℤ) → IsAverage a b (average a b)
unfolding average
average-IsAverage a b = sum-IsAverage a b (add_int a b) (add_int-IsSum a b)
