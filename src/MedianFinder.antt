-- ===== src/MedianFinder.antt =====
-- cpp-living-code/sort/heap_sort/priority_queue.cpp: the median of a stream of numbers, by two
-- priority queues. A `priority_queue` of the standard library is the list of its elements, the top
-- first: `le` is the order in which they come out.
mod Queue
pub mod Halves
pub mod Average
pub mod Median
mod Tests
use notes_coding.Base.{
  ℕ, zero, suc, ◌+◌, ◌-◌, ◌/◌, ◌^◌, ℤ, pos, negsuc, leb_int, Bool, true, false, Option, none, some,
  List, [], ◌∷◌, ltb, ◌==◌, if◌then◌else◌, length,
}

-- `push(x)`
pub push : {A : Type 0} → (le : A → A → Bool) → A → List A → List A
push le x [] = x ∷ []
push le x (y ∷ ys) = let rest = push le x ys in if le x y then x ∷ y ∷ ys else y ∷ rest

-- `heap1` has its smallest element on top, `heap2` its greatest.
pub record MedianFinder : Type 0 where
  pub heap1 : List ℤ
  pub heap2 : List ℤ

abbrev pub empty : MedianFinder
empty = record { heap1 = []; heap2 = [] }

abbrev pub flip : {A : Type 0} → (A → A → Bool) → A → A → Bool
flip le a b = le b a

abbrev pub less_first : ℤ → ℤ → Bool
less_first a b = leb_int a b

-- `addNum(num)`: `none` where the top of an empty queue is used.
pub add_num : (num : ℤ) → MedianFinder → Option MedianFinder
unfolding push
add_num num f =
    if length f.heap1 == length f.heap2
    then elim (push (flip less_first) num f.heap2) [
      | [] ↦ none
      | top ∷ rest ↦ some (record { heap1 = push less_first top f.heap1; heap2 = rest })
    ]
    else elim (push less_first num f.heap1) [
      | [] ↦ none
      | top ∷ rest ↦ some (record { heap1 = rest; heap2 = push (flip less_first) top f.heap2 })
    ]

pub add_all : List ℤ → MedianFinder → Option MedianFinder
unfolding add_num
add_all [] f = some f
add_all (num ∷ nums) f = elim (add_num num f) [ none ↦ none | some g ↦ add_all nums g ]

-- `a + b`
pub add_int : ℤ → ℤ → ℤ
add_int (pos a) (pos b) = pos (a + b)
add_int (pos a) (negsuc b) = if ltb b a then pos (a - suc b) else negsuc (b - a)
add_int (negsuc a) (pos b) = if ltb a b then pos (b - suc a) else negsuc (a - b)
add_int (negsuc a) (negsuc b) = negsuc (suc (a + b))

-- `a / 2`, rounded to zero.
pub half : ℤ → ℤ
half (pos n) = pos (n / 2)
half (negsuc n) = let k : ℕ = suc n / 2 in if k == 0 then pos 0 else negsuc (k - 1)

-- Whether an `int` can be this.
pub in_int : ℤ → Bool
in_int (pos n) = ltb n (2 ^ 31)
in_int (negsuc n) = ltb n (2 ^ 31)

-- `(a + b) / 2`: `none` if the sum overflows.
pub average : ℤ → ℤ → Option ℤ
unfolding add_int half in_int
average a b = if in_int (add_int a b) then some (half (add_int a b)) else none

-- `findMedian()`
pub find_median : MedianFinder → Option ℤ
unfolding average
find_median f =
    if length f.heap1 == length f.heap2
    then elim f.heap1 [ [] ↦ none | a ∷ _ ↦ elim f.heap2 [ [] ↦ none | b ∷ _ ↦ average a b ] ]
    else elim f.heap1 [ [] ↦ none | a ∷ _ ↦ some a ]
