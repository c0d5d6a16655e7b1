-- ===== src/MedianFinder/Median.antt =====
-- `findMedian` finds the middle of the sorted numbers.
use notes_coding.Base.{
  ℕ, suc, ◌+◌, ◌≡◌, refl, ◌∙◌, ap, subst, inl, inr, ◌⊎◌, arith, ℤ, true, false, Option, none, some,
  List, [], ◌∷◌, ◌++◌, All, length, get_elem?, ◌==◌,
}
use mathlib.Core.List.{Perm, perm_middle, append-nil}
use mathlib.Core.List as L
use notes_coding.MedianFinder.{MedianFinder, empty, less_first, add_all, find_median}
use notes_coding.MedianFinder.Average.{IsAverage, average-IsAverage}
use notes_coding.MedianFinder.Queue.{IsQueue}
use notes_coding.MedianFinder.Halves.{Apart, Halves, add_all-Halves}

-- The median of a sorted list of integers, as an `int`: the element in the middle, or the average of
-- the two there.
pub data IsMiddle (xs : List ℤ) (o : Option ℤ) : Type 0 where
  nothing : xs ≡ [] → o ≡ none → IsMiddle xs o
  one :
      (m : ℕ) (a : ℤ) → length xs ≡ m + m + 1 → get_elem? xs m ≡ some a → o ≡ some a → IsMiddle xs o
  two :
      (m : ℕ) (a b : ℤ)
      → length xs ≡ suc m + suc m
      → get_elem? xs (suc m) ≡ some a
      → get_elem? xs m ≡ some b
      → IsAverage a b o
      → IsMiddle xs o

-- The list with the one queue turned round before the other.
unwind : List ℤ → List ℤ → List ℤ
unwind [] back = back
unwind (x ∷ front) back = unwind front (x ∷ back)

unwind-IsQueue :
    (front back : List ℤ) → Apart less_first front back → IsQueue less_first (unwind front back)
unfolding unwind
unwind-IsQueue [] back a = a.back_queue
unwind-IsQueue (x ∷ front) back a = unwind-IsQueue front (x ∷ back) (record {
  back_queue = (a.across.0, a.back_queue);
  front_queue = a.front_queue.1;
  across = both front back x a.front_queue.0 a.across.1;
})
  where
    both :
        (front back : List ℤ) (x : ℤ)
        → All (λ q. less_first q x ≡ true) front
        → All (λ q. All (λ p. less_first q p ≡ true) back) front
        → All (λ q. All (λ p. less_first q p ≡ true) (x ∷ back)) front
    both [] back x h k = tt
    both (q ∷ front) back x h k = ((h.0, k.0), both front back x h.1 k.1)

unwind-Perm : (front back : List ℤ) → Perm (unwind front back) (front ++ back)
unfolding unwind
unwind-Perm [] back = L.Perm.refl back
unwind-Perm (x ∷ front) back = L.Perm.trans (unwind-Perm front (x ∷ back)) (perm_middle front back)

length-unwind : (front back : List ℤ) → length (unwind front back) ≡ length front + length back
unfolding unwind
length-unwind [] back = omega arith
length-unwind (x ∷ front) back = omega (arith, length-unwind front (x ∷ back))

-- Behind the one queue stands the other.
get_elem?-unwind :
    (front back : List ℤ) (i j : ℕ)
    → j ≡ length front + i
    → get_elem? (unwind front back) j ≡ get_elem? back i
unfolding unwind
get_elem?-unwind [] back i j e = ap (get_elem? back) (e ∙ omega arith)
get_elem?-unwind (x ∷ front) back i j e =
    get_elem?-unwind front (x ∷ back) (suc i) j (omega (arith, e))

find-IsMiddle :
    (heap1 heap2 : List ℤ)
    → (length heap1 ≡ length heap2) ⊎ (length heap1 ≡ suc (length heap2))
    → IsMiddle (unwind heap2 heap1) (find_median (record { heap1 = heap1; heap2 = heap2 }))
unfolding find_median unwind
find-IsMiddle [] [] h = nothing refl refl
find-IsMiddle [] (b ∷ front) (inl e) = absurd (omega (arith, e))
find-IsMiddle [] front (inr e) = absurd (omega (arith, e))
find-IsMiddle (a ∷ xs) [] (inl e) = absurd (omega (arith, e))
find-IsMiddle (a ∷ xs) (b ∷ front) (inl e) =
    let even : (length (a ∷ xs) == length (b ∷ front)) ≡ true = ground (arith, e) in
    rw even (
      two (length front) a b (omega (arith, e, length-unwind front (b ∷ a ∷ xs)))
        (get_elem?-unwind front (b ∷ a ∷ xs) 1 (suc (length front)) (omega arith))
        (get_elem?-unwind front (b ∷ a ∷ xs) 0 (length front) (omega arith))
        (average-IsAverage a b))
find-IsMiddle (a ∷ xs) front (inr e) =
    let odd : (length (a ∷ xs) == length front) ≡ false = ground (arith, e) in
    rw odd (
      one (length front) a (omega (arith, e, length-unwind front (a ∷ xs)))
        (get_elem?-unwind front (a ∷ xs) 0 (length front) (omega arith)) refl)

-- What the numbers have come to: their sorted list, and the median that is found.
pub record IsMedian (nums : List ℤ) (f : MedianFinder) : Type 0 where
  pub sorted : List ℤ
  pub order : IsQueue less_first sorted
  pub same : Perm sorted nums
  pub median : IsMiddle sorted (find_median f)

-- After any numbers were added to an empty finder, which never uses the top of an empty queue,
-- `findMedian` returns the middle of their sorted list: its middle element, or the average, rounded to
-- zero, of the two in the middle, and nothing for no numbers or if that sum overflows an `int`.
pub add_all-IsMedian :
    (nums : List ℤ) → (f : MedianFinder) × (add_all nums empty ≡ some f) × IsMedian nums f
add_all-IsMedian nums =
    let start : Halves empty [] = record {
      apart = record { back_queue = tt; front_queue = tt; across = tt };
      balance = inl refl;
      content = L.Perm.refl [];
    } in
    let (f, e, h) = add_all-Halves nums empty [] start in
    (
      f,
      e,
      record {
        sorted = unwind f.heap2 f.heap1;
        order = unwind-IsQueue f.heap2 f.heap1 h.apart;
        same =
            L.Perm.trans (unwind-Perm f.heap2 f.heap1)
              (subst (Perm (f.heap2 ++ f.heap1)) (append-nil nums) h.content);
        median = find-IsMiddle f.heap1 f.heap2 h.balance;
      },
    )
