-- ===== src/MedianFinder/Tests.antt =====
-- The medians of 3, -1, 2 and of 3, -1, 2, 1.
use notes_coding.Base.{◌≡◌, refl, leb_int, ℤ, pos, negsuc, none, some, List, [], ◌∷◌}
use notes_coding.MedianFinder.{
  MedianFinder, empty, push, add_num, add_all, add_int, half, in_int, average, find_median,
}
use notes_coding.MedianFinder.Median.{IsMedian, add_all-IsMedian}

abbrev three : List ℤ
three = pos 3 ∷ negsuc 0 ∷ pos 2 ∷ []

median_three : elim (add_all three empty) [ none ↦ none | some f ↦ find_median f ] ≡ some (pos 2)
unfolding add_all add_num push leb_int find_median
median_three = refl

-- The average 1.5 is rounded.
median_four :
    elim (add_all (pos 1 ∷ three) empty) [ none ↦ none | some f ↦ find_median f ] ≡ some (pos 1)
unfolding add_all add_num push leb_int find_median average add_int half in_int
median_four = refl

add_all-IsMedian_example : (f : MedianFinder) × (add_all three empty ≡ some f) × IsMedian three f
add_all-IsMedian_example = add_all-IsMedian three
