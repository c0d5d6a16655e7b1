-- ===== src/SmartPtr/Tests.antt =====
-- Smart pointers in a concrete world: two variables share the object 10 through the count 20.
use notes_coding.Base.{
  ℕ, ◌≡◌, refl, false, ◌||◌, zero, suc, none, some, [], ◌∷◌, arith, ◌==◌, if◌then◌else◌, get_elem?,
}
use notes_coding.Memory.{Ptr, null}
use notes_coding.Memory.Ends.{Ends}
use notes_coding.SmartPtr.{SmartPtr, World, copy_assign}
use notes_coding.SmartPtr.Refs.{refs}
use notes_coding.SmartPtr.Sound.{Counted, objects_without}
use notes_coding.SmartPtr.Copies.{copy_assign-Counted}

abbrev both : SmartPtr
both = record { ptr_ = 10; cnt_ = 20 }

abbrev owner : Ptr → Ptr
owner c = if c == 20 then 10 else 11

-- A third variable is the only one of the object 11, whose count is 21.
abbrev alone : SmartPtr
alone = record { ptr_ = 11; cnt_ = 21 }

abbrev three : World
three = record {
  objects = λ a. a == 10 || a == 11;
  counts = λ c. if c == 20 then some 2 else if c == 21 then some 1 else none;
  vars = some both ∷ some both ∷ some alone ∷ [];
}

three-Counted : Counted owner three
unfolding refs
three-Counted = record {
  counts = λ c real. ground arith;
  owned = owned;
  alive = λ c real live. ground arith;
  apart = λ c d rc rd lc ld same. ground arith;
  small = omega arith;
}
  where
    owned :
        (x : ℕ) (h : SmartPtr)
        → get_elem? three.vars x ≡ some (some h)
        → (h.cnt_ == null) ≡ false
        → h.ptr_ ≡ owner h.cnt_
    owned zero h e real = ground arith
    owned (suc zero) h e real = ground arith
    owned (suc (suc zero)) h e real = ground arith
    owned (suc (suc (suc x))) h e real = cc

copy_assign-Counted_example :
    Ends
      (λ _ g.
        Counted owner g
        × (g.vars ≡ some both ∷ some both ∷ some both ∷ [])
        × (g.objects ≡ objects_without alone three))
      (copy_assign 2 0 three)
copy_assign-Counted_example =
    copy_assign-Counted owner three 2 0 alone both three-Counted refl refl refl
