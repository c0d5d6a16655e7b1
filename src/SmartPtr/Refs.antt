-- ===== src/SmartPtr/Refs.antt =====
-- How many variables share a count.
use notes_coding.Base.{
  ℕ, zero, suc, ◌+◌, ◌≤◌, ◌<◌, ◌≡◌, Option, none, some, List, [], ◌∷◌, ◌++◌, arith, ◌==◌,
  if◌then◌else◌, get_elem?, set, length,
}
use notes_coding.Memory.{Ptr}
use notes_coding.SmartPtr.{SmartPtr}

abbrev pub refers : Ptr → Option SmartPtr → ℕ
refers c none = 0
refers c (some h) = if h.cnt_ == c then 1 else 0

unfoldable pub refs : Ptr → List (Option SmartPtr) → ℕ
refs c [] = 0
refs c (v ∷ vs) = refers c v + refs c vs

pub refs-append :
    (c : Ptr) (vs : List (Option SmartPtr)) (v : Option SmartPtr)
    → refs c (vs ++ v ∷ []) ≡ refs c vs + refers c v
unfolding refs
refs-append c [] v = omega arith
refs-append c (u ∷ vs) v = omega (arith, refs-append c vs v)

pub refs-set :
    (c : Ptr) (vs : List (Option SmartPtr)) (x : ℕ) (old new : Option SmartPtr)
    → get_elem? vs x ≡ some old
    → refs c (set vs x new) + refers c old ≡ refs c vs + refers c new
unfolding refs
refs-set c [] x old new e = cc
refs-set c (v ∷ vs) zero old new e = ground arith
refs-set c (v ∷ vs) (suc x) old new e = omega (arith, refs-set c vs x old new e)

pub refs-le-length : (c : Ptr) (vs : List (Option SmartPtr)) → refs c vs ≤ length vs
unfolding refs
refs-le-length c [] = omega arith
refs-le-length c (none ∷ vs) = omega (arith, refs-le-length c vs)
refs-le-length c (some h ∷ vs) = ground (arith, refs-le-length c vs)

-- A live variable is counted.
pub refers-le-refs :
    (c : Ptr) (vs : List (Option SmartPtr)) (x : ℕ) (v : Option SmartPtr)
    → get_elem? vs x ≡ some v
    → refers c v ≤ refs c vs
unfolding refs
refers-le-refs c [] x v e = cc
refers-le-refs c (u ∷ vs) zero v e = ground arith
refers-le-refs c (u ∷ vs) (suc x) v e = omega (arith, refers-le-refs c vs x v e)

-- A given-up variable leaves room for one more.
pub refs-lt-length :
    (c : Ptr) (vs : List (Option SmartPtr)) (x : ℕ) (v : Option SmartPtr)
    → get_elem? vs x ≡ some v
    → refs c (set vs x none) < length vs
unfolding refs
refs-lt-length c [] x v e = cc
refs-lt-length c (u ∷ vs) zero v e = omega (arith, refs-le-length c vs)
refs-lt-length c (none ∷ vs) (suc x) v e = omega (arith, refs-lt-length c vs x v e)
refs-lt-length c (some h ∷ vs) (suc x) v e = ground (arith, refs-lt-length c vs x v e)
