-- ===== src/TimeHeap/Order.antt =====
-- The order of the set of timers: the comparator and `addTimer`.
use mathlib.Core.List.{Perm}
use mathlib.Core.List.Perm
use notes_coding.Base.{
  ◌<◌, ◌≤◌, ◌≡◌, ◌≢◌, refl, inl, inr, true, false, List, [], ◌∷◌, arith, All, ◌==◌, Bool-cases,
}
use notes_coding.Memory.{Ptr, null}
use notes_coding.TimeHeap.{HeapTimer, TimeHeap, less, insert, add_timer}

-- No timer of the list is at `p`.
abbrev pub Absent : Ptr → List Ptr → Type 0
Absent p xs = All (λ x. x ≢ p) xs

-- Each timer is less than all that come after it.
abbrev pub IsAscending : (Ptr → HeapTimer) → List Ptr → Type 0
IsAscending timers [] = Unit
IsAscending timers (x ∷ xs) = All (λ y. less timers x y ≡ true) xs × IsAscending timers xs

pub less_lem :
    (timers : Ptr → HeapTimer) (x y : Ptr)
    → (x == null) ≡ false
    → (y == null) ≡ false
    → (timers x).expire < (timers y).expire
    → less timers x y ≡ true
unfolding less
less_lem timers x y real also h = ground arith

pub less_trans :
    (timers : Ptr → HeapTimer) (a b c : Ptr)
    → less timers a b ≡ true
    → less timers b c ≡ true
    → less timers a c ≡ true
unfolding less
less_trans timers a b c h k = ground arith

-- A timer that is less than another does not expire later.
pub less-expire :
    (timers : Ptr → HeapTimer) (x y : Ptr)
    → (x == null) ≡ false
    → less timers x y ≡ true
    → (timers x).expire ≤ (timers y).expire
unfolding less
less-expire timers x y real h = ground arith

-- Two timers of which neither is less are one.
less-total :
    (timers : Ptr → HeapTimer) (a b : Ptr)
    → less timers a b ≡ false
    → less timers b a ≡ false
    → a ≡ b
unfolding less
less-total timers a b h k = ground arith

insert-All :
    (timers : Ptr → HeapTimer) (p t : Ptr) (xs : List Ptr)
    → less timers p t ≡ true
    → All (λ y. less timers p y ≡ true) xs
    → All (λ y. less timers p y ≡ true) (insert timers t xs)
unfolding insert
insert-All timers p t [] h a = (h, tt)
insert-All timers p t (x ∷ xs) h a = elim (Bool-cases (less timers t x)) [
  | inl before ↦ rw before (h, a)
  | inr off ↦ elim (Bool-cases (less timers x t)) [
    | inl after ↦ rw (off, after) (a.0, insert-All timers p t xs h a.1)
    | inr same ↦ rw (off, same) a
  ]
]

All-less :
    (timers : Ptr → HeapTimer) (t x : Ptr) (xs : List Ptr)
    → less timers t x ≡ true
    → All (λ y. less timers x y ≡ true) xs
    → All (λ y. less timers t y ≡ true) xs
All-less timers t x [] h a = tt
All-less timers t x (y ∷ ys) h a = (less_trans timers t x y h a.0, All-less timers t x ys h a.1)

insert-IsAscending :
    (timers : Ptr → HeapTimer) (t : Ptr) (xs : List Ptr)
    → IsAscending timers xs
    → IsAscending timers (insert timers t xs)
unfolding insert
insert-IsAscending timers t [] s = (tt, tt)
insert-IsAscending timers t (x ∷ xs) s = elim (Bool-cases (less timers t x)) [
  | inl before ↦ rw before ((before, All-less timers t x xs before s.0), s)
  | inr off ↦ elim (Bool-cases (less timers x t)) [
    | inl after ↦
        rw (off, after) (insert-All timers x t xs after s.0, insert-IsAscending timers t xs s.1)
    | inr same ↦ rw (off, same) s
  ]
]

insert-Perm :
    (timers : Ptr → HeapTimer) (t : Ptr) (xs : List Ptr)
    → Absent t xs
    → Perm (insert timers t xs) (t ∷ xs)
unfolding insert
insert-Perm timers t [] a = Perm.rfl
insert-Perm timers t (x ∷ xs) a = elim (Bool-cases (less timers t x)) [
  | inl before ↦ rw before Perm.rfl
  | inr off ↦ elim (Bool-cases (less timers x t)) [
    | inl after ↦
        rw (off, after) (Perm.trans (Perm.cons x (insert-Perm timers t xs a.1)) (Perm.swap t x xs))
    | inr same ↦ absurd (a.0 (less-total timers x t same off))
  ]
]

-- The set `h'` is `h` with the timer `t` more, in order.
pub record Added (t : Ptr) (h h' : TimeHeap) : Type 0 where
  pub ascending : IsAscending h'.timers h'.array
  pub elements : Perm h'.array (t ∷ h.array)
  pub timers : h'.timers ≡ h.timers
  pub calls : h'.calls ≡ h.calls

-- `addTimer` of a timer that is not in the set puts it in its place: the set stays in order, and has
-- just this timer more.
pub add_timer-Added :
    (t : Ptr) (h : TimeHeap)
    → (t == null) ≡ false
    → Absent t h.array
    → IsAscending h.timers h.array
    → Added t h (add_timer t h)
unfolding add_timer
add_timer-Added t h real a s = rw real (record {
  ascending = insert-IsAscending h.timers t h.array s;
  elements = insert-Perm h.timers t h.array a;
  timers = refl;
  calls = refl;
})
