-- ===== src/TimerList/Spec.antt =====
-- The lists that a timer list stands for, and their order.
use notes_coding.Base.{
  ℕ, suc, ◌≤◌, ◌≡◌, refl, sym, inl, inr, false, ◌||◌, List, [], ◌∷◌, arith, All, ltb, ◌==◌,
  not_ltb→le, Bool-cases, if◌then◌else◌, length,
}
use notes_coding.Memory.{Ptr, null}
use notes_coding.Memory.Chain.{has, first, last, Distinct, Linked}
use notes_coding.TimerList.{UtilTimer, Timers}

abbrev pub Cell : Type 0
Cell = Ptr × UtilTimer

-- `tail` is the last cell. In an empty list it may dangle: `tick` leaves it so.
abbrev pub EndsAt : List Cell → Ptr → Type 0
EndsAt [] tail = Unit
EndsAt (x ∷ xs) tail = tail ≡ last null (x ∷ xs)

-- The store holds the timers `xs` in this order, linked both ways between `head` and `tail`.
pub record Holds (s : Timers) (xs : List Cell) : Type 0 where
  pub linked : Linked s.nodes null xs null
  pub distinct : Distinct xs
  pub head : s.fields.head ≡ first xs null
  pub tail : EndsAt xs s.fields.tail

-- Ascending by expiry.
abbrev pub IsSorted : List Cell → Type 0
IsSorted [] = Unit
IsSorted (x ∷ xs) = All (λ y. x.1.expire ≤ y.1.expire) xs × IsSorted xs

-- Before the first timer that expires later.
unfoldable pub insert : Cell → List Cell → List Cell
insert t [] = t ∷ []
insert t (x ∷ xs) = if ltb t.1.expire x.1.expire then t ∷ x ∷ xs else x ∷ insert t xs

-- `s` with its first timer at `p`.
abbrev pub headed : Timers → Ptr → Timers
headed s p = record s { fields = record (s.fields) { head = p } }

pub headed-first : (s : Timers) (xs : List Cell) → Holds s xs → headed s (first xs null) ≡ s
headed-first s xs is = λ i. headed s (sym is.head i)

pub has-insert :
    (a : Ptr) (t : Cell) (xs : List Cell) → has a (insert t xs) ≡ (a == t.0 || has a xs)
unfolding insert
has-insert a t [] = refl
has-insert a t (x ∷ xs) = ground (arith, has-insert a t xs)

pub Distinct-insert :
    (t : Cell) (xs : List Cell)
    → (t.0 == null) ≡ false
    → has t.0 xs ≡ false
    → Distinct xs
    → Distinct (insert t xs)
unfolding insert
Distinct-insert t [] real out d = (real, refl, tt)
Distinct-insert t (x ∷ xs) real out d = elim (Bool-cases (ltb t.1.expire x.1.expire)) [
  | inl before ↦ rw before (real, out, d)
  | inr after ↦
      rw after
        (d.0, ground (arith, has-insert x.0 t xs), Distinct-insert t xs real (ground arith) d.2)
]

All-insert :
    (n : ℕ) (t : Cell) (xs : List Cell)
    → n ≤ t.1.expire
    → All (λ y. n ≤ y.1.expire) xs
    → All (λ y. n ≤ y.1.expire) (insert t xs)
unfolding insert
All-insert n t [] h a = (h, tt)
All-insert n t (x ∷ xs) h a = elim (Bool-cases (ltb t.1.expire x.1.expire)) [
  | inl before ↦ rw before (h, a)
  | inr after ↦ rw after (a.0, All-insert n t xs h a.1)
]

All-weaken :
    (m n : ℕ) (xs : List Cell) → m ≤ n → All (λ y. n ≤ y.1.expire) xs → All (λ y. m ≤ y.1.expire) xs
All-weaken m n [] h a = tt
All-weaken m n (x ∷ xs) h a = (omega arith, All-weaken m n xs h a.1)

-- A timer put in its place leaves the list ascending.
pub insert-IsSorted : (t : Cell) (xs : List Cell) → IsSorted xs → IsSorted (insert t xs)
unfolding insert
insert-IsSorted t [] s = (tt, tt)
insert-IsSorted t (x ∷ xs) s = elim (Bool-cases (ltb t.1.expire x.1.expire)) [
  | inl before ↦
      let h : t.1.expire ≤ x.1.expire = ground arith in
      rw before ((h, All-weaken t.1.expire x.1.expire xs h s.0), s)
  | inr after ↦
      rw after (All-insert x.1.expire t xs (not_ltb→le _ _ after) s.0, insert-IsSorted t xs s.1)
]

pub length-insert : (t : Cell) (xs : List Cell) → length (insert t xs) ≡ suc (length xs)
unfolding insert
length-insert t [] = refl
length-insert t (x ∷ xs) = ground (arith, length-insert t xs)
