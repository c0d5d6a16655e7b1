-- ===== src/TimeWheel/Tests.antt =====
-- The time wheel on small inputs.
use notes_coding.Base.{ℕ, refl, arith, zero, suc, ap, ◌≢◌, replicate, [], ◌∷◌, set, List}
use notes_coding.Memory.{Ptr}
use notes_coding.TimeWheel.{TwTimer, TimeWheel, slot_at}
use notes_coding.TimeWheel.Slot.{Absent, Sole-new}
use notes_coding.TimeWheel.Position.{Waits}

-- A new wheel, 7 ticks on.
abbrev empty_wheel : TimeWheel
empty_wheel = record { slots = replicate 60 []; cur_slot = 7; trace = [] }

slots_empty : (n j : ℕ) (p : Ptr) → Absent p (slot_at (replicate n []) j)
slots_empty zero j p = tt
slots_empty (suc n) zero p = tt
slots_empty (suc n) (suc j) p = slots_empty n j p

-- A timer of 125 ticks, added when the wheel was at slot 7.
abbrev timer : TwTimer
timer = record { address = 5; rotation = 2; time_slot = 12 }

abbrev one_timer : TimeWheel
one_timer = record empty_wheel { slots = set (replicate 60 []) 12 (timer ∷ []) }

one_slot :
    (n i j : ℕ) (xs : List TwTimer) → i ≢ j → Absent 5 (slot_at (set (replicate n []) i xs) j)
one_slot zero i j xs ne = tt
one_slot (suc n) zero zero xs ne = absurd (ne refl)
one_slot (suc n) zero (suc j) xs ne = slots_empty n j 5
one_slot (suc n) (suc i) zero xs ne = tt
one_slot (suc n) (suc i) (suc j) xs ne = one_slot n i j xs (λ e. ne (ap suc e))

abbrev timer_waits : Waits 5 125 one_timer
timer_waits = record {
  wheel = record { sixty = refl; current = omega arith };
  slot = 12;
  rotations = 2;
  on = omega arith;
  sole = Sole-new 5 2 12 [] tt;
  others = λ j ne. one_slot 60 12 j (timer ∷ []) ne;
  due = refl;
}
