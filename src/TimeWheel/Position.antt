-- ===== src/TimeWheel/Position.antt =====
-- Where a timer stands on the wheel, and what a tick changes of it.
use notes_coding.Base.{
  ℕ, zero, suc, ◌+◌, ◌-◌, ◌*◌, ◌%◌, ◌<◌, ◌≡◌, ◌≢◌, inl, inr, refl, ap, sym, subst, ◌∙◌, List, [],
  ◌∷◌, arith, ◌==◌, Bool-cases, length, set, length-set, get_elem?-set_ne, none, some,
}
use notes_coding.Memory.{Ptr}
use notes_coding.TimeWheel.{TwTimer, TimeWheel, slot_at, slot_count, tick, tick_slot}
use notes_coding.TimeWheel.Slot.{
  Absent, Sole, calls_of, tick_slot-Absent, tick_slot-waits, tick_slot-fires,
}

-- 60 slots, and the current one is one of them.
pub record IsWheel (w : TimeWheel) : Type 0 where
  pub sixty : length w.slots ≡ slot_count
  pub current : w.cur_slot < slot_count

-- No timer of the wheel is at `p`.
pub record IsGone (p : Ptr) (w : TimeWheel) : Type 0 where
  pub wheel : IsWheel w
  pub absent : (j : ℕ) → Absent p (slot_at w.slots j)

-- The timer at `p` is on the wheel, in one slot, to which the wheel comes after `d` more ticks when
-- the rotations of the timer are counted in.
pub record Waits (p : Ptr) (d : ℕ) (w : TimeWheel) : Type 0 where
  pub wheel : IsWheel w
  pub slot : ℕ
  pub rotations : ℕ
  pub on : slot < slot_count
  pub sole : Sole p rotations (slot_at w.slots slot)
  pub others : (j : ℕ) → slot ≢ j → Absent p (slot_at w.slots j)
  pub due : d ≡ (slot + slot_count - w.cur_slot) % slot_count + slot_count * rotations

pub slot_at-set_self :
    (slots : List (List TwTimer)) (i : ℕ) (xs : List TwTimer)
    → i < length slots
    → slot_at (set slots i xs) i ≡ xs
slot_at-set_self [] i xs h = elim h [ ]
slot_at-set_self (ys ∷ slots) zero xs h = refl
slot_at-set_self (ys ∷ slots) (suc i) xs h = slot_at-set_self slots i xs (omega arith)

pub slot_at-set_ne :
    (slots : List (List TwTimer)) (i j : ℕ) (xs : List TwTimer)
    → i ≢ j
    → slot_at (set slots i xs) j ≡ slot_at slots j
slot_at-set_ne slots i j xs ne =
    ap (λ o. elim o [ none ↦ [] | some ys ↦ ys ]) (get_elem?-set_ne slots i j xs ne)

IsWheel-tick : (w : TimeWheel) → IsWheel w → IsWheel (tick w)
unfolding tick
IsWheel-tick w is = record {
  sixty = length-set w.slots w.cur_slot _ ∙ is.sixty;
  current = omega arith;
}

tick-others :
    (w : TimeWheel) (j : ℕ) → w.cur_slot ≢ j → slot_at (tick w).slots j ≡ slot_at w.slots j
unfolding tick
tick-others w j ne = slot_at-set_ne w.slots w.cur_slot j _ ne

tick-current :
    (w : TimeWheel)
    → IsWheel w
    → slot_at (tick w).slots w.cur_slot ≡ (tick_slot (slot_at w.slots w.cur_slot) w.trace).0
unfolding tick
tick-current w is =
    slot_at-set_self w.slots w.cur_slot _ (subst (λ n. w.cur_slot < n) (sym is.sixty) is.current)

-- A slot other than the one at `p` stays without `p`.
tick-Absent :
    (p : Ptr) (w : TimeWheel) (j : ℕ)
    → IsWheel w
    → Absent p (slot_at w.slots j)
    → Absent p (slot_at (tick w).slots j)
tick-Absent p w j is a = elim (Bool-cases (w.cur_slot == j)) [
  | inl here ↦
      let same : w.cur_slot ≡ j = ground arith in
      subst (λ i. Absent p (slot_at w.slots i) → Absent p (slot_at (tick w).slots i)) same
        (λ b. rw (tick-current w is) ((tick_slot-Absent p _ w.trace b).0)) a
  | inr there ↦ let ne : w.cur_slot ≢ j = ground arith in rw (tick-others w j ne) a
]

-- A tick never brings a timer to the wheel, and calls none that is not there.
pub tick-IsGone :
    (p : Ptr) (w : TimeWheel)
    → IsGone p w
    → IsGone p (tick w) × (calls_of p (tick w).trace ≡ calls_of p w.trace)
unfolding tick
tick-IsGone p w gone = (
  record {
    wheel = IsWheel-tick w gone.wheel;
    absent = λ j. tick-Absent p w j gone.wheel (gone.absent j);
  },
  (tick_slot-Absent p _ w.trace (gone.absent w.cur_slot)).1,
)

-- When the wheel comes to a timer that has rotations to wait, it waits one rotation less.
tick-rotation :
    (p : Ptr) (r : ℕ) (w : TimeWheel)
    → IsWheel w
    → Sole p (suc r) (slot_at w.slots w.cur_slot)
    → ((j : ℕ) → w.cur_slot ≢ j → Absent p (slot_at w.slots j))
    → Waits p (59 + slot_count * r) (tick w) × (calls_of p (tick w).trace ≡ calls_of p w.trace)
unfolding tick
tick-rotation p r w is sole others =
    let (kept, quiet) = tick_slot-waits p r _ w.trace sole in
    (
      record {
        wheel = IsWheel-tick w is;
        slot = w.cur_slot;
        rotations = r;
        on = is.current;
        sole = rw (tick-current w is) kept;
        others = λ j ne. tick-Absent p w j is (others j ne);
        due = omega (arith, is.current);
      },
      quiet,
    )

-- A tick in another slot brings the timer one tick nearer.
tick-nearer :
    (p : Ptr) (d : ℕ) (w : TimeWheel) (h : Waits p (suc d) w)
    → w.cur_slot ≢ h.slot
    → Waits p d (tick w) × (calls_of p (tick w).trace ≡ calls_of p w.trace)
unfolding tick
tick-nearer p d w h ne = (
  record {
    wheel = IsWheel-tick w h.wheel;
    slot = h.slot;
    rotations = h.rotations;
    on = h.on;
    sole = rw (tick-others w h.slot ne) h.sole;
    others = λ j far. tick-Absent p w j h.wheel (h.others j far);
    due = omega (arith, h.due, h.on, h.wheel.current, ne);
  },
  (tick_slot-Absent p _ w.trace (h.others w.cur_slot λ e. ne (sym e))).1,
)

-- The wheel is at the slot of a timer that has `suc d` ticks to wait.
tick-here :
    (p : Ptr) (d r : ℕ) (w : TimeWheel)
    → IsWheel w
    → Sole p r (slot_at w.slots w.cur_slot)
    → ((j : ℕ) → w.cur_slot ≢ j → Absent p (slot_at w.slots j))
    → suc d ≡ slot_count * r
    → Waits p d (tick w) × (calls_of p (tick w).trace ≡ calls_of p w.trace)
tick-here p d zero w is sole others due = absurd (omega arith)
tick-here p d (suc r) w is sole others due =
    let e : 59 + slot_count * r ≡ d = omega arith in
    subst (λ n. Waits p n (tick w) × (calls_of p (tick w).trace ≡ calls_of p w.trace)) e
      (tick-rotation p r w is sole others)

-- A tick before its time brings a timer one tick nearer and does not call it.
pub tick-Waits :
    (p : Ptr) (d : ℕ) (w : TimeWheel)
    → Waits p (suc d) w
    → Waits p d (tick w) × (calls_of p (tick w).trace ≡ calls_of p w.trace)
tick-Waits p d w h = elim (Bool-cases (w.cur_slot == h.slot)) [
  | inl here ↦
      let e : h.slot ≡ w.cur_slot = ground arith in
      tick-here p d h.rotations w h.wheel
        (subst (λ i. Sole p h.rotations (slot_at w.slots i)) e h.sole)
        (subst (λ i. (j : ℕ) → i ≢ j → Absent p (slot_at w.slots j)) e h.others)
        (omega (arith, h.due, e, h.wheel.current))
  | inr there ↦ tick-nearer p d w h (ground arith)
]

-- The tick at its time calls a timer and takes it off the wheel.
pub tick-due :
    (p : Ptr) (w : TimeWheel)
    → Waits p 0 w
    → IsGone p (tick w) × (calls_of p (tick w).trace ≡ suc (calls_of p w.trace))
unfolding tick
tick-due p w h =
    let none_left : h.rotations ≡ 0 = omega (arith, h.due) in
    let e : h.slot ≡ w.cur_slot = omega (arith, h.due, h.on, h.wheel.current) in
    let sole : Sole p 0 (slot_at w.slots w.cur_slot) =
      subst (λ r. Sole p r (slot_at w.slots w.cur_slot)) none_left
        (subst (λ i. Sole p h.rotations (slot_at w.slots i)) e h.sole) in
    let (left, call) = tick_slot-fires p _ w.trace sole in
    (
      record {
        wheel = IsWheel-tick w h.wheel;
        absent = λ j. elim (Bool-cases (w.cur_slot == j)) [
          | inl here ↦
              let same : w.cur_slot ≡ j = ground arith in
              subst (λ i. Absent p (slot_at (tick w).slots i)) same
                (rw (tick-current w h.wheel) left)
          | inr there ↦
              let ne : w.cur_slot ≢ j = ground arith in
              tick-Absent p w j h.wheel (h.others j (rw e ne))
        ];
      },
      call,
    )
