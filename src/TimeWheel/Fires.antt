-- ===== src/TimeWheel/Fires.antt =====
-- When a timer's callback is called.
use notes_coding.Base.{
  pos, ℕ, zero, suc, ◌+◌, ◌/◌, ◌%◌, ◌<◌, ◌≡◌, ◌≢◌, inl, inr, refl, sym, subst, ◌∙◌, List, ◌∷◌,
  arith, ◌==◌, Bool-cases, false, length, set, length-set,
}
use notes_coding.Memory.{Ptr, null}
use notes_coding.TimeWheel.{
  TwTimer, TimeWheel, slot_at, slot_count, tick, ticks, add_timer, del_timer, ticks_of, unlink,
}
use notes_coding.TimeWheel.Slot.{Absent, Sole, Sole-other, calls_of, unlink-Absent, calls_of-delete}
use notes_coding.TimeWheel.Position.{IsGone, Waits, slot_at-set_self, slot_at-set_ne, tick-IsGone}

ticks-IsGone :
    (n : ℕ) (p : Ptr) (w : TimeWheel)
    → IsGone p w
    → calls_of p (ticks n w).trace ≡ calls_of p w.trace
unfolding ticks
ticks-IsGone zero p w gone = refl
ticks-IsGone (suc n) p w gone =
    let (still, quiet) = tick-IsGone p w gone in ticks-IsGone n p (tick w) still ∙ quiet

-- `delTimer` of a timer of the wheel takes it off.
del_timer-IsGone :
    (d : ℕ) (timer : TwTimer) (w : TimeWheel) (h : Waits timer.address d w)
    → (timer.address == null) ≡ false
    → timer.time_slot ≡ h.slot
    → IsGone timer.address (del_timer timer w)
unfolding del_timer
del_timer-IsGone d timer w h real here =
    let xs : List TwTimer = unlink timer.address (slot_at w.slots timer.time_slot) in
    let gone : Absent timer.address xs =
      unlink-Absent timer.address h.rotations (slot_at w.slots timer.time_slot)
        (subst (λ i. Sole timer.address h.rotations (slot_at w.slots i)) (sym here) h.sole) in
    let inside : timer.time_slot < length w.slots =
      subst (λ n. timer.time_slot < n) (sym h.wheel.sixty) (omega (arith, here, h.on)) in
    rw real (record {
      wheel = record {
        sixty = length-set w.slots timer.time_slot _ ∙ h.wheel.sixty;
        current = h.wheel.current;
      };
      absent = λ j. elim (Bool-cases (timer.time_slot == j)) [
        | inl same ↦
            let e : timer.time_slot ≡ j = ground arith in
            subst (λ i. Absent timer.address (slot_at (set w.slots timer.time_slot xs) i)) e
              (rw (slot_at-set_self w.slots timer.time_slot xs inside) gone)
        | inr other ↦
            let ne : timer.time_slot ≢ j = ground arith in
            rw (slot_at-set_ne w.slots timer.time_slot j xs ne) (h.others j λ e. ne (here ∙ e))
      ];
    })

-- After `delTimer` of a timer of the wheel its callback is never called.
pub del_timer-never :
    (n d : ℕ) (timer : TwTimer) (w : TimeWheel) (h : Waits timer.address d w)
    → (timer.address == null) ≡ false
    → timer.time_slot ≡ h.slot
    → calls_of timer.address (ticks n (del_timer timer w)).trace ≡ calls_of timer.address w.trace
unfolding del_timer
del_timer-never n d timer w h real here =
    ticks-IsGone n timer.address (del_timer timer w) (del_timer-IsGone d timer w h real here)
    ∙ rw real (calls_of-delete timer.address timer.address w.trace)

-- `addTimer` leaves every other timer of the wheel the ticks that it had to wait.
pub add_timer-others :
    (p q : Ptr) (d timeout : ℕ) (w : TimeWheel)
    → p ≢ q
    → Waits q d w
    → Waits q d (add_timer p (pos timeout) w).1
unfolding add_timer
add_timer-others p q d timeout w ne h =
    let ts : ℕ = (w.cur_slot + ticks_of timeout % slot_count) % slot_count in
    let timer : TwTimer = record {
      address = p;
      rotation = ticks_of timeout / slot_count;
      time_slot = ts;
    } in
    let same : slot_at (set w.slots ts (timer ∷ slot_at w.slots ts)) ts
        ≡ timer ∷ slot_at w.slots ts =
      slot_at-set_self w.slots ts _ (subst (λ n. ts < n) (sym h.wheel.sixty) (omega arith)) in
    record {
      wheel = record { sixty = length-set w.slots ts _ ∙ h.wheel.sixty; current = h.wheel.current };
      slot = h.slot;
      rotations = h.rotations;
      on = h.on;
      sole = elim (Bool-cases (ts == h.slot)) [
        | inl here ↦
            let e : ts ≡ h.slot = ground arith in
            let old : Sole q h.rotations (slot_at w.slots ts) =
              subst (λ i. Sole q h.rotations (slot_at w.slots i)) (sym e) h.sole in
            subst
              (λ i. Sole q h.rotations (slot_at (set w.slots ts (timer ∷ slot_at w.slots ts)) i)) e
              (rw same (Sole-other q h.rotations timer _ ne old))
        | inr there ↦
            let far : ts ≢ h.slot = ground arith in
            rw (slot_at-set_ne w.slots ts h.slot _ far) h.sole
      ];
      others = λ j off. elim (Bool-cases (ts == j)) [
        | inl here ↦
            let e : ts ≡ j = ground arith in
            let old : Absent q (slot_at w.slots ts) =
              subst (λ i. Absent q (slot_at w.slots i)) (sym e) (h.others j off) in
            subst (λ i. Absent q (slot_at (set w.slots ts (timer ∷ slot_at w.slots ts)) i)) e
              (rw same (ne, old))
        | inr there ↦
            let far : ts ≢ j = ground arith in
            rw (slot_at-set_ne w.slots ts j _ far) (h.others j off)
      ];
      due = h.due;
    }
