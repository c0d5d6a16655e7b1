-- ===== src/TimeWheel/Destroy.antt =====
-- The destructor of the wheel.
use notes_coding.Base.{
  ℕ, zero, suc, ◌+◌, ◌≡◌, refl, sym, ◌∙◌, ap, arith, List, [], ◌∷◌, ◌++◌, map, length,
  length-append, set,
}
use mathlib.Core.List.{append_assoc, append-nil}
use notes_coding.TimeWheel.{
  TwTimer, Event, deleted, TimeWheel, slot_at, slot_count, destroy_slot, destroy_slots, destroy,
}

-- The deletions of the timers of a slot, and of all slots, in order.
abbrev pub deletions : List TwTimer → List Event
deletions xs = map (λ x. deleted x.address) xs

unfoldable pub all_deletions : List (List TwTimer) → List Event
all_deletions [] = []
all_deletions (xs ∷ slots) = deletions xs ++ all_deletions slots

destroy_slot-deletions :
    (xs : List TwTimer) (trace : List Event) → destroy_slot xs trace ≡ trace ++ deletions xs
unfolding destroy_slot
destroy_slot-deletions [] trace = sym (append-nil trace)
destroy_slot-deletions (x ∷ xs) trace =
    destroy_slot-deletions xs (trace ++ deleted x.address ∷ [])
    ∙ append_assoc trace (deleted x.address ∷ []) (deletions xs)

slot_at-next :
    (front : List (List TwTimer)) (xs : List TwTimer) (slots : List (List TwTimer)) (i : ℕ)
    → i ≡ length front
    → (slot_at (front ++ xs ∷ slots) i ≡ xs)
      × (set (front ++ xs ∷ slots) i [] ≡ front ++ [] ∷ slots)
slot_at-next [] xs slots zero e = (refl, refl)
slot_at-next [] xs slots (suc i) e = absurd (omega (arith, e))
slot_at-next (f ∷ front) xs slots zero e = absurd (omega (arith, e))
slot_at-next (f ∷ front) xs slots (suc i) e =
    let (at, left) = slot_at-next front xs slots i (omega (arith, e)) in (at, ap (λ l. f ∷ l) left)

destroy_slots-deletions :
    (front slots : List (List TwTimer)) (cur : ℕ) (trace : List Event) (i : ℕ)
    → i ≡ length front
    → (destroy_slots
        (length slots)
        i
        (record { slots = front ++ slots; cur_slot = cur; trace = trace })).trace
      ≡ trace ++ all_deletions slots
unfolding destroy_slots all_deletions
destroy_slots-deletions front [] cur trace i e = sym (append-nil trace)
destroy_slots-deletions front (xs ∷ slots) cur trace i e =
    let (at, left) = slot_at-next front xs slots i e in
    let trace' : List Event = trace ++ deletions xs in
    ap (λ w. (destroy_slots (length slots) (i + 1) w).trace)
      (λ j. record {
        slots = (left ∙ sym (append_assoc front ([] ∷ []) slots)) j;
        cur_slot = cur;
        trace = (ap (λ l. destroy_slot l trace) at ∙ destroy_slot-deletions xs trace) j;
      })
    ∙ destroy_slots-deletions (front ++ [] ∷ []) slots cur trace' (i + 1)
        (omega (arith, e, length-append front ([] ∷ [])))
    ∙ append_assoc trace (deletions xs) (all_deletions slots)

-- The destructor of a wheel of 60 slots deletes every timer of the slots, once for each place that it
-- has, in order, and calls no callback.
pub destroy-deletions :
    (w : TimeWheel)
    → length w.slots ≡ slot_count
    → (destroy w).trace ≡ w.trace ++ all_deletions w.slots
unfolding destroy
destroy-deletions w e =
    ap (λ n. (destroy_slots n 0 w).trace) (sym e)
    ∙ destroy_slots-deletions [] w.slots w.cur_slot w.trace 0 refl
