-- ===== src/TimeWheel/Slot.antt =====
-- What a tick does to the slot that it comes to.
use notes_coding.Base.{
  ℕ, suc, ◌+◌, ◌≡◌, ◌≢◌, ◌⊎◌, inl, inr, refl, ap, ◌∙◌, List, [], ◌∷◌, ◌++◌, All, arith, ltb, ◌==◌,
  if◌then◌else◌, Bool-cases, true, false,
}
use notes_coding.Memory.{Ptr}
use notes_coding.TimeWheel.{TwTimer, Event, called, deleted, tick_slot, unlink}

-- No timer of the list is at `p`.
abbrev pub Absent : Ptr → List TwTimer → Type 0
Absent p xs = All (λ x. x.address ≢ p) xs

-- One timer of the list is at `p`, and it has `r` rotations to wait.
pub Sole : Ptr → ℕ → List TwTimer → Type 0
Sole p r [] = ⊥
Sole p r (x ∷ xs) =
    ((x.address ≡ p) × (x.rotation ≡ r) × Absent p xs) ⊎ ((x.address ≢ p) × Sole p r xs)

-- How often the callback of the timer at `p` was called.
pub calls_of : Ptr → List Event → ℕ
calls_of p [] = 0
calls_of p (called q ∷ es) = (if q == p then 1 else 0) + calls_of p es
calls_of p (deleted q ∷ es) = calls_of p es

pub calls_of-append :
    (p : Ptr) (es fs : List Event) → calls_of p (es ++ fs) ≡ calls_of p es + calls_of p fs
unfolding calls_of
calls_of-append p [] fs = omega arith
calls_of-append p (called q ∷ es) fs = ground (arith, calls_of-append p es fs)
calls_of-append p (deleted q ∷ es) fs = calls_of-append p es fs

calls_of-other :
    (p q : Ptr) (es : List Event)
    → q ≢ p
    → calls_of p (es ++ called q ∷ deleted q ∷ []) ≡ calls_of p es
unfolding calls_of
calls_of-other p q es ne = ground (arith, calls_of-append p es (called q ∷ deleted q ∷ []))

pub tick_slot-Absent :
    (p : Ptr) (xs : List TwTimer) (es : List Event)
    → Absent p xs
    → Absent p (tick_slot xs es).0 × (calls_of p (tick_slot xs es).1 ≡ calls_of p es)
unfolding tick_slot
tick_slot-Absent p [] es a = (tt, refl)
tick_slot-Absent p (x ∷ xs) es a = elim (Bool-cases (ltb 0 x.rotation)) [
  | inl waits ↦ let (b, c) = tick_slot-Absent p xs es a.1 in rw waits ((a.0, b), c)
  | inr fires ↦
      let (b, c) = tick_slot-Absent p xs (es ++ called x.address ∷ deleted x.address ∷ []) a.1 in
      rw fires (b, c ∙ calls_of-other p x.address es a.0)
]

pub tick_slot-waits :
    (p : Ptr) (r : ℕ) (xs : List TwTimer) (es : List Event)
    → Sole p (suc r) xs
    → Sole p r (tick_slot xs es).0 × (calls_of p (tick_slot xs es).1 ≡ calls_of p es)
unfolding tick_slot Sole
tick_slot-waits p r [] es s = elim s [ ]
tick_slot-waits p r (x ∷ xs) es (inl (here, rotation, others)) =
    let waits : ltb 0 x.rotation ≡ true = ground arith in
    let (b, c) = tick_slot-Absent p xs es others in rw waits (inl (here, omega arith, b), c)
tick_slot-waits p r (x ∷ xs) es (inr (ne, s)) = elim (Bool-cases (ltb 0 x.rotation)) [
  | inl waits ↦ let (b, c) = tick_slot-waits p r xs es s in rw waits (inr (ne, b), c)
  | inr fires ↦
      let (b, c) = tick_slot-waits p r xs (es ++ called x.address ∷ deleted x.address ∷ []) s in
      rw fires (b, c ∙ calls_of-other p x.address es ne)
]

pub tick_slot-fires :
    (p : Ptr) (xs : List TwTimer) (es : List Event)
    → Sole p 0 xs
    → Absent p (tick_slot xs es).0 × (calls_of p (tick_slot xs es).1 ≡ suc (calls_of p es))
unfolding tick_slot Sole calls_of
tick_slot-fires p [] es s = elim s [ ]
tick_slot-fires p (x ∷ xs) es (inl (here, rotation, others)) =
    let fires : ltb 0 x.rotation ≡ false = ground arith in
    let (b, c) = tick_slot-Absent p xs (es ++ called x.address ∷ deleted x.address ∷ []) others in
    rw fires
      (b, c ∙ ground (arith, calls_of-append p es (called x.address ∷ deleted x.address ∷ [])))
tick_slot-fires p (x ∷ xs) es (inr (ne, s)) = elim (Bool-cases (ltb 0 x.rotation)) [
  | inl waits ↦ let (b, c) = tick_slot-fires p xs es s in rw waits ((ne, b), c)
  | inr fires ↦
      let (b, c) = tick_slot-fires p xs (es ++ called x.address ∷ deleted x.address ∷ []) s in
      rw fires (b, c ∙ ap suc (calls_of-other p x.address es ne))
]

pub unlink-Absent : (p : Ptr) (r : ℕ) (xs : List TwTimer) → Sole p r xs → Absent p (unlink p xs)
unfolding unlink Sole
unlink-Absent p r [] s = elim s [ ]
unlink-Absent p r (x ∷ xs) (inl (here, rotation, others)) =
    let hit : (x.address == p) ≡ true = ground arith in rw hit others
unlink-Absent p r (x ∷ xs) (inr (ne, s)) =
    let miss : (x.address == p) ≡ false = ground arith in rw miss (ne, unlink-Absent p r xs s)

pub Sole-new :
    (p : Ptr) (r ts : ℕ) (xs : List TwTimer)
    → Absent p xs
    → Sole p r (record { address = p; rotation = r; time_slot = ts } ∷ xs)
unfolding Sole
Sole-new p r ts xs a = inl (refl, refl, a)

pub Sole-other :
    (p : Ptr) (r : ℕ) (x : TwTimer) (xs : List TwTimer)
    → x.address ≢ p
    → Sole p r xs
    → Sole p r (x ∷ xs)
unfolding Sole
Sole-other p r x xs ne s = inr (ne, s)

pub calls_of-delete :
    (p q : Ptr) (es : List Event) → calls_of p (es ++ deleted q ∷ []) ≡ calls_of p es
unfolding calls_of
calls_of-delete p q es = calls_of-append p es (deleted q ∷ []) ∙ omega arith
