-- ===== src/StateSync/Moves.antt =====
-- What inputs do to a position, without the bounds of `int`, and in which bounds it stays.
use Prim.Native.String.{String}
use text.Mathlib.Text.{◌==◌ as str_eq}
use mathlib.Core.List.{Permᴰ}
use notes_coding.Base.{
  ℕ, zero, suc, ◌^◌, ◌<◌, ◌≤◌, ◌≡◌, inl, inr, ◌⊎◌, refl, sym, ◌∙◌, ap, subst, arith, true, some,
  ltb, length, List, [], ◌∷◌, ◌==◌, if◌then◌else◌, Bool-cases, ℤ, pos, negsuc,
}
use notes_coding.StateSync.{increment, decrement, Event, input, round}

-- One up and one down, without bounds.
pub up : ℤ → ℤ
up (pos n) = pos (suc n)
up (negsuc zero) = pos 0
up (negsuc (suc n)) = negsuc n

pub down : ℤ → ℤ
down (pos zero) = negsuc 0
down (pos (suc n)) = pos n
down (negsuc n) = negsuc (suc n)

up-down : (z : ℤ) → up (down z) ≡ down (up z)
unfolding up down
up-down (pos zero) = refl
up-down (pos (suc n)) = refl
up-down (negsuc zero) = refl
up-down (negsuc (suc n)) = refl

-- What a text does to a position.
unfoldable pub moved : String → ℤ → ℤ
unfolding up down
moved text y = if str_eq text "MoveUp" then up y else if str_eq text "MoveDown" then down y else y

-- What an event does to the position of the player `p`.
unfoldable pub moved_by : (p : ℕ) → Event → ℤ → ℤ
unfolding moved
moved_by p (input player_id text) y = if player_id == p then moved text y else y
moved_by p round y = y

-- Each text raises the position, lowers it or leaves it.
moved-cases :
    (t : String)
    → ((y : ℤ) → moved t y ≡ up y) ⊎ (((y : ℤ) → moved t y ≡ down y) ⊎ ((y : ℤ) → moved t y ≡ y))
unfolding moved
moved-cases t = elim (Bool-cases (str_eq t "MoveUp")) [
  | inl u ↦ inl (λ y. rw u refl)
  | inr u ↦ elim (Bool-cases (str_eq t "MoveDown")) [
    | inl d ↦ inr (inl (λ y. rw (u, d) refl))
    | inr d ↦ inr (inr (λ y. rw (u, d) refl))
  ]
]

-- Functions that commute, for others that are equal to them.
through :
    (f g f' g' : ℤ → ℤ)
    → ((y : ℤ) → f y ≡ f' y)
    → ((y : ℤ) → g y ≡ g' y)
    → ((y : ℤ) → f' (g' y) ≡ g' (f' y))
    → (y : ℤ) → f (g y) ≡ g (f y)
through f g f' g' e h comm y = e (g y) ∙ ap f' (h y) ∙ comm y ∙ sym (ap g' (e y)) ∙ sym (h (f y))

moved_comm : (a b : String) (y : ℤ) → moved a (moved b y) ≡ moved b (moved a y)
moved_comm a b = elim (moved-cases a) [
  | inl u ↦ elim (moved-cases b) [
    | inl u' ↦ through (moved a) (moved b) up up u u' (λ y. refl)
    | inr (inl d) ↦ through (moved a) (moved b) up down u d up-down
    | inr (inr off) ↦ through (moved a) (moved b) up (λ y. y) u off (λ y. refl)
  ]
  | inr (inl d) ↦ elim (moved-cases b) [
    | inl u ↦ through (moved a) (moved b) down up d u (λ y. sym (up-down y))
    | inr (inl d') ↦ through (moved a) (moved b) down down d d' (λ y. refl)
    | inr (inr off) ↦ through (moved a) (moved b) down (λ y. y) d off (λ y. refl)
  ]
  | inr (inr off) ↦ through (moved a) (moved b) (λ y. y) (moved b) off (λ y. refl) (λ y. refl)
]

moved_by_comm :
    (p : ℕ) (e f : Event) (y : ℤ) → moved_by p e (moved_by p f y) ≡ moved_by p f (moved_by p e y)
unfolding moved_by
moved_by_comm p (input i a) (input j b) y = elim (Bool-cases (i == p)) [
  | inl here ↦ elim (Bool-cases (j == p)) [
    | inl here' ↦ rw (here, here') (moved_comm a b y)
    | inr off ↦ rw (here, off) refl
  ]
  | inr off ↦ rw off refl
]
moved_by_comm p (input i a) round y = refl
moved_by_comm p round f y = refl

unfoldable pub moved_all : (p : ℕ) → List Event → ℤ → ℤ
moved_all p [] y = y
moved_all p (e ∷ es) y = moved_all p es (moved_by p e y)

pub moved_all-Perm :
    (p : ℕ) {es fs : List Event} → Permᴰ es fs → (y : ℤ) → moved_all p es y ≡ moved_all p fs y
unfolding moved_all
moved_all-Perm p Permᴰ.nil y = refl
moved_all-Perm p (Permᴰ.cons {a} {b} {l₁} {l₂} e q) y =
    moved_all-Perm p q (moved_by p a y) ∙ ap (λ c. moved_all p l₂ (moved_by p c y)) e
moved_all-Perm p (Permᴰ.swap {a} {b} {a'} {b'} {l} e f) y =
    ap (moved_all p l) (moved_by_comm p b a y)
    ∙ ap (λ c. moved_all p l (moved_by p c (moved_by p b y))) e
    ∙ ap (λ c. moved_all p l (moved_by p b' (moved_by p c y))) f
moved_all-Perm p (Permᴰ.trans q r) y = moved_all-Perm p q y ∙ moved_all-Perm p r y

pub length-Perm : {es fs : List Event} → Permᴰ es fs → length es ≡ length fs
length-Perm Permᴰ.nil = refl
length-Perm (Permᴰ.cons {a} {b} {l₁} {l₂} e q) = omega (arith, length-Perm q)
length-Perm (Permᴰ.swap {a} {b} {a'} {b'} {l} e f) = refl
length-Perm (Permᴰ.trans q r) = length-Perm q ∙ length-Perm r

-- A position from `- (k + 1)` to `k`.
abbrev pub IsWithin : (k : ℕ) → ℤ → Type 0
IsWithin k (pos n) = n ≤ k
IsWithin k (negsuc n) = n ≤ k

pub wider : (k : ℕ) (y : ℤ) → IsWithin k y → IsWithin (suc k) y
wider k (pos n) h = omega (arith, h)
wider k (negsuc n) h = omega (arith, h)

up-IsWithin : (k : ℕ) (y : ℤ) → IsWithin k y → IsWithin (suc k) (up y)
unfolding up
up-IsWithin k (pos n) h = omega (arith, h)
up-IsWithin k (negsuc zero) h = omega arith
up-IsWithin k (negsuc (suc n)) h = omega (arith, h)

down-IsWithin : (k : ℕ) (y : ℤ) → IsWithin k y → IsWithin (suc k) (down y)
unfolding down
down-IsWithin k (pos zero) h = omega arith
down-IsWithin k (pos (suc n)) h = omega (arith, h)
down-IsWithin k (negsuc n) h = omega (arith, h)

pub increment-up : (k : ℕ) (y : ℤ) → IsWithin k y → suc k < 2 ^ 31 → increment y ≡ some (up y)
unfolding increment up
increment-up k (pos n) h small =
    let fits : ltb (suc n) (2 ^ 31) ≡ true = ground (arith, h, small) in rw fits refl
increment-up k (negsuc zero) h small = refl
increment-up k (negsuc (suc n)) h small = refl

pub decrement-down : (k : ℕ) (y : ℤ) → IsWithin k y → suc k < 2 ^ 31 → decrement y ≡ some (down y)
unfolding decrement down
decrement-down k (pos zero) h small = refl
decrement-down k (pos (suc n)) h small = refl
decrement-down k (negsuc n) h small =
    let fits : ltb (suc n) (2 ^ 31) ≡ true = ground (arith, h, small) in rw fits refl

moved-IsWithin : (k : ℕ) (t : String) (y : ℤ) → IsWithin k y → IsWithin (suc k) (moved t y)
moved-IsWithin k t y h = elim (moved-cases t) [
  | inl u ↦ subst (IsWithin (suc k)) (sym (u y)) (up-IsWithin k y h)
  | inr (inl d) ↦ subst (IsWithin (suc k)) (sym (d y)) (down-IsWithin k y h)
  | inr (inr off) ↦ subst (IsWithin (suc k)) (sym (off y)) (wider k y h)
]

pub moved_by-IsWithin :
    (k p : ℕ) (e : Event) (y : ℤ) → IsWithin k y → IsWithin (suc k) (moved_by p e y)
unfolding moved_by
moved_by-IsWithin k p (input i t) y h = elim (Bool-cases (i == p)) [
  | inl here ↦ rw here (moved-IsWithin k t y h)
  | inr off ↦ rw off (wider k y h)
]
moved_by-IsWithin k p round y h = wider k y h
