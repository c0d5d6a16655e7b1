-- ===== src/IdleServer/Found.antt =====
-- The timer of a connection among the timers of the list.
use notes_coding.Base.{
  ℕ, suc, ◌≡◌, ◌≢◌, ◌⊎◌, inl, inr, refl, ap, sym, ◌∙◌, subst, false, true, List, [], ◌∷◌, ◌++◌,
  arith, All, ltb, Bool-cases, length,
}
use notes_coding.Memory.{Ptr}
use notes_coding.Memory.Chain.{has, Distinct}
use notes_coding.TimerList.{UtilTimer}
use notes_coding.TimerList.Spec.{Cell, insert}

-- The timer at `p` is in the list, and its client data are those of the descriptor `fd`.
abbrev pub Found : Ptr → ℕ → List Cell → Type 0
Found p fd [] = ⊥
Found p fd (x ∷ xs) = ((x.0 ≡ p) × (x.1.user_data ≡ fd)) ⊎ Found p fd xs

pub Found-has : (p : Ptr) (fd : ℕ) (xs : List Cell) → Found p fd xs → has p xs ≡ true
Found-has p fd [] f = elim f [ ]
Found-has p fd (x ∷ xs) (inl here) = ground (arith, here.0)
Found-has p fd (x ∷ xs) (inr there) = ground (arith, Found-has p fd xs there)

-- A timer is that of one descriptor only.
pub Found-unique :
    (p : Ptr) (fd fd' : ℕ) (xs : List Cell)
    → Distinct xs
    → Found p fd xs
    → Found p fd' xs
    → fd ≡ fd'
Found-unique p fd fd' [] d f g = elim f [ ]
Found-unique p fd fd' (x ∷ xs) d (inl a) (inl b) = sym a.1 ∙ b.1
Found-unique p fd fd' (x ∷ xs) d (inl a) (inr b) =
    absurd (ground (arith, subst (λ q. has q xs ≡ false) a.0 d.1, Found-has p fd' xs b))
Found-unique p fd fd' (x ∷ xs) d (inr a) (inl b) =
    absurd (ground (arith, subst (λ q. has q xs ≡ false) b.0 d.1, Found-has p fd xs a))
Found-unique p fd fd' (x ∷ xs) d (inr a) (inr b) = Found-unique p fd fd' xs d.2 a b

-- The list in front of the timer and behind it.
pub record Split (p : Ptr) (fd : ℕ) (xs : List Cell) : Type 0 where
  pub ys : List Cell
  pub tv : UtilTimer
  pub zs : List Cell
  pub whole : xs ≡ ys ++ (p, tv) ∷ zs
  pub owner : tv.user_data ≡ fd

pub Found-Split : (p : Ptr) (fd : ℕ) (xs : List Cell) → Found p fd xs → Split p fd xs
Found-Split p fd [] f = elim f [ ]
Found-Split p fd (x ∷ xs) (inl here) = record {
  ys = [];
  tv = x.1;
  zs = xs;
  whole = λ i. (here.0 i, x.1) ∷ xs;
  owner = here.1;
}
Found-Split p fd (x ∷ xs) (inr there) =
    let s : Split p fd xs = Found-Split p fd xs there in
    record { ys = x ∷ s.ys; tv = s.tv; zs = s.zs; whole = ap (λ l. x ∷ l) s.whole; owner = s.owner }

pub Found-insert_new :
    (t : Ptr) (tv : UtilTimer) (xs : List Cell) → Found t tv.user_data (insert (t, tv) xs)
unfolding insert
Found-insert_new t tv [] = inl (refl, refl)
Found-insert_new t tv (x ∷ xs) = elim (Bool-cases (ltb tv.expire x.1.expire)) [
  | inl before ↦ rw before (inl (refl, refl))
  | inr after ↦ rw after (inr (Found-insert_new t tv xs))
]

pub Found-insert_old :
    (p : Ptr) (fd : ℕ) (t : Cell) (xs : List Cell) → Found p fd xs → Found p fd (insert t xs)
unfolding insert
Found-insert_old p fd t [] f = elim f [ ]
Found-insert_old p fd t (x ∷ xs) f = elim (Bool-cases (ltb t.1.expire x.1.expire)) [
  | inl before ↦ rw before (inr f)
  | inr after ↦
      rw after (elim f [ inl here ↦ inl here | inr there ↦ inr (Found-insert_old p fd t xs there) ])
]

-- A timer other than the one at `t` is still in the list without that.
pub Found-remove :
    (p : Ptr) (fd : ℕ) (ys : List Cell) (t : Ptr) (tv : UtilTimer) (zs : List Cell)
    → p ≢ t
    → Found p fd (ys ++ (t, tv) ∷ zs)
    → Found p fd (ys ++ zs)
Found-remove p fd [] t tv zs ne (inl here) = absurd (ne (sym here.0))
Found-remove p fd [] t tv zs ne (inr there) = there
Found-remove p fd (y ∷ ys) t tv zs ne (inl here) = inl here
Found-remove p fd (y ∷ ys) t tv zs ne (inr there) = inr (Found-remove p fd ys t tv zs ne there)

pub Found-append :
    (p : Ptr) (fd : ℕ) (ys zs : List Cell) → Found p fd (ys ++ zs) → Found p fd ys ⊎ Found p fd zs
Found-append p fd [] zs f = inr f
Found-append p fd (y ∷ ys) zs (inl here) = inl (inl here)
Found-append p fd (y ∷ ys) zs (inr there) = elim (Found-append p fd ys zs there) [
  | inl a ↦ inl (inr a)
  | inr b ↦ inr b
]

pub Found-left : (p : Ptr) (fd : ℕ) (ys zs : List Cell) → Found p fd ys → Found p fd (ys ++ zs)
Found-left p fd [] zs f = elim f [ ]
Found-left p fd (y ∷ ys) zs (inl here) = inl here
Found-left p fd (y ∷ ys) zs (inr there) = inr (Found-left p fd ys zs there)

pub Found-right : (p : Ptr) (fd : ℕ) (ys zs : List Cell) → Found p fd zs → Found p fd (ys ++ zs)
Found-right p fd [] zs f = f
Found-right p fd (y ∷ ys) zs f = inr (Found-right p fd ys zs f)

pub All-insert :
    (P : Cell → Type 0) (t : Cell) (xs : List Cell) → P t → All P xs → All P (insert t xs)
unfolding insert
All-insert P t [] h a = (h, tt)
All-insert P t (x ∷ xs) h a = elim (Bool-cases (ltb t.1.expire x.1.expire)) [
  | inl before ↦ rw before (h, a)
  | inr after ↦ rw after (a.0, All-insert P t xs h a.1)
]

pub length-insert : (t : Cell) (xs : List Cell) → length (insert t xs) ≡ suc (length xs)
unfolding insert
length-insert t [] = refl
length-insert t (x ∷ xs) = elim (Bool-cases (ltb t.1.expire x.1.expire)) [
  | inl before ↦ rw before refl
  | inr after ↦ rw after (ap suc (length-insert t xs))
]
