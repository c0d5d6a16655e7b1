-- ===== src/MedianFinder/Halves.antt =====
-- The two queues hold the halves of what was added.
use notes_coding.Base.{
  ℕ, suc, ◌≡◌, refl, sym, ◌∙◌, ap, subst, inl, inr, ◌⊎◌, arith, ℤ, leb_int_total, leb_int_trans,
  Bool, true, false, some, List, [], ◌∷◌, ◌++◌, All, All-map, length, Bool-cases, ◌==◌,
}
use mathlib.Core.List.{Perm, perm_middle, perm_append_comm, append-nil}
use mathlib.Core.List as L
use notes_coding.MedianFinder.{push, flip, MedianFinder, less_first, add_num, add_all}
use notes_coding.MedianFinder.Queue.{
  IsQueue, push-All, length-push, push-Perm, push-IsQueue, push_cases,
}

-- What is in `front` is not behind what is in `back`; the queue `back` is in the order `le` and the
-- queue `front` in the other.
pub record Apart {A : Type 0} (le : A → A → Bool) (front back : List A) : Type 0 where
  pub back_queue : IsQueue le back
  pub front_queue : IsQueue (flip le) front
  pub across : All (λ q. All (λ p. le q p ≡ true) back) front

module _ {A : Type 0} (le : A → A → Bool) (total : (a b : A) → (le a b ≡ true) ⊎ (le b a ≡ true))
    (trans : (a b c : A) → le a b ≡ true → le b c ≡ true → le a c ≡ true) where
  column :
      (p : A) (back front : List A)
      → All (λ q. All (λ x. le q x ≡ true) (p ∷ back)) front
      → All (λ q. le q p ≡ true) front × All (λ q. All (λ x. le q x ≡ true) back) front
  column p back [] a = (tt, tt)
  column p back (q ∷ front) a =
      let (c, rest) = column p back front a.1 in ((a.0.0, c), (a.0.1, rest))

  turn_across :
      (front back : List A)
      → All (λ q. All (λ p. le q p ≡ true) back) front
      → All (λ p. All (λ q. le q p ≡ true) front) back
  turn_across front [] a = tt
  turn_across front (p ∷ back) a =
      let (c, rest) = column p back front a in (c, turn_across front back rest)

  pub turn : (front back : List A) → Apart le front back → Apart (flip le) back front
  turn front back a = record {
    back_queue = a.front_queue;
    front_queue = a.back_queue;
    across = turn_across front back a.across;
  }

  -- A new element goes to the queue `back`, whose first one then goes to `front`.
  pub move :
      (num y : A) (front back rest : List A)
      → Apart le front back
      → push le num back ≡ y ∷ rest
      → Apart le (push (flip le) y front) rest
  move num y front back rest a e =
      let sorted : IsQueue le (y ∷ rest) =
        subst (IsQueue le) e (push-IsQueue le total trans num back a.back_queue) in
      record {
        back_queue = sorted.1;
        front_queue =
            push-IsQueue (flip le) (λ a b. total b a) (λ a b c h k. trans c b a k h) y front
              a.front_queue;
        across =
            push-All (flip le) (λ q. All (λ p. le q p ≡ true) rest) y front sorted.0
              (elim (push_cases le total trans num back) [
                | inl e' ↦
                    let same : back ≡ rest = tail_eq (sym e' ∙ e) in
                    subst (λ l. All (λ q. All (λ p. le q p ≡ true) l) front) same a.across
                | inr (z, zs, eq, e', first) ↦
                    let same : push le num zs ≡ rest = tail_eq (sym e' ∙ e) in
                    subst (λ l. All (λ q. All (λ p. le q p ≡ true) l) front) same
                      (All-map _ _ front
                        (λ q h.
                          let h' : All (λ p. le q p ≡ true) (z ∷ zs) =
                            subst (All (λ p. le q p ≡ true)) eq h in
                          push-All le (λ p. le q p ≡ true) num zs (trans q z num h'.0 first) h'.1)
                        a.across)
              ]);
      }
    where
      tail_eq : {u v : A} {us vs : List A} → u ∷ us ≡ v ∷ vs → us ≡ vs
      tail_eq {us = us} e = ap (λ l. elim l [ [] ↦ us | _ ∷ xs ↦ xs ]) e

  pub move-Perm :
      (num y : A) (front back rest : List A)
      → push le num back ≡ y ∷ rest
      → Perm (push (flip le) y front ++ rest) (num ∷ front ++ back)
  move-Perm num y front back rest e =
      L.Perm.trans (L.Perm.append_right rest (push-Perm (flip le) y front)) (
        L.Perm.trans (L.Perm.symm (perm_middle front rest)) (
          L.Perm.trans
            (L.Perm.append_left front (subst (λ l. Perm l (num ∷ back)) e (push-Perm le num back)))
            (perm_middle front back)))

-- The queues hold the numbers `nums`, the lesser half in `heap2`; `heap1` may have one more.
pub record Halves (f : MedianFinder) (nums : List ℤ) : Type 0 where
  pub apart : Apart less_first f.heap2 f.heap1
  pub balance : (length f.heap1 ≡ length f.heap2) ⊎ (length f.heap1 ≡ suc (length f.heap2))
  pub content : Perm (f.heap2 ++ f.heap1) nums

-- A queue that was pushed to is not empty.
pushed :
    (le : ℤ → ℤ → Bool) (num : ℤ) (xs : List ℤ)
    → (y : ℤ) × (rest : List ℤ) × (push le num xs ≡ y ∷ rest) × (length rest ≡ length xs)
pushed le num xs = go (push le num xs) refl
  where
    go :
        (l : List ℤ)
        → push le num xs ≡ l
        → (y : ℤ) × (rest : List ℤ) × (push le num xs ≡ y ∷ rest) × (length rest ≡ length xs)
    go [] e = absurd (omega (arith, length-push le num xs, ap length e))
    go (y ∷ rest) e = (y, rest, e, omega (arith, length-push le num xs, ap length e))

ge_total : (a b : ℤ) → (flip less_first a b ≡ true) ⊎ (flip less_first b a ≡ true)
ge_total a b = leb_int_total b a

ge_trans :
    (a b c : ℤ)
    → flip less_first a b ≡ true
    → flip less_first b c ≡ true
    → flip less_first a c ≡ true
ge_trans a b c h k = leb_int_trans c b a k h

-- `addNum` ends, and keeps the halves.
add_num-Halves :
    (num : ℤ) (f : MedianFinder) (nums : List ℤ)
    → Halves f nums
    → (g : MedianFinder) × (add_num num f ≡ some g) × Halves g (num ∷ nums)
unfolding add_num
add_num-Halves num f nums h =
    let le : ℤ → ℤ → Bool = less_first in
    let total = leb_int_total in
    elim (Bool-cases (length f.heap1 == length f.heap2)) [
      | inl even ↦
          let (y, rest, e, n) = pushed (flip le) num f.heap2 in
          let apart : Apart (flip le) (push le y f.heap1) rest =
            move (flip le) ge_total ge_trans num y f.heap1 f.heap2 rest
              (turn le total leb_int_trans f.heap2 f.heap1 h.apart) e in
          (
            record { heap1 = push le y f.heap1; heap2 = rest },
            rw (even, e) refl,
            record {
              apart = turn (flip le) ge_total ge_trans (push le y f.heap1) rest apart;
              balance = inr (omega (arith, length-push le y f.heap1, n, even_lengths even));
              content = L.Perm.trans (perm_append_comm rest (push le y f.heap1)) (
                  L.Perm.trans (move-Perm (flip le) ge_total ge_trans num y f.heap1 f.heap2 rest e)
                    (L.Perm.cons num (L.Perm.trans (perm_append_comm f.heap1 f.heap2) h.content)));
            },
          )
      | inr odd ↦
          let (y, rest, e, n) = pushed le num f.heap1 in
          (
            record { heap1 = rest; heap2 = push (flip le) y f.heap2 },
            rw (odd, e) refl,
            record {
              apart = move le total leb_int_trans num y f.heap2 f.heap1 rest h.apart e;
              balance = elim h.balance [
                | inl same ↦ absurd (uneven odd same)
                | inr more ↦ inl (omega (arith, length-push (flip le) y f.heap2, n, more))
              ];
              content =
                  L.Perm.trans (move-Perm le total leb_int_trans num y f.heap2 f.heap1 rest e)
                    (L.Perm.cons num h.content);
            },
          )
    ]
  where
    even_lengths : {a b : ℕ} → (a == b) ≡ true → a ≡ b
    even_lengths e = ground arith

    uneven : {a b : ℕ} → (a == b) ≡ false → a ≡ b → ⊥
    uneven e h = ground arith

pub add_all-Halves :
    (nums : List ℤ) (f : MedianFinder) (before : List ℤ)
    → Halves f before
    → (g : MedianFinder) × (add_all nums f ≡ some g) × Halves g (nums ++ before)
unfolding add_all
add_all-Halves [] f before h = (f, refl, h)
add_all-Halves (num ∷ nums) f before h =
    let (g, e, h') = add_num-Halves num f before h in
    let (k, e', r) = add_all-Halves nums g (num ∷ before) h' in
    (
      k,
      rw (add_all, e) e',
      record {
        apart = r.apart;
        balance = r.balance;
        content = L.Perm.trans r.content (perm_middle nums before);
      },
    )
