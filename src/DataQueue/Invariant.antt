-- ===== src/DataQueue/Invariant.antt =====
-- What is printed and what waits in the queue, and when the second thread sleeps.
use notes_coding.Base.{
  ℕ, zero, suc, ◌+◌, ◌≤◌, ◌≡◌, refl, sym, ◌∙◌, ap, subst, inl, inr, arith, Bool, true, false, none,
  some, some-injective, none≢some, List, [], ◌∷◌, ◌++◌, leb, ◌==◌, Bool-cases,
}
use notes_coding.DataQueue.{
  last_number, State, look, prepare, process, prepares, processes, wakes_up, Reach, start, later,
}

-- `n` numbers from `k` on.
unfoldable pub numbers : (k n : ℕ) → List ℕ
numbers k zero = []
numbers k (suc n) = k ∷ numbers (suc k) n

numbers-next : (k n : ℕ) → numbers k n ++ (k + n) ∷ [] ≡ numbers k (suc n)
unfolding numbers
numbers-next k zero = ap (λ m. m ∷ []) (omega arith)
numbers-next k (suc n) =
    ap (λ l. k ∷ l) (ap (λ m. numbers (suc k) n ++ m ∷ []) (omega arith) ∙ numbers-next (suc k) n)

-- The numbers below `k` have been printed, the others below `i` are in the queue, and the second
-- thread ends just when the last one has been printed. It sleeps only while the queue is empty or it is
-- about to be notified.
pub record IsInOrder (s : State) : Type 0 where
  pub k : ℕ
  pub m : ℕ
  pub count : s.i ≡ k + m
  pub bound : s.i ≤ suc last_number
  pub said : s.printed ≡ numbers 0 k
  pub queued : s.data_queue ≡ numbers k m
  pub over : s.ended ≡ (k == suc last_number)
  pub woken : s.sleeps ≡ true → s.notifies ≡ false → m ≡ 0

-- The second thread does not sleep.
awake-IsInOrder :
    (s : State) (n : Bool) → IsInOrder s → IsInOrder (record s { notifies = n; sleeps = false })
awake-IsInOrder s n is = record {
  k = is.k;
  m = is.m;
  count = is.count;
  bound = is.bound;
  said = is.said;
  queued = is.queued;
  over = is.over;
  woken = λ asleep quiet. absurd cc;
}

prepare-IsInOrder : (s g : State) → IsInOrder s → prepare s ≡ some g → IsInOrder g
unfolding prepare
prepare-IsInOrder s g is e = elim (Bool-cases s.notifies) [
  | inl loud ↦
      subst IsInOrder (some-injective (rw (prepare, loud) at e)) (awake-IsInOrder s false is)
  | inr quiet ↦ elim (Bool-cases (leb s.i last_number)) [
    | inr done ↦ absurd (none≢some (rw (prepare, quiet, done) at e))
    | inl more ↦
        let same : record s { i = s.i + 1; data_queue = s.data_queue ++ s.i ∷ []; notifies = true }
            ≡ g =
          some-injective (rw (prepare, quiet, more) at e) in
        subst IsInOrder same (record {
          k = is.k;
          m = suc is.m;
          count = omega (arith, is.count);
          bound = ground arith;
          said = is.said;
          queued =
              ap (λ l. l ++ s.i ∷ []) is.queued
              ∙ ap (λ j. numbers is.k is.m ++ j ∷ []) is.count
              ∙ numbers-next is.k is.m;
          over = is.over;
          woken = λ asleep silent. absurd cc;
        })
  ]
]

process-look : (s : State) → s.ended ≡ false → s.sleeps ≡ false → process s ≡ look s.data_queue s
unfolding process
process-look s on up = rw (process, on, up) refl

-- A number is taken out only if there is one.
pub process-taken :
    (s : State) (k m : ℕ)
    → s.ended ≡ false
    → s.sleeps ≡ false
    → s.data_queue ≡ numbers k (suc m)
    → process s
      ≡ some (record s {
        data_queue = numbers (suc k) m;
        printed = s.printed ++ k ∷ [];
        ended = k == last_number;
      })
unfolding numbers
process-taken s k m on up q = process-look s on up ∙ ap (λ l. look l s) q

process-waits :
    (s : State) (k : ℕ)
    → s.ended ≡ false
    → s.sleeps ≡ false
    → s.data_queue ≡ numbers k 0
    → process s ≡ some (record s { sleeps = true })
unfolding numbers
process-waits s k on up q = process-look s on up ∙ ap (λ l. look l s) q

process-sleeps : (s : State) → s.ended ≡ false → s.sleeps ≡ true → process s ≡ none
unfolding process
process-sleeps s on down = rw (process, on, down) refl

process-ended : (s : State) → s.ended ≡ true → process s ≡ none
unfolding process
process-ended s off = rw (process, off) refl

is_last : (k : ℕ) → (k == last_number) ≡ (suc k == suc last_number)
is_last k = elim (Bool-cases (k == last_number)) [
  | inl e ↦ e ∙ sym (same k e)
  | inr e ↦ e ∙ sym (differs k e)
]
  where
    same : (k : ℕ) → (k == last_number) ≡ true → (suc k == suc last_number) ≡ true
    same k e = ground arith

    differs : (k : ℕ) → (k == last_number) ≡ false → (suc k == suc last_number) ≡ false
    differs k e = ground arith

module _ (s : State) (is : IsInOrder s) (on : s.ended ≡ false) (up : s.sleeps ≡ false) where
  sleep-IsInOrder : is.m ≡ 0 → IsInOrder (record s { sleeps = true })
  sleep-IsInOrder none_left = record {
    k = is.k;
    m = is.m;
    count = is.count;
    bound = is.bound;
    said = is.said;
    queued = is.queued;
    over = is.over;
    woken = λ asleep quiet. none_left;
  }

  awake_process-IsInOrder : (m : ℕ) (g : State) → is.m ≡ m → process s ≡ some g → IsInOrder g
  awake_process-IsInOrder zero g none_left e =
      let empty : s.data_queue ≡ numbers is.k 0 = is.queued ∙ ap (numbers is.k) none_left in
      subst IsInOrder (some-injective (sym (process-waits s is.k on up empty) ∙ e))
        (sleep-IsInOrder none_left)
  awake_process-IsInOrder (suc m) g more e =
      let queued : s.data_queue ≡ numbers is.k (suc m) = is.queued ∙ ap (numbers is.k) more in
      subst IsInOrder (some-injective (sym (process-taken s is.k m on up queued) ∙ e)) (record {
        k = suc is.k;
        m = m;
        count = omega (arith, is.count, more);
        bound = is.bound;
        said =
            ap (λ l. l ++ is.k ∷ []) is.said
            ∙ ap (λ j. numbers 0 is.k ++ j ∷ []) (omega arith)
            ∙ numbers-next 0 is.k;
        queued = refl;
        over = is_last is.k;
        woken = λ asleep quiet. absurd (differ (sym asleep ∙ up));
      })
    where
      differ : true ≡ false → ⊥
      differ e = cc

process-IsInOrder : (s g : State) → IsInOrder s → process s ≡ some g → IsInOrder g
process-IsInOrder s g is e = elim (Bool-cases s.ended) [
  | inl off ↦ absurd (none≢some (sym (process-ended s off) ∙ e))
  | inr on ↦ elim (Bool-cases s.sleeps) [
    | inl down ↦ absurd (none≢some (sym (process-sleeps s on down) ∙ e))
    | inr up ↦ awake_process-IsInOrder s is on up is.m g refl e
  ]
]

pub Reach-IsInOrder : (s : State) → Reach s → IsInOrder s
unfolding numbers
Reach-IsInOrder s start = record {
  k = 0;
  m = 0;
  count = refl;
  bound = omega arith;
  said = refl;
  queued = refl;
  over = refl;
  woken = λ asleep quiet. refl;
}
Reach-IsInOrder s (later {s = r} p (prepares e)) = prepare-IsInOrder r s (Reach-IsInOrder r p) e
Reach-IsInOrder s (later {s = r} p (processes e)) = process-IsInOrder r s (Reach-IsInOrder r p) e
Reach-IsInOrder s (later {s = r} p wakes_up) = awake-IsInOrder r r.notifies (Reach-IsInOrder r p)
