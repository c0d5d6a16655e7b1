-- ===== src/Alternate/Turns.antt =====
-- The threads print in turns, and all of the string.
use notes_coding.Base.{
  ℕ, zero, suc, ◌+◌, ◌<◌, ◌≤◌, ◌≡◌, ◌≢◌, refl, sym, ◌∙◌, ap, subst, inl, inr, ◌⊎◌, arith, Bool,
  true, false, not, some, some-injective, none≢some, List, [], ◌∷◌, ◌++◌, ltb, if◌then◌else◌,
  length, take, get_elem?, Bool-cases,
}
use notes_coding.Alternate.{
  Thread, test01, test02, Place, at_loop, at_lock, at_end, State, moved, may_print, test_loop,
  with_lock, tests, locks, Reach, start, later,
}

abbrev other : Thread → Thread
other test01 = test02
other test02 = test01

-- The characters, printed in turns from thread `t` on.
unfoldable pub in_turns : Thread → List ℕ → List (Thread × ℕ)
in_turns t [] = []
in_turns t (c ∷ cs) = (t, c) ∷ in_turns (other t) cs

-- Whose turn it is after `n` characters.
pub turn : Thread → ℕ → Thread
turn t zero = t
turn t (suc n) = turn (other t) n

turn-other : (t : Thread) (n : ℕ) → turn (other t) n ≡ other (turn t n)
unfolding turn
turn-other t zero = refl
turn-other t (suc n) = turn-other (other t) n

-- The next character is printed by the thread whose turn it is.
in_turns-next :
    (t : Thread) (cs : List ℕ) (n c : ℕ)
    → get_elem? cs n ≡ some c
    → in_turns t (take (suc n) cs) ≡ in_turns t (take n cs) ++ (turn t n, c) ∷ []
unfolding in_turns turn
in_turns-next t [] n c e = absurd (none≢some e)
in_turns-next t (x ∷ cs) zero c e = ap (λ y. (t, y) ∷ []) (some-injective e)
in_turns-next t (x ∷ cs) (suc n) c e = ap (λ l. (t, x) ∷ l) (in_turns-next (other t) cs n c e)

take-length : (cs : List ℕ) → take (length cs) cs ≡ cs
take-length [] = refl
take-length (c ∷ cs) = ap (λ l. c ∷ l) (take-length cs)

within : (cs : List ℕ) (n : ℕ) → n < length cs → (c : ℕ) × (get_elem? cs n ≡ some c)
within [] n h = absurd (omega (arith, h))
within (c ∷ cs) zero h = (c, refl)
within (c ∷ cs) (suc n) h = within cs n (omega (arith, h))

-- The value of `flag` with which it is the thread's turn.
pub says : Thread → Bool
says test01 = true
says test02 = false

says-other : (t : Thread) → says (other t) ≡ not (says t)
unfolding says
says-other test01 = refl
says-other test02 = refl

-- The thread that may print is the one that `flag` says.
printer : (t u : Thread) → may_print t (says u) ≡ true → t ≡ u
unfolding says
printer test01 test01 h = refl
printer test01 test02 h = cc
printer test02 test01 h = cc
printer test02 test02 h = refl

loop≢end : at_loop ≢ at_end
loop≢end e = cc

lock≢end : at_lock ≢ at_end
lock≢end e = cc

module _ (str : List ℕ) where
  -- The first `idx` characters have been printed in turns, `flag` says whose turn it is, the mutex is
  -- never taken to read beyond the string, and a thread ends when all is printed.
  pub record IsTurns (s : State) : Type 0 where
    pub within_str : s.idx ≤ length str
    pub said : s.printed ≡ in_turns test01 (take s.idx str)
    pub next : s.flag ≡ says (turn test01 s.idx)
    pub over : (t : Thread) → s.place t ≡ at_end → s.idx ≡ length str

  moved_cases :
      (f : Thread → Place) (t : Thread) (p : Place) (u : Thread)
      → (moved f t p u ≡ p) ⊎ (moved f t p u ≡ f u)
  moved_cases f test01 p test01 = inl refl
  moved_cases f test01 p test02 = inr refl
  moved_cases f test02 p test01 = inr refl
  moved_cases f test02 p test02 = inl refl

  stopped : (idx : ℕ) → idx ≤ length str → ltb idx (length str) ≡ false → idx ≡ length str
  stopped idx h e = ground arith

  test-IsTurns : (t : Thread) (s : State) → IsTurns s → IsTurns (test_loop str t s)
  unfolding test_loop
  test-IsTurns t s is = record {
    within_str = is.within_str;
    said = is.said;
    next = is.next;
    over = λ u h. elim (Bool-cases (ltb s.idx (length str))) [
      | inr e ↦ stopped s.idx is.within_str e
      | inl e ↦
          elim (moved_cases s.place t (if ltb s.idx (length str) then at_lock else at_end) u) [
            | inl m ↦ absurd (lock≢end (rw e at (sym m ∙ h)))
            | inr m ↦ is.over u (sym m ∙ h)
          ]
    ];
  }

  -- A thread that prints nothing goes back to its loop.
  back-IsTurns :
      (t : Thread) (s : State) → IsTurns s → IsTurns (record s { place = moved s.place t at_loop })
  back-IsTurns t s is = record {
    within_str = is.within_str;
    said = is.said;
    next = is.next;
    over = λ u h. elim (moved_cases s.place t at_loop u) [
      | inl m ↦ absurd (loop≢end (sym m ∙ h))
      | inr m ↦ is.over u (sym m ∙ h)
    ];
  }

  print-IsTurns :
      (t : Thread) (s : State) (c : ℕ)
      → IsTurns s
      → may_print t s.flag ≡ true
      → ltb s.idx (length str) ≡ true
      → get_elem? str s.idx ≡ some c
      → IsTurns (record {
        flag = not s.flag;
        idx = s.idx + 1;
        printed = s.printed ++ (t, c) ∷ [];
        place = moved s.place t at_loop;
      })
  unfolding turn
  print-IsTurns t s c is may room at =
      let n : ℕ = s.idx in
      let step : n + 1 ≡ suc n = omega arith in
      let mine : t ≡ turn test01 n =
        printer t (turn test01 n) (subst (λ b. may_print t b ≡ true) is.next may) in
      record {
        within_str = ground arith;
        said =
            ap (λ l. l ++ (t, c) ∷ []) is.said
            ∙ ap (λ u. in_turns test01 (take n str) ++ (u, c) ∷ []) mine
            ∙ sym (in_turns-next test01 str n c at)
            ∙ ap (λ m. in_turns test01 (take m str)) (sym step);
        next =
            ap not is.next
            ∙ sym (says-other (turn test01 n))
            ∙ ap says (sym (turn-other test01 n))
            ∙ ap (λ m. says (turn test01 m)) (sym step);
        over = λ u h. elim (moved_cases s.place t at_loop u) [
          | inl m ↦ absurd (loop≢end (sym m ∙ h))
          | inr m ↦ absurd (not_full (is.over u (sym m ∙ h)) room)
        ];
      }
    where
      not_full : {a b : ℕ} → a ≡ b → ltb a b ≡ true → ⊥
      not_full e h = ground arith

  lock-IsTurns :
      (t : Thread) (s : State) → IsTurns s → (g : State) × (with_lock str t s ≡ some g) × IsTurns g
  unfolding with_lock
  lock-IsTurns t s is = elim (Bool-cases (may_print t s.flag)) [
    | inr other_turn ↦
        (record s { place = moved s.place t at_loop }, rw other_turn refl, back-IsTurns t s is)
    | inl may ↦ elim (Bool-cases (ltb s.idx (length str))) [
      | inr full ↦
          (record s { place = moved s.place t at_loop }, rw (may, full) refl, back-IsTurns t s is)
      | inl room ↦
          let (c, at) = within str s.idx (ground arith) in
          (
            record {
              flag = not s.flag;
              idx = s.idx + 1;
              printed = s.printed ++ (t, c) ∷ [];
              place = moved s.place t at_loop;
            },
            rw (may, room, at) refl,
            print-IsTurns t s c is may room at,
          )
    ]
  ]

  -- In every state that the threads can reach, the characters up to `idx` have been printed in turns,
  -- by the first thread first, `flag` says whose turn it is, and `idx` is within the string, at its end
  -- if a thread has ended.
  pub Reach-IsTurns : (s : State) → Reach str s → IsTurns s
  unfolding in_turns turn says
  Reach-IsTurns s start = record {
    within_str = omega arith;
    said = refl;
    next = refl;
    over = λ t h. absurd (loop≢end h);
  }
  Reach-IsTurns s (later {s = r} p (tests t at)) = test-IsTurns t r (Reach-IsTurns r p)
  Reach-IsTurns s (later {s = r} p (locks t at e)) =
      let (g, e', is) = lock-IsTurns t r (Reach-IsTurns r p) in
      subst IsTurns (some-injective (sym e' ∙ e)) is

  -- When a thread has ended, all of the string has been printed, its characters in order and in turns.
  pub ended-all :
      (s : State) (t : Thread) → Reach str s → s.place t ≡ at_end → s.printed ≡ in_turns test01 str
  ended-all s t r h =
      let is : IsTurns s = Reach-IsTurns s r in
      is.said
      ∙ ap (λ n. in_turns test01 (take n str)) (is.over t h)
      ∙ ap (in_turns test01) (take-length str)
