-- ===== src/Observers/Removal.antt =====
-- How often an observer is called, and what a removal takes away.
use notes_coding.Base.{
  ℕ, zero, suc, ◌+◌, ◌-◌, ◌*◌, ◌≡◌, ◌≢◌, inl, inr, refl, ◌∙◌, ap, arith, false, List, [], ◌∷◌, ◌++◌,
  ◌==◌, if◌then◌else◌, Bool-cases,
}
use notes_coding.Observers.{
  Weather, remove_first, remove_each, remove_observer, Splitter, call_all, on_progress, split_from,
  split, remove_progress,
}

-- How often an observer is registered.
abbrev pub count : ℕ → List ℕ → ℕ
count o [] = 0
count o (x ∷ xs) = let rest : ℕ = count o xs in if x == o then suc rest else rest

remove_first-count : (o : ℕ) (xs : List ℕ) → count o (remove_first o xs) ≡ count o xs - 1
unfolding remove_first
remove_first-count o [] = refl
remove_first-count o (x ∷ xs) = elim (Bool-cases (x == o)) [
  | inl here ↦ rw here (omega arith)
  | inr other ↦ rw (other, other) (remove_first-count o xs)
]

remove_first-other : (o q : ℕ) (xs : List ℕ) → o ≢ q → count q (remove_first o xs) ≡ count q xs
unfolding remove_first
remove_first-other o q [] ne = refl
remove_first-other o q (x ∷ xs) ne = elim (Bool-cases (x == o)) [
  | inl here ↦ let apart : (x == q) ≡ false = ground (arith, ne) in rw (here, apart) refl
  | inr other ↦ elim (Bool-cases (x == q)) [
    | inl at ↦ rw (other, at) (ap suc (remove_first-other o q xs ne))
    | inr off ↦ rw (other, off) (remove_first-other o q xs ne)
  ]
]

remove_each-count : (o : ℕ) (xs : List ℕ) → count o (remove_each o xs) ≡ 0
unfolding remove_each
remove_each-count o [] = refl
remove_each-count o (x ∷ xs) = elim (Bool-cases (x == o)) [
  | inl here ↦ rw here (remove_each-count o xs)
  | inr other ↦ rw (other, other) (remove_each-count o xs)
]

remove_each-other : (o q : ℕ) (xs : List ℕ) → o ≢ q → count q (remove_each o xs) ≡ count q xs
unfolding remove_each
remove_each-other o q [] ne = refl
remove_each-other o q (x ∷ xs) ne = elim (Bool-cases (x == o)) [
  | inl here ↦
      let apart : (x == q) ≡ false = ground (arith, ne) in
      rw (here, apart) (remove_each-other o q xs ne)
  | inr other ↦ elim (Bool-cases (x == q)) [
    | inl at ↦ rw (other, at) (ap suc (remove_each-other o q xs ne))
    | inr off ↦ rw (other, off) (remove_each-other o q xs ne)
  ]
]

module _ {F : Type 0} where
  -- The registrations that a removal of `o` leaves in both programs.
  pub record Removed (o : ℕ) (w : Weather F) (s : Splitter F) : Type 0 where
    pub one : count o (remove_observer o w).observers ≡ count o w.observers - 1
    pub each : count o (remove_progress o s).progress_list ≡ 0
    pub others : (q : ℕ) → o ≢ q → count q (remove_observer o w).observers ≡ count q w.observers
    pub others_too :
        (q : ℕ) → o ≢ q → count q (remove_progress o s).progress_list ≡ count q s.progress_list

  -- A removal of an observer takes away one of its registrations with the weather, but every one with
  -- the splitter, and none of another observer.
  pub remove_observer-Removed : (o : ℕ) (w : Weather F) (s : Splitter F) → Removed o w s
  unfolding remove_observer remove_progress
  remove_observer-Removed o w s = record {
    one = remove_first-count o w.observers;
    each = remove_each-count o s.progress_list;
    others = λ q ne. remove_first-other o q w.observers ne;
    others_too = λ q ne. remove_each-other o q s.progress_list ne;
  }

  -- How often an observer was called.
  abbrev pub calls_of : ℕ → List (ℕ × F) → ℕ
  calls_of o [] = 0
  calls_of o ((x, value) ∷ cs) = let rest : ℕ = calls_of o cs in if x == o then suc rest else rest

  calls_of-append :
      (o : ℕ) (cs ds : List (ℕ × F)) → calls_of o (cs ++ ds) ≡ calls_of o cs + calls_of o ds
  calls_of-append o [] ds = omega arith
  calls_of-append o ((x, value) ∷ cs) ds = elim (Bool-cases (x == o)) [
    | inl here ↦ rw here (omega (arith, calls_of-append o cs ds))
    | inr off ↦ rw off (calls_of-append o cs ds)
  ]

module _ {F : Type 0} (ratio : ℕ → ℕ → F) where
  call_all-count :
      (o : ℕ) (os : List ℕ) (value : F) (s : Splitter F)
      → calls_of o (call_all ratio os value s).calls ≡ calls_of o s.calls + count o os
  unfolding call_all
  call_all-count o [] value s = omega arith
  call_all-count o (x ∷ os) value s =
      let one : Splitter F = record s { calls = s.calls ++ (x, value) ∷ [] } in
      let rest : calls_of o (call_all ratio os value one).calls
          ≡ calls_of o one.calls + count o os =
        call_all-count o os value one in
      let more : calls_of o one.calls ≡ calls_of o s.calls + calls_of o ((x, value) ∷ []) =
        calls_of-append o s.calls ((x, value) ∷ []) in
      rest ∙ ap (λ k. k + count o os) more ∙ added (calls_of o s.calls)
    where
      added : (k : ℕ) → k + calls_of o ((x, value) ∷ []) + count o os ≡ k + count o (x ∷ os)
      added k = elim (Bool-cases (x == o)) [
        | inl here ↦ rw here (omega arith)
        | inr off ↦ rw off (omega arith)
      ]

  call_all-list :
      (os : List ℕ) (value : F) (s : Splitter F)
      → (call_all ratio os value s).progress_list ≡ s.progress_list
  unfolding call_all
  call_all-list [] value s = refl
  call_all-list (x ∷ os) value s = call_all-list os value _

  split_from-count :
      (o n i : ℕ) (s : Splitter F)
      → calls_of o (split_from ratio n i s).calls ≡ calls_of o s.calls + n * count o s.progress_list
  unfolding split_from on_progress
  split_from-count o zero i s = omega arith
  split_from-count o (suc n) i s =
      let value : F = ratio (i + 1) s.file_number in
      let one : Splitter F = on_progress ratio value s in
      let rest : calls_of o (split_from ratio n (i + 1) one).calls
          ≡ calls_of o one.calls + n * count o one.progress_list =
        split_from-count o n (i + 1) one in
      let same : one.progress_list ≡ s.progress_list = call_all-list s.progress_list value s in
      let now : calls_of o one.calls ≡ calls_of o s.calls + count o s.progress_list =
        call_all-count o s.progress_list value s in
      rest
      ∙ ap (λ l. calls_of o one.calls + n * count o l) same
      ∙ ap (λ k. k + n * count o s.progress_list) now
      ∙ grind arith

  -- A split into `file_number` files calls every observer so many times for each time that it is
  -- registered.
  pub split-count :
      (o : ℕ) (s : Splitter F)
      → calls_of o (split ratio s).calls
        ≡ calls_of o s.calls + s.file_number * count o s.progress_list
  unfolding split
  split-count o s = split_from-count o s.file_number 0 s
