-- ===== src/HierarchicalMutex/Order.antt =====
-- The order in which a thread holds its mutexes.
use notes_coding.Base.{
  some-injective, none≢some, ℕ, ◌<◌, ◌≤◌, ◌≡◌, ◌≢◌, inl, inr, refl, subst, arith, Option, none,
  some, leb, ◌==◌, Bool-cases, update, update_same, update_other,
}
use notes_coding.HierarchicalMutex.{
  State, init, violates, update_hierarchy_value, lock, locked, unlock, try_lock, Step, ask, take,
  try_take, give_back, Reach, start, later,
}

module _ (hierarchy_value : ℕ → ℕ) where
  -- A thread is at the lowest level of what it holds, and each mutex that it holds remembers a level
  -- that is not above the next one; it waits only for a mutex below its level.
  pub record IsOrdered (s : State) : Type 0 where
    pub low : (i m : ℕ) → s.owner m ≡ some i → s.this_thread i ≤ hierarchy_value m
    pub apart :
        (i m n : ℕ)
        → s.owner m ≡ some i
        → s.owner n ≡ some i
        → m ≢ n
        → hierarchy_value m ≢ hierarchy_value n
    pub back :
        (i m n : ℕ)
        → s.owner m ≡ some i
        → s.owner n ≡ some i
        → hierarchy_value m < hierarchy_value n
        → s.previous m ≤ hierarchy_value n
    pub below : (i m : ℕ) → s.waiting i ≡ some m → hierarchy_value m < s.this_thread i

  init-IsOrdered : IsOrdered init
  init-IsOrdered = record {
    low = λ i m h. absurd (none≢some h);
    apart = λ i m n h k. absurd (none≢some h);
    back = λ i m n h k. absurd (none≢some h);
    below = λ i m h. absurd (none≢some h);
  }

  ask-IsOrdered :
      (i m : ℕ) (s t : State) → IsOrdered s → lock hierarchy_value i m s ≡ some t → IsOrdered t
  unfolding lock violates
  ask-IsOrdered i m s t o e = elim (Bool-cases (leb (s.this_thread i) (hierarchy_value m))) [
    | inl bad ↦ absurd (none≢some (rw (lock, bad) at e))
    | inr good ↦
        let same : record s { waiting = update s.waiting i (some m) } ≡ t =
          some-injective (rw (lock, good) at e) in
        subst IsOrdered same (record {
          low = o.low;
          apart = o.apart;
          back = o.back;
          below = λ j n h. ground (arith, h, o.below j n);
        })
  ]

  -- The thread `i` gets the free mutex `m`, and the threads wait as in `w`.
  abbrev owned : (i m : ℕ) → (ℕ → Option ℕ) → State → State
  owned i m w s = record {
    owner = update s.owner m (some i);
    previous = update s.previous m (s.this_thread i);
    this_thread = update s.this_thread i (hierarchy_value m);
    waiting = w;
  }

  owned-IsOrdered :
      (i m : ℕ) (w : ℕ → Option ℕ) (s : State)
      → IsOrdered s
      → s.owner m ≡ none
      → hierarchy_value m < s.this_thread i
      → w i ≡ none
      → ((j : ℕ) → i ≢ j → w j ≡ s.waiting j)
      → IsOrdered (owned i m w s)
  owned-IsOrdered i m w s o free under idle rest = record {
    low = λ j n h. ground (arith, h, o.low j n, o.low i n);
    apart = λ j n k h g ne. ground (arith, h, g, ne, o.apart j n k, o.low j n, o.low j k, under);
    back = λ j n k h g lt. ground (arith, h, g, lt, o.back j n k, o.low j n, o.low j k, under);
    below = λ j n h. ground (arith, h, rest j, idle, o.below j n);
  }

  take-IsOrdered :
      (i m : ℕ) (s : State)
      → IsOrdered s
      → s.waiting i ≡ some m
      → s.owner m ≡ none
      → IsOrdered (locked hierarchy_value i m s)
  unfolding locked update_hierarchy_value
  take-IsOrdered i m s o waits free =
      owned-IsOrdered i m (update s.waiting i none) s o free (o.below i m waits)
        (update_same s.waiting i none) (λ j ne. update_other s.waiting i j none ne)

  try_take-IsOrdered :
      (i m : ℕ) (s t : State)
      → IsOrdered s
      → s.waiting i ≡ none
      → s.owner m ≡ none
      → try_lock hierarchy_value i m s ≡ some t
      → IsOrdered t
  unfolding try_lock violates update_hierarchy_value
  try_take-IsOrdered i m s t o idle free e =
      elim (Bool-cases (leb (s.this_thread i) (hierarchy_value m))) [
        | inl bad ↦ absurd (none≢some (rw (try_lock, bad) at e))
        | inr good ↦
            let same : owned i m s.waiting s ≡ t = some-injective (rw (try_lock, good) at e) in
            subst IsOrdered same
              (owned-IsOrdered i m s.waiting s o free (ground arith) idle (λ j ne. refl))
      ]

  give_back-IsOrdered :
      (i m : ℕ) (s t : State)
      → IsOrdered s
      → s.waiting i ≡ none
      → s.owner m ≡ some i
      → unlock hierarchy_value i m s ≡ some t
      → IsOrdered t
  unfolding unlock
  give_back-IsOrdered i m s t o idle held e =
      elim (Bool-cases (s.this_thread i == hierarchy_value m)) [
        | inl top ↦
            let same : record s {
              this_thread = update s.this_thread i (s.previous m);
              owner = update s.owner m none;
            }
                ≡ t =
              some-injective (rw (unlock, top) at e) in
            subst IsOrdered same (record {
              low =
                  λ j n h. ground (arith, h, o.low j n, o.apart i m n held, o.back i m n held, top);
              apart = λ j n k h g ne. ground (arith, h, g, ne, o.apart j n k);
              back = λ j n k h g lt. ground (arith, h, g, lt, o.back j n k);
              below = λ j n h. ground (arith, h, o.below j n, idle);
            })
        | inr other ↦ absurd (none≢some (rw (unlock, other) at e))
      ]

  Step-IsOrdered : (s t : State) → IsOrdered s → Step hierarchy_value s t → IsOrdered t
  Step-IsOrdered s t o (ask i m idle e) = ask-IsOrdered i m s t o e
  Step-IsOrdered s t o (take i m waits free) = take-IsOrdered i m s o waits free
  Step-IsOrdered s t o (try_take i m idle free e) = try_take-IsOrdered i m s t o idle free e
  Step-IsOrdered s t o (give_back i m idle held e) = give_back-IsOrdered i m s t o idle held e

  -- In every state that the threads can reach, each of them holds its mutexes in descending order
  -- and waits only for a mutex below all that it holds.
  pub Reach-IsOrdered : (s : State) → Reach hierarchy_value s → IsOrdered s
  Reach-IsOrdered s start = init-IsOrdered
  Reach-IsOrdered t (later {s} r step) = Step-IsOrdered s t (Reach-IsOrdered s r) step
