-- ===== src/Singleton/Progress.antt =====
-- The threads do not get stuck.
use notes_coding.Base.{ℕ, ◌≡◌, ◌⊎◌, inl, inr, refl, ap, Option, none, some, Option-cases}
use notes_coding.Singleton.{
  Version, Place, at_first, at_lock, at_second, at_new, at_return, at_store, returned, State, go,
  if_none, advance, Reach,
}
use notes_coding.Singleton.Invariant.{Fits, IsOnce, Guarded}
use notes_coding.Singleton.Once.{Reach-IsOnce}

-- A thread with a next step.
abbrev pub Moves : Version → State → ℕ → Type 0
Moves v s i = (g : State) × (advance v i (s.place i) s ≡ some g)

null-Moves : (a b : State) (o : Option ℕ) → (g : State) × (if_none o (some a) (some b) ≡ some g)
null-Moves a b none = (a, refl)
null-Moves a b (some n) = (b, refl)

owner-Moves :
    (v : Version) (j : ℕ) (p : Place) (s : State)
    → Fits s.owner s.m_instance s.made j p
    → s.owner ≡ some j
    → (g : State) × (advance v j p s ≡ some g)
unfolding advance
owner-Moves v j at_first s f own = absurd (f own)
owner-Moves v j at_lock s f own = absurd (f own)
owner-Moves v j at_second s f own = null-Moves _ _ s.m_instance
owner-Moves v j at_new s f own = (_, refl)
owner-Moves v j (at_store n) s f own = (_, refl)
owner-Moves v j at_return s f own = (_, refl)
owner-Moves v j (returned r) s (f, e, q) own = absurd (f own)

-- A thread is at its end, has a next step, or waits for the mutex.
each-Moves :
    (v : Version) (i : ℕ) (p : Place) (s : State)
    → ((r : Option ℕ) × (p ≡ returned r))
      ⊎ (((g : State) × (advance v i p s ≡ some g)) ⊎ ((j : ℕ) × (s.owner ≡ some j)))
unfolding advance
each-Moves v i at_first s = inr (inl (null-Moves _ _ s.m_instance))
each-Moves v i at_lock s = elim (Option-cases s.owner) [
  | inl free ↦
      inr (
        inl
          (_, ap (λ o. if_none o (some (record (go i at_second s) { owner = some i })) none) free))
  | inr taken ↦ inr (inr taken)
]
each-Moves v i at_second s = inr (inl (null-Moves _ _ s.m_instance))
each-Moves v i at_new s = inr (inl (_, refl))
each-Moves v i (at_store n) s = inr (inl (_, refl))
each-Moves v i at_return s = inr (inl (_, refl))
each-Moves v i (returned r) s = inl (r, refl)

-- The threads do not get stuck with the mutex: in every run, a thread that has not returned can go on,
-- or another one can.
pub Reach-Moves :
    {v : Version} {s : State} (i : ℕ)
    → Guarded v
    → Reach v s
    → ((r : Option ℕ) × (s.place i ≡ returned r)) ⊎ ((j : ℕ) × Moves v s j)
Reach-Moves {v} {s} i gv r =
    let is : IsOnce s = Reach-IsOnce gv r in
    elim (each-Moves v i (s.place i) s) [
      | inl done ↦ inl done
      | inr (inl here) ↦ inr (i, here)
      | inr (inr (j, own)) ↦ inr (j, owner-Moves v j (s.place j) s (is.fits j) own)
    ]
