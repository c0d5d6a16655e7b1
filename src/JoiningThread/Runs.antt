-- ===== src/JoiningThread/Runs.antt =====
-- Programs that use the objects.
use notes_coding.Base.{
  ℕ, ◌≡◌, ◌≢◌, inl, inr, refl, sym, ◌∙◌, ap, subst, arith, Option, none, some, List, [], ◌∷◌, ◌==◌,
  Bool-cases, update, update_same, update_other,
}
use notes_coding.JoiningThread.{
  State, join_at, detach_at, destroy_at, assign_at, keep_scoped, move_to, and_then, join_if, assign,
  destroy, start, move_construct, join, detach, swap, scoped_thread, destroy_scoped, Op, starts,
  joins, detaches, ends, scope_ends, moves, assigns, swaps, scopes, apply, apply_all,
}
use notes_coding.JoiningThread.Owned.{
  IsOwned, swapped, start-IsOwned, exchange-IsOwned, join-IsOwned, detach-IsOwned,
}

-- An object with a thread.
abbrev pub Joinable : ℕ → State → Type 0
Joinable x s = (k : ℕ) × (s.t x ≡ some k)

-- An object is made only where none with a thread is; `join`, `detach` and a scoped thread want a
-- thread. Nothing is asked of destructors, assignments and swaps.
abbrev pub Fits : Op → State → Type 0
Fits (starts x) s = s.t x ≡ none
Fits (joins x) s = Joinable x s
Fits (detaches x) s = Joinable x s
Fits (ends x) s = Unit
Fits (scope_ends x) s = Joinable x s
Fits (moves x y) s = s.t x ≡ none
Fits (assigns x y) s = Unit
Fits (swaps x y) s = Unit
Fits (scopes x y) s = (s.t x ≡ none) × (x ≢ y) × Joinable y s

abbrev pub Ends : Option State → Type 0
Ends o = (g : State) × (o ≡ some g) × IsOwned g

-- The program `os` can be run from `s`.
abbrev pub AllFit : List Op → Option State → Type 0
AllFit [] s = Unit
AllFit (o ∷ os) none = Unit
AllFit (o ∷ os) (some s) = Fits o s × AllFit os (apply o s)

-- A move to an object without a thread exchanges the two.
move-swapped :
    (t : ℕ → Option ℕ) (x y z : ℕ)
    → t x ≡ none
    → update (update t x (t y)) y none z ≡ t (swapped x y z)
move-swapped t x y z dead = elim (Bool-cases (z == y)) [
  | inl e ↦ elim (Bool-cases (z == x)) [
    | inl f ↦ let same : x ≡ y = ground arith in rw (e, f) (sym dead ∙ ap t same)
    | inr f ↦ rw (e, f) (sym dead)
  ]
  | inr e ↦ elim (Bool-cases (z == x)) [ inl f ↦ rw (e, f) refl | inr f ↦ rw (e, f) refl ]
]

swap-swapped :
    (t : ℕ → Option ℕ) (x y z : ℕ) → update (update t x (t y)) y (t x) z ≡ t (swapped x y z)
swap-swapped t x y z = elim (Bool-cases (z == y)) [
  | inl e ↦ elim (Bool-cases (z == x)) [
    | inl f ↦ let same : x ≡ y = ground arith in rw (e, f) (ap t same)
    | inr f ↦ rw (e, f) refl
  ]
  | inr e ↦ elim (Bool-cases (z == x)) [ inl f ↦ rw (e, f) refl | inr f ↦ rw (e, f) refl ]
]

move-IsOwned : (x y : ℕ) (s : State) → IsOwned s → s.t x ≡ none → IsOwned (move_to x y s)
move-IsOwned x y s is dead =
    exchange-IsOwned s is x y (update (update s.t x (s.t y)) y none)
      (λ z. move-swapped s.t x y z dead)

join_if-Ends :
    (x : ℕ) (o : Option ℕ) (s : State)
    → IsOwned s
    → s.t x ≡ o
    → (g : State) × (join_if x o s ≡ some g) × IsOwned g × (g.t x ≡ none)
unfolding join_if
join_if-Ends x none s is e = (s, refl, is, e)
join_if-Ends x (some k) s is e = (_, refl, join-IsOwned s is x k e, update_same s.t x none)

join_at-Ends :
    (x : ℕ) (s : State)
    → IsOwned s
    → Joinable x s
    → (g : State) × (join_at x (s.t x) s ≡ some g) × IsOwned g × (g.t x ≡ none)
join_at-Ends x s is (k, e) =
    (_, ap (λ o. join_at x o s) e, join-IsOwned s is x k e, update_same s.t x none)

apply-Ends : (o : Op) (s : State) → IsOwned s → Fits o s → Ends (apply o s)
unfolding apply start join detach destroy destroy_scoped move_construct assign swap scoped_thread
apply-Ends (starts x) s is dead = (_, refl, start-IsOwned x s is dead)
apply-Ends (joins x) s is f = let (g, e, is', gone) = join_at-Ends x s is f in (g, e, is')
apply-Ends (detaches x) s is (k, e) = (_, ap (λ o. detach_at x o s) e, detach-IsOwned s is x k e)
apply-Ends (ends x) s is f =
    let (g, e, is', gone) = join_if-Ends x (s.t x) s is refl in
    (g, ap (λ o. and_then o (λ h. destroy_at x (h.t x) h)) e ∙ ap (λ o. destroy_at x o g) gone, is')
apply-Ends (scope_ends x) s is f =
    let (g, e, is', gone) = join_at-Ends x s is f in
    (g, ap (λ o. and_then o (λ h. destroy_at x (h.t x) h)) e ∙ ap (λ o. destroy_at x o g) gone, is')
apply-Ends (moves x y) s is dead = (_, refl, move-IsOwned x y s is dead)
apply-Ends (assigns x y) s is f =
    let (g, e, is', gone) = join_if-Ends x (s.t x) s is refl in
    (
      move_to x y g,
      ap (λ o. and_then o (λ h. assign_at x y (h.t x) h)) e ∙ ap (λ o. assign_at x y o g) gone,
      move-IsOwned x y g is' gone,
    )
apply-Ends (swaps x y) s is f = (
  _,
  refl,
  exchange-IsOwned s is x y (update (update s.t x (s.t y)) y (s.t x)) (swap-swapped s.t x y),
)
apply-Ends (scopes x y) s is (dead, off, (k, e)) =
    let there : (move_to x y s).t x ≡ some k =
      update_other (update s.t x (s.t y)) y x none (λ q. off (sym q))
      ∙ update_same s.t x (s.t y)
      ∙ e in
    (move_to x y s, ap (λ o. keep_scoped o (move_to x y s)) there, move-IsOwned x y s is dead)

-- Every program that makes objects only where none with a thread is, and calls `join`, `detach` and a
-- scoped thread only with a thread, whatever it assigns, swaps and destroys, ends without
-- `std::terminate` or an exception, and then every thread that was started has its fate: it is owned
-- by one object, or was waited for just once, or was let go.
pub apply_all-IsOwned :
    (os : List Op) (s : State) → IsOwned s → AllFit os (some s) → Ends (apply_all os s)
unfolding apply_all
apply_all-IsOwned [] s is f = (s, refl, is)
apply_all-IsOwned (o ∷ os) s is (f, fs) =
    let (g, e, is') = apply-Ends o s is f in
    let (h, e', is'') = apply_all-IsOwned os g is' (subst (AllFit os) e fs) in
    (h, ap (λ p. and_then p (λ q. apply_all os q)) e ∙ e', is'')
