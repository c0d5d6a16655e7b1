-- ===== src/IdleServer/Calls.antt =====
-- The callbacks that a tick has called.
use notes_coding.Base.{
  ℕ, ◌≡◌, ◌≢◌, inl, inr, refl, ap, sym, ◌∙◌, false, true, List, [], ◌∷◌, map, arith, All, ◌==◌,
  Bool-cases, update_other,
}
use notes_coding.Memory.Chain.{has}
use notes_coding.TimerList.Spec.{Cell}
use notes_coding.TimerList.Tick.{call}
use notes_coding.IdleServer.{Server, cb_func, run_calls}
use notes_coding.IdleServer.Found.{Found}
use notes_coding.IdleServer.Serving.{Owned}

-- The callbacks of `ran` close the descriptors of these timers and no others.
pub run_calls-users : (calls : List (ℕ × ℕ)) (s : Server) → (run_calls calls s).users ≡ s.users
unfolding run_calls cb_func
run_calls-users [] s = refl
run_calls-users ((f, fd) ∷ calls) s = run_calls-users calls (cb_func fd s)

pub run_calls-timers : (calls : List (ℕ × ℕ)) (s : Server) → (run_calls calls s).timers ≡ s.timers
unfolding run_calls cb_func
run_calls-timers [] s = refl
run_calls-timers ((f, fd) ∷ calls) s = run_calls-timers calls (cb_func fd s)

-- A descriptor that none of the timers belongs to stays as it is.
pub run_calls-apart :
    (ran : List Cell) (s : Server) (fd : ℕ)
    → All (λ x. (s.users x.1.user_data).sockfd ≡ x.1.user_data) ran
    → All (λ x. x.1.user_data ≢ fd) ran
    → (run_calls (map call ran) s).open_fds fd ≡ s.open_fds fd
unfolding run_calls cb_func
run_calls-apart [] s fd a b = refl
run_calls-apart (x ∷ ran) s fd (e, a) (ne, b) =
    run_calls-apart ran (cb_func x.1.user_data s) fd a b
    ∙ update_other s.open_fds (s.users x.1.user_data).sockfd fd false (λ f. ne (sym e ∙ f))

-- What is closed stays closed.
pub run_calls-shut :
    (calls : List (ℕ × ℕ)) (s : Server) (fd : ℕ)
    → s.open_fds fd ≡ false
    → (run_calls calls s).open_fds fd ≡ false
unfolding run_calls cb_func
run_calls-shut [] s fd shut = shut
run_calls-shut ((f, d) ∷ calls) s fd shut =
    run_calls-shut calls (cb_func d s) fd (elim (Bool-cases (fd == (s.users d).sockfd)) [
      | inl here ↦ rw here refl
      | inr there ↦ rw there shut
    ])

-- The descriptor of each of the timers is closed.
pub run_calls-Found :
    (ran : List Cell) (s : Server) (p fd : ℕ)
    → All (λ x. (s.users x.1.user_data).sockfd ≡ x.1.user_data) ran
    → Found p fd ran
    → (run_calls (map call ran) s).open_fds fd ≡ false
unfolding run_calls cb_func
run_calls-Found [] s p fd a f = elim f [ ]
run_calls-Found (x ∷ ran) s p fd (e, a) (inl here) =
    let own : (fd == (s.users x.1.user_data).sockfd) ≡ true = ground (arith, e, here.1) in
    run_calls-shut (map call ran) (cb_func x.1.user_data s) fd (rw own refl)
run_calls-Found (x ∷ ran) s p fd (e, a) (inr there) =
    run_calls-Found ran (cb_func x.1.user_data s) p fd a there

-- Every timer of a list is found in it.
pub All-Found : (xs : List Cell) → All (λ x. Found x.0 x.1.user_data xs) xs
All-Found [] = tt
All-Found (x ∷ xs) = (inl (refl, refl), behind xs (All-Found xs))
  where
    behind :
        (ws : List Cell)
        → All (λ y. Found y.0 y.1.user_data xs) ws
        → All (λ y. Found y.0 y.1.user_data (x ∷ xs)) ws
    behind [] a = tt
    behind (y ∷ ws) a = (inr a.0, behind ws a.1)

-- A timer at another address is that of another descriptor.
pub Owned-apart :
    (s : Server) (ran : List Cell) (x : Cell)
    → All (Owned s) ran
    → Owned s x
    → has x.0 ran ≡ false
    → All (λ y. y.1.user_data ≢ x.1.user_data) ran
Owned-apart s [] x a o out = tt
Owned-apart s (y ∷ ran) x (b, a) o out = (
  λ e. absurd (ground (arith, sym o.points ∙ ap (λ n. (s.users n).timer) (sym e) ∙ b.points)),
  Owned-apart s ran x a o (ground arith),
)
