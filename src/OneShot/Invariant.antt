-- ===== src/OneShot/Invariant.antt =====
-- Who serves a socket, and whether it is watched.
use notes_coding.Base.{ℕ, ◌≡◌, ◌≢◌, sym, ◌∙◌, ap, Bool, true, false, some}
use notes_coding.OneShot.{State}

-- A socket that is served or about to be is open and not watched, and has one thread.
pub record IsExclusive (s : State) : Type 0 where
  pub opened : (fd : ℕ) → s.armed fd ≡ true → s.open_fds fd ≡ true
  pub flagged : (fd : ℕ) → s.open_fds fd ≡ true → s.oneshot fd ≡ true
  pub busy : (i fd : ℕ) → s.serving i ≡ some fd → (s.armed fd ≡ false) × (s.open_fds fd ≡ true)
  pub alone : (i j fd : ℕ) → s.serving i ≡ some fd → s.serving j ≡ some fd → i ≡ j
  pub next :
      (i : ℕ)
      → s.starting i ≡ true
      → (s.armed s.sockfd ≡ false)
        × (s.open_fds s.sockfd ≡ true)
        × ((j : ℕ) → s.serving j ≢ some s.sockfd)
  pub single : (i j : ℕ) → s.starting i ≡ true → s.starting j ≡ true → i ≡ j

-- What differs somewhere is apart.
pub apart_by : (f : ℕ → Bool) (a b : ℕ) → f a ≡ true → f b ≡ false → b ≢ a
apart_by f a b h k e = cc (sym h ∙ ap f (sym e) ∙ k)

pub not_both : {b : Bool} → b ≡ true → b ≡ false → ⊥
not_both h k = cc
