-- ===== src/UnifiedEvents/Stalls.antt =====
-- A pipe that `signals` does not hold whole.
use notes_coding.Base.{
  ℕ, ◌≡◌, refl, ◌∙◌, ap, Bool, true, false, List, [], ◌∷◌, ◌++◌, ltb, if◌then◌else◌, length, take,
  drop, replicate, ◌≤◌, ◌<◌, zero, suc, arith, subst,
}
use notes_coding.UnifiedEvents.{
  signals_size, Signal, sigchld, sigterm, signals, State, init, obey_all, read_signals, handle,
  sig_handler, interrupt, waits, next, Reach, start, later,
}

-- The loop waits with nothing reported, a SIGTERM is in the pipe, and it is not to stop.
pub record Stalled (s : State) : Type 0 where
  pub unread : s.pipe ≡ sigterm ∷ []
  pub quiet : s.edge ≡ false
  pub idle : s.events ≡ []
  pub on : s.stop_server ≡ false

replicate-snoc : (n : ℕ) (a : Signal) → replicate n a ++ a ∷ [] ≡ replicate (suc n) a
replicate-snoc zero a = refl
replicate-snoc (suc n) a = ap (λ l. a ∷ l) (replicate-snoc n a)

drop-replicate : (n : ℕ) (a : Signal) (ys : List Signal) → drop n (replicate n a ++ ys) ≡ ys
drop-replicate zero a ys = refl
drop-replicate (suc n) a ys = drop-replicate n a ys

obey_all-replicate :
    (n : ℕ) (ys : List Signal) (b : Bool) → obey_all (take n (replicate n sigchld ++ ys)) b ≡ b
obey_all-replicate zero ys b = refl
obey_all-replicate (suc n) ys b = obey_all-replicate n ys b

length-replicate : (n : ℕ) (a : Signal) → length (replicate n a) ≡ n
length-replicate zero a = refl
length-replicate (suc n) a = ap suc (length-replicate n a)

module _ (room again errno : ℕ) where
  -- The pipe has room for one more.
  written :
      (sig : Signal) (s : State)
      → length s.pipe < room
      → sig_handler room again sig s
        ≡ record s { pipe = s.pipe ++ sig ∷ []; edge = true; written = s.written ++ sig ∷ [] }
  unfolding sig_handler
  written sig s h =
      let e : ltb (length s.pipe) room ≡ true = ground (arith, h) in
      ap
        (λ b.
          record (if b
            then record s {
              pipe = s.pipe ++ sig ∷ [];
              edge = true;
              written = s.written ++ sig ∷ [];
            }
            else record s { errno = again }) { errno = s.errno })
        e

  -- `n` children have ended, and nothing was read.
  record Flooded (n : ℕ) (s : State) : Type 0 where
    run : Reach room again errno s
    full : s.pipe ≡ replicate n sigchld
    idle : s.events ≡ []
    on : s.stop_server ≡ false

  flood : (n : ℕ) → n ≤ room → (s : State) × Flooded n s
  flood zero h = (init errno, record { run = start; full = refl; idle = refl; on = refl })
  flood (suc n) h =
      let (s, f) = flood n (omega (arith, h)) in
      let free : length s.pipe < room =
        omega (arith, h, ap length f.full, length-replicate n sigchld) in
      (
        record s {
          pipe = s.pipe ++ sigchld ∷ [];
          edge = true;
          written = s.written ++ sigchld ∷ [];
        },
        record {
          run =
              subst (Reach room again errno) (written sigchld s free)
                (later f.run (interrupt sigchld));
          full = ap (λ l. l ++ sigchld ∷ []) f.full ∙ replicate-snoc n sigchld;
          idle = f.idle;
          on = f.on;
        },
      )

  -- With a larger pipe, 1024 signals and a SIGTERM after them can leave the loop waiting with the
  -- SIGTERM unread, though nothing more will be reported of it: an event reads `signals` once only.
  pub flood-Stalled : signals_size < room → (s : State) × (Reach room again errno s × Stalled s)
  unfolding handle read_signals
  flood-Stalled h =
      let (s, f) = flood signals_size (omega (arith, h)) in
      let free : length s.pipe < room =
        omega (arith, h, ap length f.full, length-replicate signals_size sigchld) in
      let t : State = record s {
        pipe = s.pipe ++ sigterm ∷ [];
        edge = true;
        written = s.written ++ sigterm ∷ [];
      } in
      let u : State = record t { edge = false; events = signals ∷ [] } in
      let run : Reach room again errno u =
        later
          (subst (Reach room again errno) (written sigterm s free)
            (later f.run (interrupt sigterm)))
          (waits [] [] f.on f.idle) in
      let all : t.pipe ≡ replicate signals_size sigchld ++ sigterm ∷ [] =
        ap (λ l. l ++ sigterm ∷ []) f.full in
      (
        handle signals (record u { events = [] }),
        (
          later run (next signals [] refl),
          record {
            unread =
                ap (drop signals_size) all ∙ drop-replicate signals_size sigchld (sigterm ∷ []);
            quiet = refl;
            idle = refl;
            on =
                ap (λ l. obey_all (take signals_size l) s.stop_server) all
                ∙ obey_all-replicate signals_size (sigterm ∷ []) s.stop_server
                ∙ f.on;
          },
        ),
      )
