-- ===== src/FrameSync/Work.antt =====
-- What the work on the queues does.
use notes_coding.Base.{
  ℕ, zero, suc, ◌+◌, ◌≡◌, ◌≢◌, inl, inr, refl, sym, ◌∙◌, ap, arith, true, false, ◌||◌, List, [],
  ◌∷◌, ◌++◌, ◌==◌, Bool-cases, update, update_same, has,
}
use mathlib.Core.List.{append_assoc, append-nil}
use notes_coding.FrameSync.{
  Line, processing, updating, broadcasting, Server, work_off, print, work_all,
}

-- The frames that were broadcast.
abbrev pub broadcasts : List Line → List ℕ
broadcasts [] = []
broadcasts (processing player f ∷ ls) = broadcasts ls
broadcasts (updating f ∷ ls) = broadcasts ls
broadcasts (broadcasting f ∷ ls) = f ∷ broadcasts ls

-- The numbers below `n`, in order.
abbrev pub below : ℕ → List ℕ
below zero = []
below (suc n) = below n ++ n ∷ []

pub broadcasts-append : (xs ys : List Line) → broadcasts (xs ++ ys) ≡ broadcasts xs ++ broadcasts ys
broadcasts-append [] ys = refl
broadcasts-append (processing player f ∷ xs) ys = broadcasts-append xs ys
broadcasts-append (updating f ∷ xs) ys = broadcasts-append xs ys
broadcasts-append (broadcasting f ∷ xs) ys = ap (λ l. f ∷ l) (broadcasts-append xs ys)

pub below-next : (n : ℕ) → below (n + 1) ≡ below n ++ n ∷ []
below-next n = let e : n + 1 ≡ suc n = omega arith in ap below e

pub false≢true : false ≢ true
false≢true e = cc

module _ {A : Type 0} where
  cons≢nil : (x : A) (xs : List A) → x ∷ xs ≢ []
  cons≢nil x xs q = cc

  -- The work on a player's queue, when it is `inputs`.
  pub record WorkedOff (s g : Server A) (player : ℕ) : Type 0 where
    pub order : (p : ℕ) → g.processed p ++ g.input_queue p ≡ s.processed p ++ s.input_queue p
    pub empty : g.input_queue player ≡ []
    pub others : (p : ℕ) → s.input_queue p ≡ [] → g.input_queue p ≡ []
    pub received : g.received ≡ s.received
    pub players : g.players ≡ s.players
    pub current_frame : g.current_frame ≡ s.current_frame
    pub lines : g.lines ≡ s.lines

  work_off-WorkedOff :
      (player : ℕ) (inputs : List A) (s : Server A)
      → s.input_queue player ≡ inputs
      → WorkedOff s (work_off player inputs s) player
  unfolding work_off
  work_off-WorkedOff player [] s e = record {
    order = λ p. refl;
    empty = e;
    others = λ p h. h;
    received = refl;
    players = refl;
    current_frame = refl;
    lines = refl;
  }
  work_off-WorkedOff player (input ∷ inputs) s e =
      let one : Server A = record s {
        input_queue = update s.input_queue player inputs;
        processed = update s.processed player (s.processed player ++ input ∷ []);
      } in
      let w : WorkedOff one (work_off player inputs one) player =
        work_off-WorkedOff player inputs one (update_same s.input_queue player inputs) in
      record {
        order = λ p. w.order p ∙ step p;
        empty = w.empty;
        others = λ p h. w.others p (kept p h);
        received = w.received;
        players = w.players;
        current_frame = w.current_frame;
        lines = w.lines;
      }
    where
      step :
          (p : ℕ)
          → update s.processed player (s.processed player ++ input ∷ []) p
              ++ update s.input_queue player inputs p
            ≡ s.processed p ++ s.input_queue p
      step p = elim (Bool-cases (p == player)) [
        | inl here ↦
            let same : player ≡ p = ground arith in
            rw here (
              append_assoc (s.processed player) (input ∷ []) inputs
              ∙ ap (λ l. s.processed player ++ l) (sym e)
              ∙ ap (λ q. s.processed q ++ s.input_queue q) same)
        | inr off ↦ rw off refl
      ]

      kept : (p : ℕ) → s.input_queue p ≡ [] → update s.input_queue player inputs p ≡ []
      kept p h = elim (Bool-cases (p == player)) [
        | inl here ↦
            let same : player ≡ p = ground arith in
            absurd (cons≢nil input inputs (sym e ∙ ap s.input_queue same ∙ h))
        | inr off ↦ rw off h
      ]

  -- The work on the queues of the players `ps`.
  pub record WorkedAll (s g : Server A) (ps : List ℕ) : Type 0 where
    pub order : (p : ℕ) → g.processed p ++ g.input_queue p ≡ s.processed p ++ s.input_queue p
    pub empty : (p : ℕ) → has p ps ≡ true → g.input_queue p ≡ []
    pub others : (p : ℕ) → s.input_queue p ≡ [] → g.input_queue p ≡ []
    pub received : g.received ≡ s.received
    pub players : g.players ≡ s.players
    pub current_frame : g.current_frame ≡ s.current_frame
    pub broadcast : broadcasts g.lines ≡ broadcasts s.lines

  pub work_all-WorkedAll : (ps : List ℕ) (s : Server A) → WorkedAll s (work_all ps s) ps
  unfolding work_all
  work_all-WorkedAll [] s = record {
    order = λ p. refl;
    empty = λ p h. cc;
    others = λ p h. h;
    received = refl;
    players = refl;
    current_frame = refl;
    broadcast = refl;
  }
  work_all-WorkedAll (player ∷ ps) s =
      let t : Server A = print (processing player s.current_frame) s in
      let one : Server A = work_off player (t.input_queue player) t in
      let w : WorkedOff t one player = work_off-WorkedOff player (t.input_queue player) t refl in
      let r : WorkedAll one (work_all ps one) ps = work_all-WorkedAll ps one in
      record {
        order = λ p. r.order p ∙ w.order p;
        empty = λ p h. elim (Bool-cases (player == p)) [
          | inl here ↦
              let same : player ≡ p = ground arith in
              r.others p (ap one.input_queue (sym same) ∙ w.empty)
          | inr off ↦ r.empty p (sym (ap (λ b. b || has p ps) off) ∙ h)
        ];
        others = λ p h. r.others p (w.others p h);
        received = r.received ∙ w.received;
        players = r.players ∙ w.players;
        current_frame = r.current_frame ∙ w.current_frame;
        broadcast =
            r.broadcast
            ∙ ap broadcasts w.lines
            ∙ broadcasts-append s.lines (processing player s.current_frame ∷ [])
            ∙ append-nil (broadcasts s.lines);
      }
