-- ===== src/ForkRoom/Own.antt =====
-- What a child changes.
use notes_coding.Base.{
  ℕ, zero, suc, ◌+◌, ◌≡◌, refl, sym, ◌∙◌, ap, subst, arith, Bool, true, false, List, [], ◌∷◌, ◌++◌,
  replicate, ◌*◌,
}
use mathlib.Core.List.{append_assoc, append-nil}
use notes_coding.ForkRoom.{buffer_size, read, end_of_stream, again, failed, hear, relay}
use notes_coding.ForkRoom.Bytes.{IsOutside, fill-outside}
use notes_coding.ForkRoom.Serving.{
  ChildEvent, from_client, from_parent, no_event, Running, attend, attend_all, child_term_handler,
  Round, interrupted, failed_wait, events, close_all, finish, run_child,
}

-- The child has kept its number and all bytes of the memory but the 1024 of its segment, and has told
-- the parent its number only.
pub record Own (r g : Running) : Type 0 where
  pub idx : g.child.idx ≡ r.child.idx
  pub others :
      (a : ℕ) → IsOutside (r.child.idx * buffer_size) buffer_size a → g.share_mem a ≡ r.share_mem a
  pub times : ℕ
  pub told : g.told ≡ r.told ++ replicate times r.child.idx

Own-refl : (r : Running) → Own r r
Own-refl r = record {
  idx = refl;
  others = λ a out. refl;
  times = 0;
  told = sym (append-nil r.told);
}

replicate-append : (m n a : ℕ) → replicate m a ++ replicate n a ≡ replicate (m + n) a
replicate-append zero n a = let e : n ≡ zero + n = omega arith in ap (λ k. replicate k a) e
replicate-append (suc m) n a =
    let e : suc (m + n) ≡ suc m + n = omega arith in
    ap (λ l. a ∷ l) (replicate-append m n a) ∙ ap (λ k. replicate k a) e

Own-trans : (r g h : Running) → Own r g → Own g h → Own r h
Own-trans r g h o p = record {
  idx = p.idx ∙ o.idx;
  others = λ a out.
      p.others a (subst (λ i. IsOutside (i * buffer_size) buffer_size a) (sym o.idx) out)
      ∙ o.others a out;
  times = o.times + p.times;
  told =
      p.told
      ∙ ap (λ i. g.told ++ replicate p.times i) o.idx
      ∙ ap (λ l. l ++ replicate p.times r.child.idx) o.told
      ∙ append_assoc r.told (replicate o.times r.child.idx) (replicate p.times r.child.idx)
      ∙ ap (λ l. r.told ++ l) (replicate-append o.times p.times r.child.idx);
}

attend-Own : (e : ChildEvent) (r : Running) → Own r (attend e r)
unfolding attend hear relay
attend-Own (from_client (read xs)) r = record {
  idx = refl;
  others = λ a out. fill-outside r.child.idx xs r.share_mem a out;
  times = 1;
  told = refl;
}
attend-Own (from_client end_of_stream) r = record {
  idx = refl;
  others = λ a out. fill-outside r.child.idx [] r.share_mem a out;
  times = 0;
  told = refl;
}
attend-Own (from_client again) r = record {
  idx = refl;
  others = λ a out. fill-outside r.child.idx [] r.share_mem a out;
  times = 0;
  told = refl;
}
attend-Own (from_client failed) r = record {
  idx = refl;
  others = λ a out. fill-outside r.child.idx [] r.share_mem a out;
  times = 0;
  told = refl;
}
attend-Own (from_parent (read client)) r = record {
  idx = refl;
  others = λ a out. refl;
  times = 0;
  told = sym (append-nil r.told);
}
attend-Own (from_parent end_of_stream) r = record {
  idx = refl;
  others = λ a out. refl;
  times = 0;
  told = sym (append-nil r.told);
}
attend-Own (from_parent again) r = record {
  idx = refl;
  others = λ a out. refl;
  times = 0;
  told = sym (append-nil r.told);
}
attend-Own (from_parent failed) r = record {
  idx = refl;
  others = λ a out. refl;
  times = 0;
  told = sym (append-nil r.told);
}
attend-Own no_event r = Own-refl r

attend_all-Own : (es : List ChildEvent) (r : Running) → Own r (attend_all es r)
unfolding attend_all
attend_all-Own [] r = Own-refl r
attend_all-Own (e ∷ es) r =
    Own-trans r (attend e r) (attend_all es (attend e r)) (attend-Own e r)
      (attend_all-Own es (attend e r))

close_all-Own : (pipefd efd : ℕ) (r : Running) → Own r (close_all pipefd efd r)
close_all-Own pipefd efd r = record {
  idx = refl;
  others = λ a out. refl;
  times = 0;
  told = sym (append-nil r.told);
}

finish-Own : (pipefd efd : ℕ) (b : Bool) (r : Running) → Own r (finish pipefd efd b r)
finish-Own pipefd efd true r = close_all-Own pipefd efd r
finish-Own pipefd efd false r = Own-refl r

either-Own :
    (b : Bool) (r g h : Running)
    → Own r g
    → Own r h
    → Own r (elim b as (λ c. Running) [ true ↦ g | false ↦ h ])
either-Own true r g h o p = o
either-Own false r g h o p = p

-- Whatever a child's client and the parent send, whatever fails or interrupts it, the child keeps its
-- number, writes no byte of the shared memory but the 1024 of its own segment, and tells the parent no
-- other number.
pub run_child-Own :
    (pipefd efd : ℕ) (rounds : List Round) (r : Running) → Own r (run_child pipefd efd rounds r)
unfolding run_child
run_child-Own pipefd efd [] r = finish-Own pipefd efd r.child.stop_child r
run_child-Own pipefd efd (interrupted ∷ rounds) r =
    let next : Running = child_term_handler r in
    let o : Own next (run_child pipefd efd rounds next) = run_child-Own pipefd efd rounds next in
    either-Own r.child.stop_child r (close_all pipefd efd r) (run_child pipefd efd rounds next)
      (close_all-Own pipefd efd r)
      (record { idx = o.idx; others = o.others; times = o.times; told = o.told })
run_child-Own pipefd efd (failed_wait ∷ rounds) r = close_all-Own pipefd efd r
run_child-Own pipefd efd (events es ∷ rounds) r =
    let next : Running = attend_all es r in
    either-Own r.child.stop_child r (close_all pipefd efd r) (run_child pipefd efd rounds next)
      (close_all-Own pipefd efd r)
      (Own-trans r next (run_child pipefd efd rounds next) (attend_all-Own es r)
        (run_child-Own pipefd efd rounds next))
