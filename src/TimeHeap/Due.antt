-- ===== src/TimeHeap/Due.antt =====
-- Which callbacks a tick calls, and which timers it leaves.
use mathlib.Core.List.{append_assoc, append-nil}
use notes_coding.Base.{
  ℕ, ◌<◌, ◌≤◌, ◌≡◌, ◌≢◌, refl, ap, sym, ◌∙◌, inl, inr, true, false, none, some, List, [], ◌∷◌, ◌++◌,
  arith, All, ltb, ◌==◌, Bool-cases, Option-cases, update, update_same, update_other, not_ltb→le,
}
use notes_coding.Memory.{Ptr, null}
use notes_coding.TimeHeap.{HeapTimer, TimeHeap, less, call_back, tick_loop, tick, del_timer}
use notes_coding.TimeHeap.Order.{IsAscending, less-expire}

-- The calls of the callbacks of the timers `xs`, in this order; a timer without one has no call.
unfoldable pub calls_of : (Ptr → HeapTimer) → List Ptr → List (ℕ × ℕ)
calls_of timers [] = []
calls_of timers (x ∷ xs) = elim ((timers x).cb_func) [
  | none ↦ calls_of timers xs
  | some f ↦ (f, (timers x).user_data) ∷ calls_of timers xs
]

-- A tick at `now` on the set `xs`: the timers `ran` expire by then and are taken out, and `stay` expire
-- later and are left, in order.
pub record Ticked (now : ℕ) (h h' : TimeHeap) : Type 0 where
  pub ran : List Ptr
  pub all : h.array ≡ ran ++ h'.array
  pub due : All (λ p. (h.timers p).expire ≤ now) ran
  pub early : All (λ p. now < (h.timers p).expire) h'.array
  pub ascending : IsAscending h.timers h'.array
  pub calls : h'.calls ≡ h.calls ++ calls_of h.timers ran

call_back-calls_of :
    (timers : Ptr → HeapTimer) (x : Ptr) (xs : List Ptr) (calls : List (ℕ × ℕ))
    → call_back (timers x) calls ++ calls_of timers xs ≡ calls ++ calls_of timers (x ∷ xs)
unfolding call_back calls_of
call_back-calls_of timers x xs calls = elim (Option-cases (timers x).cb_func) [
  | inl off ↦ rw (off, call_back, calls_of) refl
  | inr (f, on) ↦
      rw (on, call_back, calls_of)
        (append_assoc calls ((f, (timers x).user_data) ∷ []) (calls_of timers xs))
]

All-early :
    (timers : Ptr → HeapTimer) (now : ℕ) (x : Ptr) (xs : List Ptr)
    → (x == null) ≡ false
    → now < (timers x).expire
    → All (λ y. less timers x y ≡ true) xs
    → All (λ p. now < (timers p).expire) xs
All-early timers now x [] real h a = tt
All-early timers now x (y ∷ ys) real h a =
    let later : (timers x).expire ≤ (timers y).expire = less-expire timers x y real a.0 in
    (omega (arith, later, h), All-early timers now x ys real h a.1)

tick_loop-Ticked :
    (timers : Ptr → HeapTimer) (now : ℕ) (xs : List Ptr) (calls : List (ℕ × ℕ))
    → All (λ p. (p == null) ≡ false) xs
    → IsAscending timers xs
    → Ticked now
        (record { array = xs; timers = timers; calls = calls })
        (record {
          array = (tick_loop timers now xs calls).0;
          timers = timers;
          calls = (tick_loop timers now xs calls).1;
        })
unfolding tick_loop calls_of
tick_loop-Ticked timers now [] calls real s = record {
  ran = [];
  all = refl;
  due = tt;
  early = tt;
  ascending = tt;
  calls = sym (append-nil calls);
}
tick_loop-Ticked timers now (x ∷ xs) calls real s = elim (Bool-cases (ltb now (timers x).expire)) [
  | inl later ↦
      let h : now < (timers x).expire = ground arith in
      rw later (record {
        ran = [];
        all = refl;
        due = tt;
        early = (h, All-early timers now x xs real.0 h s.0);
        ascending = s;
        calls = sym (append-nil calls);
      })
  | inr over ↦
      let rest = tick_loop-Ticked timers now xs (call_back (timers x) calls) real.1 s.1 in
      rw over (record {
        ran = x ∷ rest.ran;
        all = ap (λ l. x ∷ l) rest.all;
        due = (not_ltb→le _ _ over, rest.due);
        early = rest.early;
        ascending = rest.ascending;
        calls = rest.calls ∙ call_back-calls_of timers x rest.ran calls;
      })
]

-- A tick on a set in order takes out just the timers that expire by then, from the first on, calls
-- once the callback of each of these that has one, in order, with its client data, and leaves the
-- others in order.
pub tick-Ticked :
    (now : ℕ) (h : TimeHeap)
    → All (λ p. (p == null) ≡ false) h.array
    → IsAscending h.timers h.array
    → Ticked now h (tick now h)
unfolding tick
tick-Ticked now h real s = tick_loop-Ticked h.timers now h.array h.calls real s

-- `h'` is `h` without the callback of `t`.
pub record Silenced (t : Ptr) (h h' : TimeHeap) : Type 0 where
  pub ascending : IsAscending h'.timers h'.array
  pub array : h'.array ≡ h.array
  pub silent : calls_of h'.timers (t ∷ []) ≡ []
  pub others : (p : Ptr) → t ≢ p → h'.timers p ≡ h.timers p
  pub expire : (p : Ptr) → (h'.timers p).expire ≡ (h.timers p).expire

update-expire :
    (timers : Ptr → HeapTimer) (t p : Ptr)
    → (update timers t (record (timers t) { cb_func = none }) p).expire ≡ (timers p).expire
update-expire timers t p = elim (Bool-cases (p == t)) [
  | inl here ↦ let same : t ≡ p = ground arith in rw here (ap (λ q. (timers q).expire) same)
  | inr there ↦ rw there refl
]

less-same :
    (f g : Ptr → HeapTimer) (x y : Ptr)
    → ((p : Ptr) → (f p).expire ≡ (g p).expire)
    → less f x y ≡ less g x y
unfolding less
less-same f g x y e = rw (e x, e y) refl

All-same :
    (f g : Ptr → HeapTimer) (x : Ptr) (xs : List Ptr)
    → ((p : Ptr) → (f p).expire ≡ (g p).expire)
    → All (λ y. less g x y ≡ true) xs
    → All (λ y. less f x y ≡ true) xs
All-same f g x [] e a = tt
All-same f g x (y ∷ ys) e a = (less-same f g x y e ∙ a.0, All-same f g x ys e a.1)

IsAscending-same :
    (f g : Ptr → HeapTimer) (xs : List Ptr)
    → ((p : Ptr) → (f p).expire ≡ (g p).expire)
    → IsAscending g xs
    → IsAscending f xs
IsAscending-same f g [] e s = tt
IsAscending-same f g (x ∷ xs) e s = (All-same f g x xs e s.0, IsAscending-same f g xs e s.1)

-- `delTimer` takes only the callback from a timer: it stays in the set, which stays in order, every
-- timer keeps its time, and every other timer its callback.
pub del_timer-Silenced :
    (t : Ptr) (h : TimeHeap)
    → (t == null) ≡ false
    → IsAscending h.timers h.array
    → Silenced t h (del_timer t h)
unfolding del_timer calls_of call_back
del_timer-Silenced t h real s = rw real (record {
  ascending = IsAscending-same _ h.timers h.array (update-expire h.timers t) s;
  array = refl;
  silent = rw (update_same h.timers t (record (h.timers t) { cb_func = none }), calls_of) refl;
  others = λ p ne. update_other h.timers t p _ ne;
  expire = update-expire h.timers t;
})
