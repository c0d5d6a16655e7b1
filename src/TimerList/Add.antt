-- ===== src/TimerList/Add.antt =====
-- `addTimer`: the walk to the place of a new timer, and the links that it writes.
use notes_coding.Base.{
  ℕ, zero, suc, ◌<◌, ◌≡◌, refl, ap, ◌∙◌, inl, inr, false, some, List, [], ◌∷◌, arith, ltb, ◌==◌,
  Bool-cases, length,
}
use notes_coding.Memory.{Ptr, null, write}
use notes_coding.Memory.Access.{load_then, next_then, prev_then, prev_last}
use notes_coding.Memory.Chain.{node, has, first, last, Distinct, Linked, frame}
use notes_coding.Memory.Ends
use notes_coding.Memory.Ends.{Ends, ends}
use notes_coding.TimerList.{
  UtilTimer, Timers, insert_between, insert_last, add_loop, add_timer_after,
}
use notes_coding.TimerList.Spec.{Cell, insert}

module _ (s : Timers) (p q t b r pr nx : Ptr) (v w tv : UtilTimer) (p-real : (p == null) ≡ false)
    (q-real : (q == null) ≡ false) (t-real : (t == null) ≡ false)
    (p-held : s.nodes p ≡ some (node v b q)) (q-held : s.nodes q ≡ some (node w p r))
    (t-held : s.nodes t ≡ some (node tv pr nx)) (tp : (t == p) ≡ false) (tq : (t == q) ≡ false)
    (pq : (p == q) ≡ false) where
  insert_between-lem :
      Ends
        (λ _ g.
          (g.fields ≡ s.fields)
          × (g.nodes p ≡ some (node v b t))
          × (g.nodes t ≡ some (node tv p q))
          × (g.nodes q ≡ some (node w t r))
          × ((a : Ptr)
              → (a == p) ≡ false
              → (a == t) ≡ false
              → (a == q) ≡ false
              → g.nodes a ≡ s.nodes a))
        (insert_between t p q s)
  unfolding insert_between write
  insert_between-lem = next_then _ _ _ _ (node v b q) p-real p-held (
      next_then _ _ _ _ (node tv pr nx) t-real (ground arith) (
        prev_then _ _ _ _ (node w p r) q-real (ground arith) (
          prev_last _ _ _ (node tv pr q) t-real (ground arith)
            (refl, ground arith, ground arith, ground arith, ground arith))))

-- `g` is `s` with the cells `xs` after `b` replaced by `ys`, and nothing written but to them and `t`.
pub record Placed (s g : Timers) (b t : Ptr) (xs ys : List Cell) : Type 0 where
  pub linked : Linked g.nodes b ys null
  pub tail : g.fields.tail ≡ last b ys
  pub head : g.fields.head ≡ s.fields.head
  pub calls : g.fields.calls ≡ s.fields.calls
  pub same : (a : Ptr) → has a xs ≡ false → (a == t) ≡ false → g.nodes a ≡ s.nodes a

Placed-cons :
    (s g : Timers) (b t p q : Ptr) (v w : UtilTimer) (xs ys : List Cell)
    → has p ((q, w) ∷ xs) ≡ false
    → (p == t) ≡ false
    → s.nodes p ≡ some (node v b q)
    → Placed s g p t ((q, w) ∷ xs) ((q, w) ∷ ys)
    → Placed s g b t ((p, v) ∷ (q, w) ∷ xs) ((p, v) ∷ (q, w) ∷ ys)
Placed-cons s g b t p q v w xs ys out pt held r = record {
  linked = (r.same p out pt ∙ held, r.linked);
  tail = r.tail;
  head = r.head;
  calls = r.calls;
  same = λ a o at. r.same a (ground arith) at;
}

module _ (t : Ptr) (tv : UtilTimer) (t-real : (t == null) ≡ false) where
  insert_last-Placed :
      (s : Timers) (b p pr nx : Ptr) (v : UtilTimer)
      → (p == null) ≡ false
      → (t == p) ≡ false
      → s.nodes p ≡ some (node v b null)
      → s.nodes t ≡ some (node tv pr nx)
      → Ends (λ _ g. Placed s g b t ((p, v) ∷ []) ((p, v) ∷ (t, tv) ∷ [])) (insert_last t p s)
  unfolding insert_last write
  insert_last-Placed s b p pr nx v p-real tp held t-held =
      next_then _ _ _ _ (node v b null) p-real held (
        next_then _ _ _ _ (node tv pr nx) t-real (ground arith) (
          prev_then _ _ _ _ (node tv pr null) t-real (ground arith) (
            ends (record {
              linked = (ground arith, (ground arith, tt));
              tail = refl;
              head = refl;
              calls = refl;
              same = ground arith;
            }))))

  insert_between-Placed :
      (s : Timers) (b p q pr nx : Ptr) (v w : UtilTimer) (xs : List Cell)
      → Distinct ((p, v) ∷ (q, w) ∷ xs)
      → has t ((p, v) ∷ (q, w) ∷ xs) ≡ false
      → Linked s.nodes b ((p, v) ∷ (q, w) ∷ xs) null
      → s.fields.tail ≡ last q xs
      → s.nodes t ≡ some (node tv pr nx)
      → Ends
          (λ _ g. Placed s g b t ((p, v) ∷ (q, w) ∷ xs) ((p, v) ∷ (t, tv) ∷ (q, w) ∷ xs))
          (insert_between t p q s)
  insert_between-Placed s b p q pr nx v w xs d out l e t-held =
      Ends.weaken
        (insert_between-lem s p q t b (first xs null) pr nx v w tv d.0 d.2.0 t-real l.0 l.1.0 t-held
          (ground arith) (ground arith) (ground arith))
        λ _ g (f, gp, gt, gq, rest). record {
          linked = (
            gp,
            (
              gt,
              (
                gq,
                frame s.nodes g.nodes q xs null l.1.1
                    λ a i. rest a (ground arith) (ground arith) (ground arith),
              ),
            ),
          );
          tail = ap (λ r. r.tail) f ∙ e;
          head = ap (λ r. r.head) f;
          calls = ap (λ r. r.calls) f;
          same = λ a o at. rest a (ground arith) at (ground arith);
        }

  -- The walk from the node `p` on puts the timer before the first one that expires later.
  add_loop-Placed :
      (k : ℕ) (s : Timers) (b p pr nx : Ptr) (v : UtilTimer) (xs : List Cell)
      → Distinct ((p, v) ∷ xs)
      → has t ((p, v) ∷ xs) ≡ false
      → Linked s.nodes b ((p, v) ∷ xs) null
      → s.fields.tail ≡ last p xs
      → s.nodes t ≡ some (node tv pr nx)
      → length xs < k
      → Ends
          (λ _ g. Placed s g b t ((p, v) ∷ xs) ((p, v) ∷ insert (t, tv) xs))
          (add_loop k t p (first xs null) s)
  unfolding add_loop insert
  add_loop-Placed zero s b p pr nx v xs d out l e t-held fuel = absurd (omega arith)
  add_loop-Placed (suc k) s b p pr nx v [] d out l e t-held fuel =
      insert_last-Placed s b p pr nx v d.0 (ground arith) l.0 t-held
  add_loop-Placed (suc k) s b p pr nx v ((q, w) ∷ xs) d out l e t-held fuel = rw d.2.0 (
      load_then _ _ _ (node tv pr nx) t-real t-held (
        load_then _ _ _ (node w p (first xs null)) d.2.0 l.1.0
          (elim (Bool-cases (ltb tv.expire w.expire)) [
            | inl before ↦ rw before (insert_between-Placed s b p q pr nx v w xs d out l e t-held)
            | inr after ↦ rw after (
                Ends.weaken
                  (add_loop-Placed k s p q pr nx w xs d.2 (ground arith) l.1 e t-held (omega arith))
                  λ _ g. Placed-cons s g b t p q v w xs (insert (t, tv) xs) d.1 (ground arith) l.0)
          ])))

pub add_timer_after-Placed :
    (k : ℕ) (s : Timers) (t p b pr nx : Ptr) (tv v : UtilTimer) (xs : List Cell)
    → (t == null) ≡ false
    → Distinct ((p, v) ∷ xs)
    → has t ((p, v) ∷ xs) ≡ false
    → Linked s.nodes b ((p, v) ∷ xs) null
    → s.fields.tail ≡ last p xs
    → s.nodes t ≡ some (node tv pr nx)
    → length xs < k
    → Ends
        (λ _ g. Placed s g b t ((p, v) ∷ xs) ((p, v) ∷ insert (t, tv) xs))
        (add_timer_after k t p s)
unfolding add_timer_after
add_timer_after-Placed k s t p b pr nx tv v xs real d out l e held fuel =
    load_then _ _ _ (node v b (first xs null)) d.0 l.0
      (add_loop-Placed t tv real k s b p pr nx v xs d out l e held fuel)
