-- ===== src/TimerList/Relocate.antt =====
-- The place of a timer whose expiry has been put off, and how it leaves its old one.
use notes_coding.Base.{
  ℕ, ◌≤◌, ◌<◌, ◌≡◌, refl, ap, ◌∙◌, subst, true, false, some, List, [], ◌∷◌, ◌++◌, arith, ltb, ◌==◌,
  le→not_ltb, All, length,
}
use notes_coding.Memory.{Ptr, null, Node, ◌>>=◌, get, write}
use notes_coding.Memory.Chain.{
  node, has, frame-write, write_self, write_other, ne-of-has, has-append,
}
use notes_coding.Memory.Unlink.{outside}
use notes_coding.Memory.Ends
use notes_coding.Memory.Ends.{Ends, ends}
use notes_coding.TimerList.{UtilTimer, Timers, add_timer_after}
use notes_coding.TimerList.Spec.{Cell, Holds, headed, headed-first, insert}
use notes_coding.TimerList.Add.{add_timer_after-Placed}
use notes_coding.TimerList.Insert.{Changed, Placed-Changed}
use notes_coding.TimerList.Unlink.{Removed}

-- The timer `t` does not expire before the first of `zs`.
abbrev pub Before : Cell → List Cell → Type 0
Before t [] = Unit
Before t (x ∷ xs) = ltb t.1.expire x.1.expire ≡ true

-- Where the place of a timer is.
pub insert_middle :
    (t : Cell) (ys zs : List Cell)
    → All (λ y. y.1.expire ≤ t.1.expire) ys
    → Before t zs
    → insert t (ys ++ zs) ≡ ys ++ t ∷ zs
unfolding insert
insert_middle t [] [] a b = refl
insert_middle t [] (z ∷ zs) a b = rw b
insert_middle t (y ∷ ys) zs a b = rw (le→not_ltb _ _ a.0, insert_middle t ys zs a.1 b)

pub insert_behind :
    (t x : Cell) (xs : List Cell)
    → ltb t.1.expire x.1.expire ≡ false
    → insert t (x ∷ xs) ≡ x ∷ insert t xs
unfolding insert
insert_behind t x xs h = rw h

-- The walk from the head, for a timer outside the list that does not expire before the first one.
pub relocate :
    (k : ℕ) (s : Timers) (t p pr nx : Ptr) (tv v : UtilTimer) (xs : List Cell)
    → Holds s ((p, v) ∷ xs)
    → (t == null) ≡ false
    → has t ((p, v) ∷ xs) ≡ false
    → s.nodes t ≡ some (node tv pr nx)
    → ltb tv.expire v.expire ≡ false
    → length xs < k
    → Ends
        (λ _ g. Changed s g t ((p, v) ∷ xs) (insert (t, tv) ((p, v) ∷ xs)))
        ((do f ← get; add_timer_after k t f.head) s)
relocate k s t p pr nx tv v xs is real out held after fuel =
    rw (insert_behind (t, tv) (p, v) xs after) (
      subst
        (λ u.
          Ends (λ _ g. Changed s g t ((p, v) ∷ xs) ((p, v) ∷ insert (t, tv) xs))
            ((do f ← get; add_timer_after k t f.head) u))
        (headed-first s ((p, v) ∷ xs) is)
        (Ends.weaken
          (add_timer_after-Placed k (headed s p) t p null pr nx tv v xs real is.distinct out
            is.linked is.tail held fuel)
          λ _ g r. Placed-Changed s g t p tv v xs real out is.distinct r))

pub has_self : (t : Ptr) (tv : UtilTimer) (xs : List Cell) → has t ((t, tv) ∷ xs) ≡ true
has_self t tv xs = ground arith

pub node_of :
    (g : Timers) (t : Ptr) (tv : UtilTimer) (n : Node UtilTimer)
    → g.nodes t ≡ some n
    → n.content ≡ tv
    → g.nodes t ≡ some (node tv n.prev n.next)
node_of g t tv n held same = held ∙ ap (λ c. some (node c n.prev n.next)) same

pub Changed-Removed :
    (s g g' : Timers) (t : Ptr) (tv : UtilTimer) (ys zs ws : List Cell)
    → Removed s g t tv (ys ++ (t, tv) ∷ zs) (ys ++ zs)
    → Changed g g' t (ys ++ zs) ws
    → Changed s g' t (ys ++ (t, tv) ∷ zs) ws
Changed-Removed s g g' t tv ys zs ws r c = record {
  holds = c.holds;
  calls = c.calls ∙ r.calls;
  same = λ a o at.
      let (oy, oz) = outside a ys ((t, tv) ∷ zs) o in
      c.same a (has-append a ys zs ∙ ground arith) at ∙ r.same a o;
}

abbrev pub cut : Timers → Ptr → Node UtilTimer → Timers
cut g t n = record g { nodes = write g.nodes t (some (record n { next = null })) }

-- `timer->next = nullptr` on a timer that has left the list.
pub detach :
    (s g : Timers) (t : Ptr) (tv : UtilTimer) (xs ys : List Cell)
    → has t xs ≡ true
    → has t ys ≡ false
    → (r : Removed s g t tv xs ys) → Removed s (cut g t r.left.0) t tv xs ys
detach s g t tv xs ys into out r = record {
  holds = record {
    linked = frame-write g.nodes null ys null t _ r.holds.linked out;
    distinct = r.holds.distinct;
    head = r.holds.head;
    tail = r.holds.tail;
  };
  calls = r.calls;
  left = (record (r.left.0) { next = null }, write_self g.nodes t _, r.left.2);
  same = λ a o. write_other g.nodes t a _ (ne-of-has a t xs o into) ∙ r.same a o;
}
