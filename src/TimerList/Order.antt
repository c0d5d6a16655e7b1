-- ===== src/TimerList/Order.antt =====
-- The ascending order under `addTimer` and a put-off expiry.
use mathlib.Core.List.{Perm, perm_middle}
use mathlib.Core.List.Perm
use notes_coding.Base.{
  ℕ, ◌≤◌, ◌≡◌, ◌∙◌, inl, inr, false, some, List, [], ◌∷◌, ◌++◌, arith, ltb, ◌==◌, Bool-cases, All,
  All-append, All-append_left, All-append_right, length,
}
use notes_coding.Memory.{Ptr, null, write}
use notes_coding.Memory.Access.{content_then}
use notes_coding.Memory.Chain.{node, has, first, last, Linked-split}
use notes_coding.Memory.Content.{first-content, last-content, Distinct-content, Linked-content}
use notes_coding.Memory.Unlink.{Distinct-split}
use notes_coding.Memory.Ends
use notes_coding.Memory.Ends.{Ends}
use notes_coding.TimerList.{UtilTimer, Timers, add_timer, put_off}
use notes_coding.TimerList.Spec.{Cell, EndsAt, Holds, IsSorted, insert, insert-IsSorted}
use notes_coding.TimerList.Insert.{add_timer-insert}
use notes_coding.TimerList.Adjust.{adjust_timer-insert}

pub insert-perm : (t : Cell) (xs : List Cell) → Perm (insert t xs) (t ∷ xs)
unfolding insert
insert-perm t [] = Perm.rfl
insert-perm t (x ∷ xs) = elim (Bool-cases (ltb t.1.expire x.1.expire)) [
  | inl b ↦ rw b Perm.rfl
  | inr b ↦ rw b (Perm.trans (Perm.cons x (insert-perm t xs)) (Perm.swap t x xs))
]

-- The list is ascending and holds the timers `ts`; no callback has run since `s`.
pub record Keeps (s g : Timers) (ts : List Cell) : Type 0 where
  pub cells : List Cell
  pub holds : Holds g cells
  pub sorted : IsSorted cells
  pub same_timers : Perm cells ts
  pub calls : g.fields.calls ≡ s.fields.calls

-- `addTimer` of a fresh timer to an ascending list: the list is ascending and has just that timer
-- more, given rounds for its length.
pub add_timer-Keeps :
    (k : ℕ) (s : Timers) (t : Ptr) (tv : UtilTimer) (xs : List Cell)
    → Holds s xs
    → IsSorted xs
    → (t == null) ≡ false
    → has t xs ≡ false
    → s.nodes t ≡ some (node tv null null)
    → length xs ≤ k
    → Ends (λ _ g. Keeps s g ((t, tv) ∷ xs)) (add_timer k t s)
add_timer-Keeps k s t tv xs is sorted real out held fuel =
    Ends.weaken (add_timer-insert k s t tv real held xs is out fuel) λ _ g c. record {
      cells = insert (t, tv) xs;
      holds = c.holds;
      sorted = insert-IsSorted (t, tv) xs sorted;
      same_timers = insert-perm (t, tv) xs;
      calls = c.calls;
    }

pub IsSorted-remove :
    (ys : List Cell) (t : Cell) (zs : List Cell) → IsSorted (ys ++ t ∷ zs) → IsSorted (ys ++ zs)
IsSorted-remove [] t zs o = o.1
IsSorted-remove (y ∷ ys) t zs o = (
  All-append _ ys zs (All-append_left _ ys (t ∷ zs) o.0) (All-append_right _ ys (t ∷ zs) o.0).1,
  IsSorted-remove ys t zs o.1,
)

-- The timers in front of one that is put off do not expire after its new time.
front-le :
    (ys : List Cell) (t : Cell) (zs : List Cell) (n : ℕ)
    → IsSorted (ys ++ t ∷ zs)
    → t.1.expire ≤ n
    → All (λ y. y.1.expire ≤ n) ys
front-le [] t zs n o h = tt
front-le (y ∷ ys) t zs n o h = (
  omega (arith, (All-append_right (λ x. y.1.expire ≤ x.1.expire) ys (t ∷ zs) o.0).0),
  front-le ys t zs n o.1 h,
)

EndsAt-content :
    (t : Ptr) (v v' : UtilTimer) (ys zs : List Cell) (tail : Ptr)
    → EndsAt (ys ++ (t, v) ∷ zs) tail
    → EndsAt (ys ++ (t, v') ∷ zs) tail
EndsAt-content t v v' [] zs tail e = e
EndsAt-content t v v' ((p, w) ∷ ys) zs tail e = e ∙ last-content t v v' p ys zs

module _ (k : ℕ) (s : Timers) (t : Ptr) (tv : UtilTimer) (ys zs : List Cell) (expire : ℕ) where
  abbrev tv' : UtilTimer
  tv' = record tv { expire = expire }

  abbrev stamped : Timers
  stamped = record s { nodes = write s.nodes t (some (node tv' (last null ys) (first zs null))) }

  stamped-Holds : Holds s (ys ++ (t, tv) ∷ zs) → Holds stamped (ys ++ (t, tv') ∷ zs)
  stamped-Holds is = record {
    linked = Linked-content t tv tv' s.nodes null ys zs null is.distinct is.linked;
    distinct = Distinct-content t tv tv' ys zs is.distinct;
    head = is.head ∙ first-content t tv tv' ys zs null;
    tail = EndsAt-content t tv tv' ys zs s.fields.tail is.tail;
  }

  -- A timer whose expiry is put off is put where it belongs among the others.
  pub put_off-insert :
      Holds s (ys ++ (t, tv) ∷ zs)
      → IsSorted (ys ++ (t, tv) ∷ zs)
      → tv.expire ≤ expire
      → length (ys ++ zs) ≤ k
      → Ends
          (λ _ g.
            Holds g (insert (t, tv') (ys ++ zs))
            × IsSorted (insert (t, tv') (ys ++ zs))
            × (g.fields.calls ≡ s.fields.calls))
          (put_off k t expire s)
  unfolding put_off
  put_off-insert is sorted later fuel =
      let (dy, dt, apart) = Distinct-split ys ((t, tv) ∷ zs) is.distinct in
      let (ly, lt) = Linked-split s.nodes null ys ((t, tv) ∷ zs) null is.linked in
      content_then _ _ _ _ (node tv (last null ys) (first zs null)) dt.0 lt.0 (
        Ends.weaken
          (adjust_timer-insert k stamped t tv' ys zs (stamped-Holds is)
            (front-le ys (t, tv) zs expire sorted later) fuel)
          λ _ g c. (
            c.holds,
            insert-IsSorted (t, tv') (ys ++ zs) (IsSorted-remove ys (t, tv) zs sorted),
            c.calls,
          ))

  -- A timer of an ascending list whose expiry is put off by its owner and which is handed to
  -- `adjustTimer` moves to its new place: the list is ascending again and holds the same timers,
  -- this one with its new expiry, given rounds for the length of the list.
  pub put_off-Keeps :
      Holds s (ys ++ (t, tv) ∷ zs)
      → IsSorted (ys ++ (t, tv) ∷ zs)
      → tv.expire ≤ expire
      → length (ys ++ zs) ≤ k
      → Ends (λ _ g. Keeps s g (ys ++ (t, tv') ∷ zs)) (put_off k t expire s)
  put_off-Keeps is sorted later fuel = Ends.weaken (put_off-insert is sorted later fuel) λ _ g c.
      record {
        cells = insert (t, tv') (ys ++ zs);
        holds = c.0;
        sorted = c.1;
        same_timers = Perm.trans (insert-perm (t, tv') (ys ++ zs)) (Perm.symm (perm_middle ys zs));
        calls = c.2;
      }
