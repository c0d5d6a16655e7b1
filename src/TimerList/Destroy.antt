-- ===== src/TimerList/Destroy.antt =====
-- The destructor of the list.
use notes_coding.Base.{
  ℕ, zero, suc, ◌<◌, ◌≡◌, refl, ◌∙◌, subst, false, none, List, [], ◌∷◌, arith, All, length,
}
use notes_coding.Memory.{Ptr, null, write}
use notes_coding.Memory.Access.{load_then, delete_then}
use notes_coding.Memory.Chain.{
  node, has, first, Distinct, Linked, frame-write, write_self, write_other,
}
use notes_coding.Memory.Unlink.{not-has_head, not-has_tail}
use notes_coding.Memory.Ends
use notes_coding.Memory.Ends.{Ends, ends}
use notes_coding.TimerList.{Timers, destroy_loop, destroy}
use notes_coding.TimerList.Spec.{Cell, Holds, headed, headed-first}

-- No timer of `xs` is left, no callback has run, and nothing else has been touched.
pub record Gone (s g : Timers) (xs : List Cell) : Type 0 where
  pub freed : All (λ x. g.nodes x.0 ≡ none) xs
  pub calls : g.fields.calls ≡ s.fields.calls
  pub same : (a : Ptr) → has a xs ≡ false → g.nodes a ≡ s.nodes a

destroy_loop-Gone :
    (k : ℕ) (s : Timers) (b : Ptr) (xs : List Cell)
    → Linked s.nodes b xs null
    → Distinct xs
    → length xs < k
    → Ends (λ _ g. Gone s g xs) (destroy_loop k (first xs null) s)
unfolding destroy_loop
destroy_loop-Gone zero s b xs l d fuel = absurd (omega arith)
destroy_loop-Gone (suc k) s b [] l d fuel =
    ends (record { freed = tt; calls = refl; same = λ a o. refl })
destroy_loop-Gone (suc k) s b ((p, v) ∷ xs) l d fuel = rw d.0 (
    load_then _ _ _ (node v b (first xs null)) d.0 l.0 (
      delete_then _ _ _ (node v b (first xs null)) d.0 l.0 (
        Ends.weaken
          (destroy_loop-Gone k
            (record {
              nodes = write s.nodes p none;
              fields = record (s.fields) { head = first xs null };
            })
            p xs (frame-write s.nodes p xs null p none l.1 d.1) d.2 (omega arith))
          λ _ g r. record {
            freed = (r.same p d.1 ∙ write_self s.nodes p none, r.freed);
            calls = r.calls;
            same = λ a o.
                r.same a (not-has_tail a (p, v) xs o)
                ∙ write_other s.nodes p a none (not-has_head a (p, v) xs o);
          })))

-- Given rounds for the list and one more, the destructor frees all its timers, touches no other
-- node, follows no freed link and runs no callback.
pub destroy-Gone :
    (k : ℕ) (s : Timers) (xs : List Cell)
    → Holds s xs
    → length xs < k
    → Ends (λ _ g. Gone s g xs) (destroy k s)
unfolding destroy
destroy-Gone k s xs is fuel =
    subst (λ u. Ends (λ _ g. Gone s g xs) (destroy k u)) (headed-first s xs is)
      (Ends.weaken
        (destroy_loop-Gone k (headed s (first xs null)) null xs is.linked is.distinct fuel)
        λ _ g r. record { freed = r.freed; calls = r.calls; same = r.same })
