-- ===== src/LinkedList/Destroy.antt =====
-- The constructor and the destructor.
use notes_coding.Base.{
  ℕ, zero, suc, ◌+◌, ◌<◌, ◌≡◌, refl, ◌∙◌, false, none, List, [], ◌∷◌, arith, All, length,
  length-append, ◌==◌, ==_false_sym,
}
use notes_coding.Memory.{Ptr, null, write}
use notes_coding.Memory.Access.{load_then, delete_then, next_then, prev_last}
use notes_coding.Memory.Chain.{
  node, has, first, Distinct, Linked, frame-write, write_self, write_other,
}
use notes_coding.Memory.Unlink.{not-has_head, not-has_tail}
use notes_coding.Memory.Ends
use notes_coding.Memory.Ends.{Ends, ends}
use notes_coding.LinkedList.{LinkedList, construct, destroy_loop, destroy}
use notes_coding.LinkedList.Shape.{Cell, behind, Holds}

-- The constructor makes an empty list of two new nodes; `size` is not set.
pub construct-Holds :
    (s : LinkedList) (dh dt : Ptr) (size : ℕ)
    → (dh == null) ≡ false
    → (dt == null) ≡ false
    → (dh == dt) ≡ false
    → Ends (λ _ g. Holds g [] × (g.fields.size ≡ size)) (construct dh dt size s)
unfolding construct
construct-Holds s dh dt size real real' apart =
    next_then _ _ _ _ (node 0 null null) real
      (write_other _ dt dh _ apart ∙ write_self s.nodes dh _)
      (prev_last _ _ _ (node 0 null null) real'
        (write_other _ dh dt _ (==_false_sym dh dt apart) ∙ write_self _ dt _)
        (
          record {
            linked = (write_other _ dt dh _ apart ∙ write_self _ dh _, (write_self _ dt _, tt));
            distinct = (real, ground arith, (real', refl, tt));
          },
          refl,
        ))

-- No node of the list is left, and nothing else has been touched.
pub record Gone (s g : LinkedList) (cells : List Cell) : Type 0 where
  pub freed : All (λ x. g.nodes x.0 ≡ none) cells
  pub same : (a : Ptr) → has a cells ≡ false → g.nodes a ≡ s.nodes a

destroy_loop-Gone :
    (k : ℕ) (s : LinkedList) (b : Ptr) (xs : List Cell)
    → Linked s.nodes b xs null
    → Distinct xs
    → length xs < k
    → Ends (λ _ g. Gone s g xs) (destroy_loop k (first xs null) s)
unfolding destroy_loop
destroy_loop-Gone zero s b xs l d fuel = absurd (omega arith)
destroy_loop-Gone (suc k) s b [] l d fuel = ends (record { freed = tt; same = λ a o. refl })
destroy_loop-Gone (suc k) s b ((p, v) ∷ xs) l d fuel = rw d.0 (
    load_then _ _ _ (node v b (first xs null)) d.0 l.0 (
      delete_then _ _ _ (node v b (first xs null)) d.0 l.0 (
        Ends.weaken
          (destroy_loop-Gone k (record s { nodes = write s.nodes p none }) p xs
            (frame-write s.nodes p xs null p none l.1 d.1) d.2 (omega arith))
          λ _ g r. record {
            freed = (r.same p d.1 ∙ write_self s.nodes p none, r.freed);
            same = λ a o.
                r.same a (not-has_tail a (p, v) xs o)
                ∙ write_other s.nodes p a none (not-has_head a (p, v) xs o);
          })))

-- The destructor frees the dummies and every node between them, touches no other node and follows no
-- freed link, given rounds for all these and one more.
pub destroy-Freed :
    (k : ℕ) (s : LinkedList) (xs : List Cell)
    → Holds s xs
    → length xs + 2 < k
    → Ends (λ _ g. Gone s g ((s.fields.dummy_head, 0) ∷ behind s xs)) (destroy k s)
unfolding destroy
destroy-Freed k s xs is fuel =
    destroy_loop-Gone k s null ((s.fields.dummy_head, 0) ∷ behind s xs) is.linked is.distinct
      (omega (arith, length-append xs ((s.fields.dummy_tail, 0) ∷ [])))
