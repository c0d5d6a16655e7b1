-- ===== src/LinkedList/Shape.antt =====
-- What a list of values looks like in memory.
use notes_coding.Base.{ℕ, ◌≡◌, some, List, [], ◌∷◌, ◌++◌}
use notes_coding.Memory.{Ptr, null, Nodes}
use notes_coding.Memory.Chain.{node, last, Distinct, Linked}
use notes_coding.LinkedList.{LinkedList}

-- A node between the dummies: its address and its value.
abbrev pub Cell : Type 0
Cell = Ptr × ℕ

-- What stands behind `dummy_head`: the cells, and `dummy_tail`.
abbrev pub behind : LinkedList → List Cell → List Cell
behind s xs = xs ++ (s.fields.dummy_tail, 0) ∷ []

-- The list holds the cells `xs`, linked both ways between the dummies.
pub record Holds (s : LinkedList) (xs : List Cell) : Type 0 where
  pub linked : Linked s.nodes null ((s.fields.dummy_head, 0) ∷ behind s xs) null
  pub distinct : Distinct ((s.fields.dummy_head, 0) ∷ behind s xs)

-- The last node of a chain leads to what stands behind the chain.
pub last-node :
    (h : Nodes ℕ) (b p : Ptr) (v : ℕ) (xs : List Cell) (stop : Ptr)
    → Linked h b ((p, v) ∷ xs) stop
    → (w : ℕ) × (a : Ptr) × (h (last p xs) ≡ some (node w a stop))
last-node h b p v [] stop l = (v, b, l.0)
last-node h b p v ((q, w) ∷ xs) stop l = last-node h p q w xs stop l.1
