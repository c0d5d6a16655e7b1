-- ===== src/LinkedList/Tests.antt =====
-- A list of two values: the dummies at 1 and 2, the nodes at 3 and 4.
use notes_coding.Base.{ℕ, refl, Option, none, some, List, [], ◌∷◌, arith, ◌==◌, if◌then◌else◌}
use notes_coding.Memory.{Ptr, Node, ◌>>◌}
use notes_coding.Memory.Chain.{node}
use notes_coding.Memory.Ends.{Ends}
use notes_coding.LinkedList.{LinkedList, push_back, remove_list_node}
use notes_coding.LinkedList.Shape.{Cell, Holds}
use notes_coding.LinkedList.Push.{Restored, push_back-remove}

abbrev two : List Cell
two = (3, 10) ∷ (4, 20) ∷ []

abbrev memory : Ptr → Option (Node ℕ)
memory a =
    if a == 1
    then some (node 0 0 3)
    else if a == 3
    then some (node 10 1 4)
    else if a == 4
    then some (node 20 3 2)
    else if a == 2
    then some (node 0 4 0)
    else none

abbrev start : LinkedList
start = record { nodes = memory; fields = record { dummy_head = 1; dummy_tail = 2; size = 2 } }

start-Holds : Holds start two
start-Holds = record {
  linked = (refl, (refl, (refl, (refl, tt))));
  distinct = (refl, refl, (refl, refl, (refl, refl, (refl, refl, tt))));
}

push_back-remove_example :
    Ends (λ _ g. Restored start g two 5) ((push_back 5 30 >> remove_list_node 5) start)
push_back-remove_example = push_back-remove start two 5 30 start-Holds refl refl (omega arith)
