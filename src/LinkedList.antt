-- ===== src/LinkedList.antt =====
-- cpp-living-code/list/List.cc: a doubly linked list of integers between two dummy nodes. An `int` is
-- its 32 bits. An address that `new` returns is an argument, as is the value that `size` starts with,
-- since the constructor does not set it.
pub mod Shape
mod Links
pub mod Insert
pub mod Remove
pub mod Push
pub mod Find
pub mod Destroy
mod Tests
use notes_coding.Base.{
  ℕ, zero, suc, ◌+◌, ◌-◌, ◌%◌, ◌^◌, Bool, some, none, List, [], ◌∷◌, ◌==◌, if◌then◌else◌,
}
use notes_coding.Memory.{
  Ptr, null, Node, Store, Cmd, pure, starved, ◌>>=◌, ◌>>◌, get, put, load, store, set_next,
  set_prev, delete,
}
use notes_coding.Memory.Chain.{node}

pub record Fields : Type 0 where
  pub dummy_head : Ptr
  pub dummy_tail : Ptr
  pub size : ℕ

abbrev pub LinkedList : Type 0
LinkedList = Store ℕ Fields

abbrev pub ListCmd : Type 0 → Type 0
ListCmd = Cmd LinkedList

-- `new ListNode(val)`
abbrev pub new_node : (p : Ptr) (val : ℕ) → ListCmd (Unit {0})
new_node p val = store p (some (node val null null))

-- `++size` and `--size`
abbrev pub grow : ℕ → ℕ
grow size = (size + 1) % 2 ^ 32

abbrev pub shrink : ℕ → ℕ
shrink size = (size + (2 ^ 32 - 1)) % 2 ^ 32

-- `List()`
pub construct : (dummy_head dummy_tail : Ptr) (size : ℕ) → ListCmd (Unit {0})
construct dummy_head dummy_tail size = do
  new_node dummy_head 0
  new_node dummy_tail 0
  put (record { dummy_head = dummy_head; dummy_tail = dummy_tail; size = size })
  set_next dummy_head dummy_tail
  set_prev dummy_tail dummy_head

-- `insert(prev, node)`; where `++size` overflows an `int`, the size of the model wraps around.
pub insert : (prev node : Ptr) → ListCmd (Unit {0})
insert prev node = do
  set_prev node prev
  p ← load prev
  set_next node p.next
  p ← load prev
  set_prev p.next node
  set_next prev node
  f ← get
  put (record f { size = grow f.size })

-- `pushFront(val)`
pub push_front : (node : Ptr) (val : ℕ) → ListCmd (Unit {0})
unfolding insert
push_front node val = do new_node node val; f ← get; insert f.dummy_head node

-- `pushBack(val)`
pub push_back : (node : Ptr) (val : ℕ) → ListCmd (Unit {0})
unfolding insert
push_back node val = do new_node node val; f ← get; t ← load f.dummy_tail; insert t.prev node

-- `removeListNode(node)`
pub remove_list_node : Ptr → ListCmd (Unit {0})
remove_list_node node = do
  n ← load node
  set_next n.prev n.next
  n ← load node
  set_prev n.next n.prev
  delete node
  f ← get
  put (record f { size = shrink f.size })

-- `empty()`
pub empty : ListCmd Bool
empty = do f ← get; h ← load f.dummy_head; pure (h.next == f.dummy_tail)

-- The loop of `findListNode(val)`.
pub find_loop : ℕ → (val : ℕ) (cur : Ptr) → ListCmd Ptr
find_loop zero val cur = λ _. starved
find_loop (suc k) val cur = do
  f ← get
  if cur == f.dummy_tail
      then pure null
      else do c ← load cur; if c.content == val then pure cur else find_loop k val c.next

-- `findListNode(val)`
pub find_list_node : ℕ → (val : ℕ) → ListCmd Ptr
unfolding find_loop
find_list_node k val = do f ← get; h ← load f.dummy_head; find_loop k val h.next

-- The loop of `toString(os)`: the values that it prints.
pub to_string_loop : ℕ → (cur : Ptr) → ListCmd (List ℕ)
to_string_loop zero cur = λ _. starved
to_string_loop (suc k) cur = do
  f ← get
  if cur == f.dummy_tail
      then pure []
      else do c ← load cur; rest ← to_string_loop k c.next; pure (c.content ∷ rest)

-- `toString(os)`: the size and the values that it prints.
pub to_string : ℕ → ListCmd (ℕ × List ℕ)
unfolding to_string_loop
to_string k = do f ← get; h ← load f.dummy_head; vals ← to_string_loop k h.next; pure (f.size, vals)

-- The loop of `~List()`.
pub destroy_loop : ℕ → (tmp : Ptr) → ListCmd (Unit {0})
destroy_loop zero tmp = λ _. starved
destroy_loop (suc k) tmp =
    if tmp == null then pure tt else do t ← load tmp; delete tmp; destroy_loop k t.next

-- `~List()`
pub destroy : ℕ → ListCmd (Unit {0})
unfolding destroy_loop
destroy k = do f ← get; destroy_loop k f.dummy_head
