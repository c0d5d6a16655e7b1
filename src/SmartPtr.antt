-- ===== src/SmartPtr.antt =====
-- cpp-living-code/SmartPtr/smart_ptr.cpp: a reference-counted pointer. The variables of a program
-- are numbered in the order in which they are declared; a destroyed one leaves `none` behind.
pub mod Refs
pub mod Sound
pub mod Lifetime
pub mod Copies
pub mod Moves
mod Tests
use notes_coding.Base.{
  ℕ, ◌+◌, ◌-◌, ◌%◌, ◌^◌, Bool, true, false, Option, none, some, List, [], ◌∷◌, ◌++◌, ◌==◌,
  if◌then◌else◌, get_elem?, set,
}
use notes_coding.Memory.{Ptr, null, write, Cmd, fault, done, pure, ◌>>=◌, ◌>>◌}

pub record SmartPtr : Type 0 where
  pub ptr_ : Ptr
  pub cnt_ : Ptr

-- Which objects are allocated, the allocated counts (`size_t`), and the variables.
pub record World : Type 0 where
  pub objects : Ptr → Bool
  pub counts : Ptr → Option ℕ
  pub vars : List (Option SmartPtr)

abbrev pub WorldCmd : Type 0 → Type 0
WorldCmd = Cmd World

-- The null pointer, or `ptr_` and `cnt_` after the last release.
abbrev pub empty : SmartPtr
empty = record { ptr_ = null; cnt_ = null }

pub load_count : Ptr → WorldCmd ℕ
load_count c w = if c == null then fault else elim (w.counts c) [ none ↦ fault | some n ↦ done n w ]

abbrev store_count : Ptr → Option ℕ → WorldCmd (Unit {0})
store_count c v w = done tt (record w { counts = write w.counts c v })

-- `++(*cnt_)`
pub increment : Ptr → WorldCmd (Unit {0})
increment c = do n ← load_count c; store_count c (some ((n + 1) % 2 ^ 64))

-- `--(*cnt_)`, with the new value
pub decrement : Ptr → WorldCmd ℕ
decrement c = do
  n ← load_count c
  store_count c (some ((n + 2 ^ 64 - 1) % 2 ^ 64))
  pure ((n + 2 ^ 64 - 1) % 2 ^ 64)

-- `delete ptr_`
pub delete_object : Ptr → WorldCmd (Unit {0})
delete_object p w =
    if p == null
    then done tt w
    else if w.objects p
    then done tt (record w { objects = λ a. if a == p then false else w.objects a })
    else fault

-- `delete cnt_`
pub delete_count : Ptr → WorldCmd (Unit {0})
delete_count c = do load_count c; store_count c none

-- `release()` on an object with these members; its result is what they are afterwards.
pub release : SmartPtr → WorldCmd SmartPtr
unfolding increment decrement delete_object delete_count load_count
release h = if h.cnt_ == null then pure h else do
  n ← decrement h.cnt_
  if n == 0 then (do delete_object h.ptr_; delete_count h.cnt_; pure empty) else pure h

-- The members of a live variable.
pub read : ℕ → WorldCmd SmartPtr
read x w = elim (get_elem? w.vars x) [
  | none ↦ fault
  | some v ↦ elim v [ none ↦ fault | some h ↦ done h w ]
]

abbrev assign : ℕ → Option SmartPtr → WorldCmd (Unit {0})
assign x v w = done tt (record w { vars = set w.vars x v })

abbrev declare : SmartPtr → WorldCmd (Unit {0})
declare h w = done tt (record w { vars = w.vars ++ (some h ∷ []) })

-- `SmartPtr()`
pub construct_default : WorldCmd (Unit {0})
construct_default = declare empty

-- `SmartPtr(T* ptr)`, where `new size_t(1)` returns `c`
pub construct : (ptr c : Ptr) → WorldCmd (Unit {0})
construct ptr c = do store_count c (some 1); declare (record { ptr_ = ptr; cnt_ = c })

-- `SmartPtr(const SmartPtr<T>& other)`
pub copy_construct : ℕ → WorldCmd (Unit {0})
unfolding increment load_count read
copy_construct other = do o ← read other; increment o.cnt_; declare o

-- `operator=(const SmartPtr<T>& other)`
pub copy_assign : (this other : ℕ) → WorldCmd (Unit {0})
unfolding release read
copy_assign this other = do
  t ← read this
  o ← read other
  if t.ptr_ == o.ptr_ then pure tt else (do
    t' ← release t
    assign this (some t')
    o ← read other
    assign this (some o)
    increment o.cnt_)

-- `SmartPtr(SmartPtr<T>&& other)`
pub move_construct : ℕ → WorldCmd (Unit {0})
unfolding release read
move_construct other = do
  o ← read other
  increment o.cnt_
  declare o
  o' ← release o
  assign other (some o')

-- `operator=(SmartPtr<T>&& other)`
pub move_assign : (this other : ℕ) → WorldCmd (Unit {0})
unfolding release read
move_assign this other = do
  t ← read this
  o ← read other
  if t.ptr_ == o.ptr_ then pure tt else (do
    t' ← release t
    assign this (some t')
    o ← read other
    assign this (some o)
    increment o.cnt_
    o' ← release o
    assign other (some o'))

-- `~SmartPtr()`
pub destroy : ℕ → WorldCmd (Unit {0})
unfolding release read
destroy this = do h ← read this; release h; assign this none

-- `getCnt()`
pub get_cnt : ℕ → WorldCmd ℕ
unfolding read load_count
get_cnt this = do h ← read this; if h.cnt_ == null then pure 0 else load_count h.cnt_
