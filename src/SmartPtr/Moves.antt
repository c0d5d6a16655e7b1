-- ===== src/SmartPtr/Moves.antt =====
-- The move constructor of smart_ptr.cpp.
use notes_coding.Base.{ℕ, ◌≡◌, Bool, true, false, Option, some, [], ◌∷◌, arith, ◌==◌}
use notes_coding.Memory.{Ptr, null, write, fault, ◌>>◌}
use notes_coding.SmartPtr.{
  World, load_count, increment, decrement, delete_object, delete_count, move_construct, destroy,
}

-- A world with one variable, the only one of its object.
abbrev pub sole : (ptr c : Ptr) → (Ptr → Bool) → (Ptr → Option ℕ) → World
sole ptr c objects counts = record {
  objects = objects;
  counts = write counts c (some 1);
  vars = some (record { ptr_ = ptr; cnt_ = c }) ∷ [];
}

-- A variable moved from the only one of an object: when the new variable goes, the object and the
-- count are freed, and when the old one goes after it, it touches the freed count.
pub move_construct-fault :
    (ptr c : Ptr) (objects : Ptr → Bool) (counts : Ptr → Option ℕ)
    → (ptr == null) ≡ false
    → (c == null) ≡ false
    → objects ptr ≡ true
    → (move_construct 0 >> destroy 1 >> destroy 0) (sole ptr c objects counts) ≡ fault
unfolding move_construct destroy increment decrement delete_object delete_count load_count write
move_construct-fault ptr c objects counts p-real c-real on = ground arith
