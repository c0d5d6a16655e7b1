-- ===== src/Duck.antt =====
-- head-first-design-pattern/ch1_策略模式/duck.cpp: ducks that own the objects that say how they fly
-- and quack. An object is its address and its class; `freed` has the addresses that were deleted.
pub mod Owner
mod Tests
use Prim.Native.String.{String}
use notes_coding.Base.{Option, none, some, List, [], ◌∷◌, ◌++◌}
use notes_coding.Memory.{Ptr}

-- The subclasses of `FlyBehavior`.
pub data FlyBehavior : Type 0 where
  fly_with_wings fly_no_way fly_rocket_powered : FlyBehavior

-- `fly()`: the line that is printed.
pub fly : FlyBehavior → String
fly fly_with_wings = "I'm flying!!!"
fly fly_no_way = "I cannot fly."
fly fly_rocket_powered = "I'm flying with a rocket!!!!!"

-- The subclasses of `QuackBehavior`.
pub data QuackBehavior : Type 0 where
  quack mute_quack squeak : QuackBehavior

-- `quark()`
pub quark : QuackBehavior → String
quark quack = "Quack"
quark mute_quack = "<Silence>"
quark squeak = "橡皮鸭子吱吱叫"

-- The subclasses of `Duck`.
pub data Breed : Type 0 where
  mallard_duck model_duck : Breed

-- `none` is a null pointer.
pub record Duck : Type 0 where
  pub breed : Breed
  pub fly_behavior : Option (Ptr × FlyBehavior)
  pub quack_behavior : Option (Ptr × QuackBehavior)
  pub freed : List Ptr

-- `delete` of a behaviour
abbrev pub delete : {B : Type 0} → Option (Ptr × B) → List Ptr → List Ptr
delete none freed = freed
delete (some (p, _)) freed = freed ++ p ∷ []

-- `MallardDuck()` and `ModelDuck()`, with the addresses of the two new objects.
pub new_duck : Breed → (fly_at quack_at : Ptr) → Duck
new_duck mallard_duck p q = record {
  breed = mallard_duck;
  fly_behavior = some (p, fly_with_wings);
  quack_behavior = some (q, quack);
  freed = [];
}
new_duck model_duck p q = record {
  breed = model_duck;
  fly_behavior = some (p, fly_no_way);
  quack_behavior = some (q, quack);
  freed = [];
}

-- `setFlyBehavior(FlyBehavior*)`
pub set_fly_behavior : Option (Ptr × FlyBehavior) → Duck → Duck
set_fly_behavior fb d = record d { fly_behavior = fb; freed = delete d.fly_behavior d.freed }

-- `setFlyBehavior(QuackBehavior*)`
pub set_quack_behavior : Option (Ptr × QuackBehavior) → Duck → Duck
set_quack_behavior qb d = record d {
  quack_behavior = qb;
  freed = elim d.fly_behavior [ none ↦ d.freed | some _ ↦ delete d.quack_behavior d.freed ];
}

-- `performFly()`: `none` if the pointer is null.
pub perform_fly : Duck → Option String
unfolding fly
perform_fly d = elim d.fly_behavior [ none ↦ none | some (_, b) ↦ some (fly b) ]

-- `performQuark()`
pub perform_quark : Duck → Option String
unfolding quark
perform_quark d = elim d.quack_behavior [ none ↦ none | some (_, b) ↦ some (quark b) ]

-- `display()`
pub display : Duck → String
display d = elim d.breed [
  | mallard_duck ↦ "I'm a real Mallard duck."
  | model_duck ↦ "I'm a mode duck."
]

-- `~Duck()`: what has been deleted at the end.
pub destroy : Duck → List Ptr
destroy d = delete d.fly_behavior (delete d.quack_behavior d.freed)
