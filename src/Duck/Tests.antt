-- ===== src/Duck/Tests.antt =====
-- A model duck that gets a rocket and then a squeak.
use notes_coding.Base.{◌≡◌, refl, some, List, [], ◌∷◌}
use notes_coding.Duck.{
  fly_rocket_powered, squeak, fly, model_duck, new_duck, set_fly_behavior, set_quack_behavior,
  perform_fly,
}
use notes_coding.Duck.Owner.{Change, to_fly, to_quack, change_all}

abbrev changes : List Change
changes = to_fly 3 fly_rocket_powered ∷ to_quack 4 squeak ∷ []

rocket :
    perform_fly (change_all changes (new_duck model_duck 1 2))
    ≡ some "I'm flying with a rocket!!!!!"
unfolding change_all new_duck perform_fly set_fly_behavior set_quack_behavior fly
rocket = refl
