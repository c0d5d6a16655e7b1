-- ===== src/StarBuzz.antt =====
-- head-first-design-pattern/ch3_装饰器模式/StarBuzz.cpp: beverages and the condiments that decorate them.
-- `double` is a type with an addition; `cents n` stands for the literal of n hundredths.
pub mod Orders
mod Tests
use Prim.Native.String.{String, ◌++◌ as ◌<>◌}
use notes_coding.Base.{ℕ, List, [], ◌∷◌}

pub data Beverage : Type 0 where
  espresso dark_roast house_blend : Beverage
  mocha soy whip : (beverage_ptr : Beverage) → Beverage

pub get_description : Beverage → String
get_description espresso = "Espresso"
get_description dark_roast = "DarkRoast"
get_description house_blend = "HouseBlend"
get_description (mocha p) = get_description p <> ", Mocha"
get_description (soy p) = get_description p <> ", Soy"
get_description (whip p) = get_description p <> ", Whip"

module _ {F : Type 0} (add : F → F → F) (cents : ℕ → F) where
  pub cost : Beverage → F
  cost espresso = cents 199
  cost dark_roast = cents 99
  cost house_blend = cents 89
  cost (mocha p) = add (cents 20) (cost p)
  cost (soy p) = add (cents 15) (cost p)
  cost (whip p) = add (cents 10) (cost p)
