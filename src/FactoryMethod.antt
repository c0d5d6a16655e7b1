-- ===== src/FactoryMethod.antt =====
-- head-first-design-pattern/ch4_工厂模式/2_FactoryMethod.cpp: pizza stores that leave the making of a
-- pizza to a method of their kind. A null pizza that is used is `none`.
pub mod Orders
mod Tests
use Prim.Native.String.{String, ◌++◌ as ◌<>◌}
use text.Mathlib.Text.{◌==◌ as str_eq}
use notes_coding.Base.{Option, none, some, List, [], ◌∷◌, ◌++◌, map, if◌then◌else◌}

-- The class of a pizza.
pub data Style : Type 0 where
  ny_style_cheeze_pizza chicago_style_cheeze_pizza : Style

pub record Pizza : Type 0 where
  pub style : Style
  pub name : String
  pub dough : String
  pub sauce : String
  pub toppings : List String

-- The constructors.
pub new_pizza : Style → Pizza
new_pizza ny_style_cheeze_pizza = record {
  style = ny_style_cheeze_pizza;
  name = "NY Style Sauce and Cheese Pizza";
  dough = "Thin Crust Dough";
  sauce = "Marinara Sauce";
  toppings = "Grated Reggiano Cheese" ∷ [];
}
new_pizza chicago_style_cheeze_pizza = record {
  style = chicago_style_cheeze_pizza;
  name = "Chicago Style Deep Dish Cheese Pizza";
  dough = "Extra Thick Crust Dough";
  sauce = "Plum Tomato Sauce";
  toppings = "Shredded Mozzarella Cheese" ∷ [];
}

-- What the steps print.
pub prepare : Pizza → List String
prepare p =
    ("Preparing " <> p.name)
    ∷ "Tossing dough... "
    ∷ "Adding sauce... "
    ∷ "Adding topings:"
    ∷ map (λ top. "\t" <> top) p.toppings

pub bake : Pizza → List String
bake p = "Bake for 25 minutes at 350" ∷ []

-- `cut` is a virtual function.
pub cut_of : Style → List String
cut_of ny_style_cheeze_pizza = "Cutting the pizza into diagonal slices" ∷ []
cut_of chicago_style_cheeze_pizza = "Cutting the pizza into square slices" ∷ []

pub box : Pizza → List String
box p = "Place pizza in offical PizzaStore box" ∷ []

-- `NYStylePizzaStore` and `ChicagoStylePizzaStore`
pub data Store : Type 0 where
  ny_store chicago_store : Store

pub create_pizza : Store → String → Option Pizza
unfolding new_pizza
create_pizza ny_store type =
    if str_eq type "cheese" then some (new_pizza ny_style_cheeze_pizza) else none
create_pizza chicago_store type =
    if str_eq type "cheese" then some (new_pizza chicago_style_cheeze_pizza) else none

-- The steps of `orderPizza` with what was made.
pub finish : Option Pizza → Option (Pizza × List String)
unfolding prepare bake cut_of box
finish none = none
finish (some p) = some (p, prepare p ++ bake p ++ cut_of p.style ++ box p)

-- The pizza, and the lines that are printed.
pub order_pizza : Store → String → Option (Pizza × List String)
unfolding create_pizza finish
order_pizza store type = finish (create_pizza store type)
