-- ===== src/Pizza.antt =====
-- head-first-design-pattern/ch4_工厂模式/3_AbstractFactoryPattern.cpp: pizza stores that get their
-- ingredients from a factory. `none` is an ingredient that was never set, or the use of a null
-- pizza.
pub mod Orders
mod Tests
use Prim.Native.String.{String, ◌++◌ as ◌<>◌}
use text.Mathlib.Text.{◌==◌ as str_eq}
use notes_coding.Base.{Bool, Option, none, some, List, [], ◌∷◌, ◌++◌, if◌then◌else◌}

pub data Dough : Type 0 where
  thin_crust_dough thick_crust_dough : Dough

pub data Sauce : Type 0 where
  marinara_sauce plum_tomato_sauce : Sauce

pub data Cheese : Type 0 where
  reggiano_cheese mozzarella : Cheese

pub data Veggies : Type 0 where
  garlic onion mashroom red_pepper black_olives egg_plant spinach : Veggies

pub data Pepperoni : Type 0 where
  sliced_prpperoni : Pepperoni

pub data Clams : Type 0 where
  fresh_clams frozen_clams : Clams

-- `PizzaIngredientFactory`
pub record PizzaIngredientFactory : Type 0 where
  pub create_dough : Dough
  pub create_sauce : Sauce
  pub create_cheese : Cheese
  pub create_veggies : List Veggies
  pub create_pepperoni : Pepperoni
  pub create_clams : Clams

-- `NYPizzaIngredientFactory`
abbrev pub ny_ingredients : PizzaIngredientFactory
ny_ingredients = record {
  create_dough = thin_crust_dough;
  create_sauce = marinara_sauce;
  create_cheese = reggiano_cheese;
  create_veggies = garlic ∷ onion ∷ mashroom ∷ red_pepper ∷ [];
  create_pepperoni = sliced_prpperoni;
  create_clams = frozen_clams;
}

-- `ChicagoPizzaIngredientFactory`
abbrev pub chicago_ingredients : PizzaIngredientFactory
chicago_ingredients = record {
  create_dough = thick_crust_dough;
  create_sauce = plum_tomato_sauce;
  create_cheese = mozzarella;
  create_veggies = black_olives ∷ egg_plant ∷ spinach ∷ red_pepper ∷ [];
  create_pepperoni = sliced_prpperoni;
  create_clams = fresh_clams;
}

-- The subclasses of `Pizza`.
pub data Recipe : Type 0 where
  cheese_pizza clam_pizza : Recipe

pub record Pizza : Type 0 where
  pub recipe : Recipe
  pub ingredient_factory : PizzaIngredientFactory
  pub name : String
  pub dough : Option Dough
  pub sauce : Option Sauce
  pub veggies : List Veggies
  pub cheese : Option Cheese
  pub pepperoni : Option Pepperoni
  pub clam : Option Clams

-- `new CheesePizza(factory, name)` and `new ClamPizza(factory, name)`
pub new_pizza : Recipe → PizzaIngredientFactory → String → Pizza
new_pizza recipe factory name = record {
  recipe = recipe;
  ingredient_factory = factory;
  name = name;
  dough = none;
  sauce = none;
  veggies = [];
  cheese = none;
  pepperoni = none;
  clam = none;
}

-- `prepare()`: the pizza, and the line that is printed.
pub prepare : Pizza → Pizza × String
prepare p =
    let f : PizzaIngredientFactory = p.ingredient_factory in
    let q : Pizza = record p {
      dough = some (f.create_dough);
      sauce = some (f.create_sauce);
      cheese = some (f.create_cheese);
    } in
    (
      elim p.recipe [ cheese_pizza ↦ q | clam_pizza ↦ record q { clam = some (f.create_clams) } ],
      "Prepare " <> p.name,
    )

abbrev pub bake : String
bake = "Bake for 25 minutes at 350"

abbrev pub cut : String
cut = "Cutting the pizza into diagonal slices"

abbrev pub box : String
box = "Place pizza in offical PizzaStore box"

-- `orderPizza(type)` of a store with this `createPizza`: the pizza, and the lines that are printed.
pub order_pizza : (create_pizza : String → Option Pizza) → String → Option (Pizza × List String)
unfolding prepare
order_pizza create_pizza type = elim (create_pizza type) [
  | none ↦ none
  | some pizza ↦
      let (prepared, line) = prepare pizza in some (prepared, line ∷ bake ∷ cut ∷ box ∷ [])
]

-- `NYPizzaStore::createPizza`
pub ny_create : String → Option Pizza
unfolding new_pizza
ny_create item =
    if str_eq item "cheese"
    then some (new_pizza cheese_pizza ny_ingredients "New York Style Cheese Pizza.")
    else if str_eq item "vaggie"
    then some (new_pizza cheese_pizza ny_ingredients "New York Style Veggie Pizza.")
    else if str_eq item "clam"
    then some (new_pizza cheese_pizza ny_ingredients "New York Style Clam Pizza.")
    else if str_eq item "pepperoni"
    then some (new_pizza cheese_pizza ny_ingredients "New York Style Pepponi Pizza.")
    else none

-- `ChicagoPizzaStore::createPizza`
pub chicago_create : String → Option Pizza
unfolding new_pizza
chicago_create item =
    if str_eq item "cheese"
    then some (new_pizza cheese_pizza ny_ingredients "Chicago Style Cheese Pizza.")
    else if str_eq item "vaggie"
    then some (new_pizza cheese_pizza ny_ingredients "Chicago Style Veggie Pizza.")
    else if str_eq item "clam"
    then some (new_pizza cheese_pizza ny_ingredients "Chicago Style Clam Pizza.")
    else if str_eq item "pepperoni"
    then some (new_pizza cheese_pizza ny_ingredients "Chicago Style Pepponi Pizza.")
    else none

pub data Store : Type 0 where
  ny_store chicago_store : Store

-- The `createPizza` of a store.
pub create_of : Store → String → Option Pizza
unfolding ny_create chicago_create
create_of ny_store item = ny_create item
create_of chicago_store item = chicago_create item
