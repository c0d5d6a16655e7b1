-- ===== src/FactoryMethod/Orders.antt =====
-- What comes of an order.
use Prim.Native.String.{String, ◌++◌ as ◌<>◌}
use text.Mathlib.Text.{◌==◌ as str_eq}
use notes_coding.Base.{
  ◌≡◌, refl, inl, inr, Bool, true, false, Option, none, some, List, [], ◌∷◌, Bool-cases,
}
use notes_coding.FactoryMethod.{
  Style, ny_style_cheeze_pizza, chicago_style_cheeze_pizza, Pizza, new_pizza, prepare, bake, cut_of,
  box, Store, ny_store, chicago_store, create_pizza, finish, order_pizza,
}

-- The style of a store, and its slices.
abbrev pub style_of : Store → Style
style_of ny_store = ny_style_cheeze_pizza
style_of chicago_store = chicago_style_cheeze_pizza

abbrev pub slices : Store → String
slices ny_store = "diagonal"
slices chicago_store = "square"

-- What an order ends in.
pub data Ordered (store : Store) (o : Option (Pizza × List String)) : Bool → Type 0 where
  served :
      (p : Pizza) (top : String)
      → p.style ≡ style_of store
      → p.toppings ≡ top ∷ []
      → o
        ≡ some (
          p,
          ("Preparing " <> p.name)
              ∷ "Tossing dough... "
              ∷ "Adding sauce... "
              ∷ "Adding topings:"
              ∷ ("\t" <> top)
              ∷ "Bake for 25 minutes at 350"
              ∷ ("Cutting the pizza into " <> (slices store <> " slices"))
              ∷ "Place pizza in offical PizzaStore box"
              ∷ [],
        )
      → Ordered store o true
  crashed : o ≡ none → Ordered store o false

-- An order of cheese is made in the store's own style, prepared with its one topping, baked, cut into
-- the store's kind of slices and boxed, in this order; an order of anything else uses a null pizza.
pub order_pizza-Ordered :
    (store : Store) (type : String) → Ordered store (order_pizza store type) (str_eq type "cheese")
unfolding order_pizza create_pizza finish new_pizza prepare bake cut_of box
order_pizza-Ordered ny_store type = elim (Bool-cases (str_eq type "cheese")) [
  | inl e ↦ rw e (served (new_pizza ny_style_cheeze_pizza) "Grated Reggiano Cheese" refl refl refl)
  | inr e ↦ rw e (crashed refl)
]
order_pizza-Ordered chicago_store type = elim (Bool-cases (str_eq type "cheese")) [
  | inl e ↦
      rw e
        (served (new_pizza chicago_style_cheeze_pizza) "Shredded Mozzarella Cheese" refl refl refl)
  | inr e ↦ rw e (crashed refl)
]
