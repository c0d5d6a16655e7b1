-- ===== src/Pizza/Orders.antt =====
-- What comes of an order.
use Prim.Native.String.{String, ◌++◌ as ◌<>◌}
use text.Mathlib.Text.{◌==◌ as str_eq}
use notes_coding.Base.{
  ◌≡◌, refl, inl, inr, Bool, true, false, ◌||◌, Option, none, some, List, [], ◌∷◌, Bool-cases,
}
use notes_coding.Pizza.{
  thin_crust_dough, marinara_sauce, reggiano_cheese, Pizza, ny_ingredients, cheese_pizza, new_pizza,
  prepare, order_pizza, ny_create, chicago_create, Store, ny_store, chicago_store, create_of, bake,
  cut, box,
}

abbrev pub on_menu : String → Bool
on_menu item =
    str_eq item "cheese" || str_eq item "vaggie" || str_eq item "clam" || str_eq item "pepperoni"

-- What both stores make: a cheese pizza from the ingredients of New York, or nothing.
Makes : Option Pizza → Bool → Type 0
Makes o true = (name : String) × (o ≡ some (new_pizza cheese_pizza ny_ingredients name))
Makes o false = o ≡ none

ny-Makes : (item : String) → Makes (ny_create item) (on_menu item)
unfolding Makes ny_create
ny-Makes item = elim (Bool-cases (str_eq item "cheese")) [
  | inl a ↦ rw a ("New York Style Cheese Pizza.", refl)
  | inr a ↦ elim (Bool-cases (str_eq item "vaggie")) [
    | inl b ↦ rw (a, b) ("New York Style Veggie Pizza.", refl)
    | inr b ↦ elim (Bool-cases (str_eq item "clam")) [
      | inl c ↦ rw (a, b, c) ("New York Style Clam Pizza.", refl)
      | inr c ↦ elim (Bool-cases (str_eq item "pepperoni")) [
        | inl d ↦ rw (a, b, c, d) ("New York Style Pepponi Pizza.", refl)
        | inr d ↦ rw (a, b, c, d) refl
      ]
    ]
  ]
]

chicago-Makes : (item : String) → Makes (chicago_create item) (on_menu item)
unfolding Makes chicago_create
chicago-Makes item = elim (Bool-cases (str_eq item "cheese")) [
  | inl a ↦ rw a ("Chicago Style Cheese Pizza.", refl)
  | inr a ↦ elim (Bool-cases (str_eq item "vaggie")) [
    | inl b ↦ rw (a, b) ("Chicago Style Veggie Pizza.", refl)
    | inr b ↦ elim (Bool-cases (str_eq item "clam")) [
      | inl c ↦ rw (a, b, c) ("Chicago Style Clam Pizza.", refl)
      | inr c ↦ elim (Bool-cases (str_eq item "pepperoni")) [
        | inl d ↦ rw (a, b, c, d) ("Chicago Style Pepponi Pizza.", refl)
        | inr d ↦ rw (a, b, c, d) refl
      ]
    ]
  ]
]

create-Makes : (store : Store) (item : String) → Makes (create_of store item) (on_menu item)
unfolding create_of
create-Makes ny_store item = ny-Makes item
create-Makes chicago_store item = chicago-Makes item

-- A prepared pizza, with the lines that were printed.
pub record Ordered (p : Pizza) (lines : List String) : Type 0 where
  pub dough : p.dough ≡ some thin_crust_dough
  pub sauce : p.sauce ≡ some marinara_sauce
  pub cheese : p.cheese ≡ some reggiano_cheese
  pub no_clam : p.clam ≡ none
  pub steps : lines ≡ ("Prepare " <> p.name) ∷ bake ∷ cut ∷ box ∷ []

-- What an order ends in.
pub data Result (o : Option (Pizza × List String)) : Bool → Type 0 where
  served : (p : Pizza) (lines : List String) → o ≡ some (p, lines) → Ordered p lines → Result o true
  crashed : o ≡ none → Result o false

order-Makes :
    (create : String → Option Pizza) (item : String) (b : Bool)
    → Makes (create item) b
    → Result (order_pizza create item) b
unfolding Makes order_pizza prepare new_pizza
order-Makes create item true (name, e) =
    let (pizza, line) = prepare (new_pizza cheese_pizza ny_ingredients name) in
    served pizza (line ∷ bake ∷ cut ∷ box ∷ []) (rw (order_pizza, e) refl)
      (record { dough = refl; sauce = refl; cheese = refl; no_clam = refl; steps = refl })
order-Makes create item false e = crashed (rw (order_pizza, e) refl)

-- An order in either store of something on the menu is prepared, baked, cut and boxed in this order,
-- and has thin dough, marinara sauce and reggiano cheese, and no clams, in Chicago and for a clam pizza
-- too; an order of anything else uses a null pizza.
pub order_pizza-Result :
    (store : Store) (item : String) → Result (order_pizza (create_of store) item) (on_menu item)
order_pizza-Result store item =
    order-Makes (create_of store) item (on_menu item) (create-Makes store item)
