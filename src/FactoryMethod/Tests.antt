-- ===== src/FactoryMethod/Tests.antt =====
-- Orders in Chicago.
use notes_coding.Base.{◌≡◌, refl, none, [], ◌∷◌}
use notes_coding.FactoryMethod.{
  chicago_store, chicago_style_cheeze_pizza, cut_of, create_pizza, finish, order_pizza,
}

square : cut_of chicago_style_cheeze_pizza ≡ "Cutting the pizza into square slices" ∷ []
unfolding cut_of
square = refl

nothing_else : order_pizza chicago_store "clam" ≡ none
unfolding order_pizza create_pizza finish
nothing_else = refl
