-- ===== src/Pizza/Tests.antt =====
-- Orders in the two stores.
use notes_coding.Pizza.{order_pizza, create_of, chicago_store}
use notes_coding.Pizza.Orders.{Result, on_menu, order_pizza-Result}

order_pizza-Result_example : Result (order_pizza (create_of chicago_store) "clam") (on_menu "clam")
order_pizza-Result_example = order_pizza-Result chicago_store "clam"
