-- ===== src/StarBuzz/Orders.antt =====
-- The order of the condiments.
use mathlib.Core.List.{Permᴰ}
use notes_coding.Base.{ℕ, ◌≡◌, refl, sym, ◌∙◌, ap, List, [], ◌∷◌}
use notes_coding.StarBuzz.{Beverage, mocha, soy, whip, cost}

pub data Condiment : Type 0 where
  a_mocha a_soy a_whip : Condiment

abbrev pub wrap : Condiment → Beverage → Beverage
wrap a_mocha b = mocha b
wrap a_soy b = soy b
wrap a_whip b = whip b

-- The condiments of a list, the last one of it first.
abbrev pub decorate : List Condiment → Beverage → Beverage
decorate [] b = b
decorate (c ∷ cs) b = wrap c (decorate cs b)

price : Condiment → ℕ
price a_mocha = 20
price a_soy = 15
price a_whip = 10

module _ {F : Type 0} (add : F → F → F) (cents : ℕ → F) where
  cost-wrap :
      (c : Condiment) (b : Beverage)
      → cost add cents (wrap c b) ≡ add (cents (price c)) (cost add cents b)
  unfolding cost price
  cost-wrap a_mocha b = refl
  cost-wrap a_soy b = refl
  cost-wrap a_whip b = refl

  -- With an exact addition, where the order of two summands does not matter, a beverage costs the same
  -- in whatever order the same condiments are added to it.
  pub cost-Perm :
      ((x y z : F) → add x (add y z) ≡ add y (add x z))
      → {cs ds : List Condiment} → Permᴰ cs ds
      → (drink : Beverage) → cost add cents (decorate cs drink) ≡ cost add cents (decorate ds drink)
  cost-Perm comm Permᴰ.nil drink = refl
  cost-Perm comm (Permᴰ.cons {a = a} {b = b} {l₁ = l} {l₂ = k} e q) drink =
      cost-wrap a (decorate l drink)
      ∙ ap (add (cents (price a))) (cost-Perm comm q drink)
      ∙ sym (cost-wrap a (decorate k drink))
      ∙ ap (λ d. cost add cents (wrap d (decorate k drink))) e
  cost-Perm comm (Permᴰ.swap {a} {b} {a'} {b'} {l} e f) drink =
      cost-wrap a (wrap b (decorate l drink))
      ∙ ap (add (cents (price a))) (cost-wrap b (decorate l drink))
      ∙ comm (cents (price a)) (cents (price b)) (cost add cents (decorate l drink))
      ∙ sym (ap (add (cents (price b))) (cost-wrap a (decorate l drink)))
      ∙ sym (cost-wrap b (wrap a (decorate l drink)))
      ∙ ap (λ d. cost add cents (wrap d (wrap a (decorate l drink)))) f
      ∙ ap (λ d. cost add cents (wrap a' (wrap d (decorate l drink)))) e
  cost-Perm comm (Permᴰ.trans q r) drink = cost-Perm comm q drink ∙ cost-Perm comm r drink
