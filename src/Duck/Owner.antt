-- ===== src/Duck/Owner.antt =====
-- A duck deletes what it was given.
use notes_coding.Base.{◌≡◌, refl, sym, subst, some, List, [], ◌∷◌, ◌++◌}
use notes_coding.Memory.{Ptr}
use mathlib.Core.List.{Perm, perm_middle, append-nil, append_assoc}
use mathlib.Core.List as L
use notes_coding.Duck.{
  FlyBehavior, QuackBehavior, fly, quark, fly_with_wings, fly_no_way, quack, Breed, mallard_duck,
  model_duck, Duck, new_duck, set_fly_behavior, set_quack_behavior, perform_fly, perform_quark,
  destroy,
}

-- A call of one of the two setters with an object.
pub data Change : Type 0 where
  to_fly : Ptr → FlyBehavior → Change
  to_quack : Ptr → QuackBehavior → Change

unfoldable pub change_all : List Change → Duck → Duck
unfolding set_fly_behavior set_quack_behavior
change_all [] d = d
change_all (to_fly p b ∷ cs) d = change_all cs (set_fly_behavior (some (p, b)) d)
change_all (to_quack q b ∷ cs) d = change_all cs (set_quack_behavior (some (q, b)) d)

-- The objects that the setters were given, the last way to fly, and the last way to quack.
unfoldable pub given : List Change → List Ptr
given [] = []
given (to_fly p b ∷ cs) = p ∷ given cs
given (to_quack q b ∷ cs) = q ∷ given cs

unfoldable pub last_fly : FlyBehavior → List Change → FlyBehavior
last_fly b [] = b
last_fly b (to_fly p c ∷ cs) = last_fly c cs
last_fly b (to_quack q c ∷ cs) = last_fly b cs

unfoldable pub last_quack : QuackBehavior → List Change → QuackBehavior
last_quack b [] = b
last_quack b (to_fly p c ∷ cs) = last_quack b cs
last_quack b (to_quack q c ∷ cs) = last_quack c cs

abbrev duck : Breed → Ptr → FlyBehavior → Ptr → QuackBehavior → List Ptr → Duck
duck r p b q c freed = record {
  breed = r;
  fly_behavior = some (p, b);
  quack_behavior = some (q, c);
  freed = freed;
}

-- The duck flies and quacks as it was told last, and deletes in the end what it was given.
pub record Owns (objects : List Ptr) (b : FlyBehavior) (c : QuackBehavior) (d : Duck) : Type 0 where
  pub flies : perform_fly d ≡ some (fly b)
  pub quacks : perform_quark d ≡ some (quark c)
  pub deletes : Perm (destroy d) objects

regroup :
    (freed : List Ptr) (p : Ptr) (xs ys : List Ptr)
    → Perm (p ∷ xs) ys
    → Perm ((freed ++ p ∷ []) ++ xs) (freed ++ ys)
regroup freed p xs ys h =
    subst (λ l. Perm l (freed ++ ys)) (sym (append_assoc freed (p ∷ []) xs))
      (L.Perm.append_left freed h)

change_all-Owns :
    (cs : List Change) (r : Breed) (p q : Ptr) (b : FlyBehavior) (c : QuackBehavior)
    (freed : List Ptr)
    → Owns
        (freed ++ p ∷ q ∷ given cs)
        (last_fly b cs)
        (last_quack c cs)
        (change_all cs (duck r p b q c freed))
unfolding change_all given last_fly last_quack perform_fly perform_quark destroy
change_all-Owns [] r p q b c freed = record {
  flies = refl;
  quacks = refl;
  deletes = regroup freed q (p ∷ []) (p ∷ q ∷ []) (L.Perm.swap p q []);
}
change_all-Owns (to_fly p' b' ∷ cs) r p q b c freed =
    let rest = change_all-Owns cs r p' q b' c (freed ++ p ∷ []) in
    record {
      flies = rest.flies;
      quacks = rest.quacks;
      deletes = L.Perm.trans rest.deletes (
          regroup freed p (p' ∷ q ∷ given cs) (p ∷ q ∷ p' ∷ given cs)
            (L.Perm.cons p (L.Perm.swap q p' (given cs))));
    }
change_all-Owns (to_quack q' c' ∷ cs) r p q b c freed =
    let rest = change_all-Owns cs r p q' b c' (freed ++ q ∷ []) in
    record {
      flies = rest.flies;
      quacks = rest.quacks;
      deletes = L.Perm.trans rest.deletes (
          regroup freed q (p ∷ q' ∷ given cs) (p ∷ q ∷ q' ∷ given cs)
            (L.Perm.swap p q (q' ∷ given cs)));
    }

-- How the two kinds of ducks are made.
unfoldable pub first_fly : Breed → FlyBehavior
first_fly mallard_duck = fly_with_wings
first_fly model_duck = fly_no_way

-- After any calls of the setters with objects, a mallard or a model duck flies and quacks as it was
-- told last, from its breed's ways on, and when it is deleted it has deleted each object that it made
-- or was given as often as it was given.
pub new_duck-Owns :
    (r : Breed) (p q : Ptr) (cs : List Change)
    → Owns
        (p ∷ q ∷ given cs)
        (last_fly (first_fly r) cs)
        (last_quack quack cs)
        (change_all cs (new_duck r p q))
unfolding new_duck first_fly
new_duck-Owns mallard_duck p q cs = change_all-Owns cs mallard_duck p q fly_with_wings quack []
new_duck-Owns model_duck p q cs = change_all-Owns cs model_duck p q fly_no_way quack []
