-- ===== src/ParallelAccumulate/Blocks.antt =====
-- The blocks make up the range, and the sum of their sums is its sum.
use notes_coding.Base.{
  ℕ, zero, suc, ◌+◌, ◌-◌, ◌*◌, ◌/◌, ◌^◌, ◌<◌, ◌≤◌, ◌≡◌, ◌≢◌, refl, ap, sym, ◌∙◌, arith, false, some,
  List, [], ◌∷◌, ◌++◌, map, length, take, drop, append-take-drop, length-drop, ltb, ◌==◌,
}
use native.Mathlib.Nat.{mul-div-le}
use notes_coding.ParallelAccumulate.{
  num_threads, accumulate, blocks, accumulate_block, run_all, parallel_accumulate,
}
use notes_coding.ParallelAccumulate.Order.{count, run_all-map}

num_threads-pos : (hardware n : ℕ) → n ≢ 0 → n + 24 < 2 ^ 64 → 0 < num_threads hardware n
num_threads-pos hardware n some_of fits = ground arith

-- The blocks of the other threads do not go beyond the end.
share-le : (n k : ℕ) → (k - 1) * (n / k) ≤ n
share-le n zero = omega arith
share-le n (suc k) =
    let pred : suc k - 1 ≡ k = omega arith in rw pred (omega (arith, mul-div-le n (suc k)))

module _ {T : Type 0} (add : T → T → T) (default : T) where
  accumulate-append :
      (xs ys : List T) (a : T)
      → accumulate add default (xs ++ ys) a
        ≡ accumulate add default ys (accumulate add default xs a)
  unfolding accumulate
  accumulate-append [] ys a = refl
  accumulate-append (x ∷ xs) ys a = accumulate-append xs ys (add a x)

  module _ (assoc : (a b c : T) → add (add a b) c ≡ add a (add b c))
      (left : (a : T) → add default a ≡ a) (right : (a : T) → add a default ≡ a) where
    accumulate-add :
        (xs : List T) (a : T)
        → accumulate add default xs a ≡ add a (accumulate add default xs default)
    unfolding accumulate
    accumulate-add [] a = sym (right a)
    accumulate-add (x ∷ xs) a =
        accumulate-add xs (add a x)
        ∙ assoc a x (accumulate add default xs default)
        ∙ ap (λ b. add a b)
            (ap (λ c. add c (accumulate add default xs default)) (sym (left x))
              ∙ sym (accumulate-add xs (add default x)))

    -- Blocks whose sums add up to the sum of the range.
    record Cut (k : ℕ) (xs : List T) (bs : List (List T)) : Type 0 where
      number : length bs ≡ suc k
      total :
          (init : T)
          → accumulate add default (map (λ b. accumulate add default b default) bs) init
            ≡ accumulate add default xs init

    blocks-Cut :
        (k block_size : ℕ) (xs : List T)
        → k * block_size ≤ length xs
        → (bs : List (List T)) × (blocks add default k block_size xs ≡ some bs) × Cut k xs bs
    unfolding blocks accumulate
    blocks-Cut zero size xs fits =
        (xs ∷ [], refl, record { number = refl; total = λ init. sym (accumulate-add xs init) })
    blocks-Cut (suc k) size xs fits =
        let rest_fits : k * size ≤ length (drop size xs) = omega (arith, length-drop size xs) in
        let (bs, e, cut) = blocks-Cut k size (drop size xs) rest_fits in
        let room : ltb (length xs) size ≡ false = ground arith in
        (
          take size xs ∷ bs,
          rw (room, e) refl,
          record {
            number = ap suc cut.number;
            total = λ init.
                cut.total (add init (accumulate add default (take size xs) default))
                ∙ ap (accumulate add default (drop size xs))
                    (sym (accumulate-add (take size xs) init))
                ∙ sym (accumulate-append (take size xs) (drop size xs) init)
                ∙ ap (λ l. accumulate add default l init) (append-take-drop size xs);
          },
        )

    results :
        (bs : List (List T))
        → map (λ s. s.1) (map (accumulate_block add default) (map (λ b. (b, default)) bs))
          ≡ map (λ b. accumulate add default b default) bs
    results [] = refl
    results (b ∷ bs) = ap (λ l. accumulate add default b default ∷ l) (results bs)

    slots : List (List T) → List (List T × T)
    slots bs = map (λ b. (b, default)) bs

    length-slots : (bs : List (List T)) → length (slots bs) ≡ length bs
    unfolding slots
    length-slots [] = refl
    length-slots (b ∷ bs) = ap suc (length-slots bs)

    -- In whatever order the threads do their work, each once, and however many there are, the result
    -- is that of adding up the range in order, if the addition is associative, with `T()` as its unit,
    -- and the length of the range does not overflow.
    pub parallel_accumulate-accumulate :
        (hardware : ℕ) (order : List ℕ) (xs : List T) (init : T)
        → length xs + 24 < 2 ^ 64
        → ((j : ℕ) → j < num_threads hardware (length xs) → count j order ≡ 1)
        → parallel_accumulate add default hardware order xs init
          ≡ some (accumulate add default xs init)
    unfolding parallel_accumulate accumulate slots
    parallel_accumulate-accumulate hardware order [] init fits once = refl
    parallel_accumulate-accumulate hardware order (x ∷ xs) init fits once =
        let ys : List T = x ∷ xs in
        let n : ℕ = num_threads hardware (length ys) in
        let busy : 0 < n = num_threads-pos hardware (length ys) (omega arith) fits in
        let miss : (length ys == 0) ≡ false = ground arith in
        let (bs, e, cut) = blocks-Cut (n - 1) (length ys / n) ys (share-le (length ys) n) in
        let all : length (slots bs) ≡ n = omega (arith, length-slots bs, cut.number) in
        let ran : run_all add default order (slots bs)
            ≡ map (accumulate_block add default) (slots bs) =
          run_all-map add default order (slots bs) (λ j h. once j (omega (arith, h, all))) in
        rw (miss, e)
          (ap (λ l. some (accumulate add default l init)) (ap (map (λ s. s.1)) ran ∙ results bs)
            ∙ ap some (cut.total init))
