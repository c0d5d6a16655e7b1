-- ===== src/ForkRoom/Bytes.antt =====
-- The bytes of the shared memory that chatroom_server.cc writes and reads.
use notes_coding.Base.{
  ℕ, zero, suc, ◌+◌, ◌-◌, ◌*◌, ◌<◌, ◌≤◌, ◌≡◌, ◌⊎◌, inl, inr, refl, ap, ◌∙◌, arith, List, [], ◌∷◌,
  ◌++◌, length, take, replicate, update, update_same, update_other,
}
use notes_coding.ForkRoom.{buffer_size, memset, put, slice, fill}

-- `a` is none of the `n` addresses from `from` on.
abbrev pub IsOutside : (from n a : ℕ) → Type 0
IsOutside from n a = (a < from) ⊎ (from + n ≤ a)

memset-outside :
    (from n : ℕ) (mem : ℕ → ℕ) (a : ℕ) → IsOutside from n a → memset from n mem a ≡ mem a
unfolding memset
memset-outside from zero mem a out = refl
memset-outside from (suc n) mem a (inl below) =
    update_other (memset (suc from) n mem) from a 0 (λ e. absurd (omega (arith, e, below)))
    ∙ memset-outside (suc from) n mem a (inl (omega (arith, below)))
memset-outside from (suc n) mem a (inr above) =
    update_other (memset (suc from) n mem) from a 0 (λ e. absurd (omega (arith, e, above)))
    ∙ memset-outside (suc from) n mem a (inr (omega (arith, above)))

put-outside :
    (from n : ℕ) (xs : List ℕ) (mem : ℕ → ℕ) (a : ℕ)
    → length xs ≤ n
    → IsOutside from n a
    → put from xs mem a ≡ mem a
unfolding put
put-outside from n [] mem a h out = refl
put-outside from zero (x ∷ xs) mem a h out = absurd (omega (arith, h))
put-outside from (suc n) (x ∷ xs) mem a h (inl below) =
    update_other (put (suc from) xs mem) from a x (λ e. absurd (omega (arith, e, below)))
    ∙ put-outside (suc from) n xs mem a (omega (arith, h)) (inl (omega (arith, below)))
put-outside from (suc n) (x ∷ xs) mem a h (inr above) =
    update_other (put (suc from) xs mem) from a x (λ e. absurd (omega (arith, e, above)))
    ∙ put-outside (suc from) n xs mem a (omega (arith, h)) (inr (omega (arith, above)))

slice-below :
    (from n a x : ℕ) (mem : ℕ → ℕ) → a < from → slice from n (update mem a x) ≡ slice from n mem
unfolding slice
slice-below from zero a x mem h = refl
slice-below from (suc n) a x mem h =
    ap (λ b. b ∷ slice (suc from) n (update mem a x))
      (update_other mem a from x (λ e. absurd (omega (arith, e, h))))
    ∙ ap (λ l. mem from ∷ l) (slice-below (suc from) n a x mem (omega (arith, h)))

slice-memset : (from n : ℕ) (mem : ℕ → ℕ) → slice from n (memset from n mem) ≡ replicate n 0
unfolding slice memset
slice-memset from zero mem = refl
slice-memset from (suc n) mem =
    ap (λ b. b ∷ slice (suc from) n (update (memset (suc from) n mem) from 0))
      (update_same (memset (suc from) n mem) from 0)
    ∙ ap (λ l. 0 ∷ l)
        (slice-below (suc from) n from 0 (memset (suc from) n mem) (omega arith)
          ∙ slice-memset (suc from) n mem)

-- What is written is read back, with what was there after it.
slice-put :
    (from n : ℕ) (xs : List ℕ) (mem : ℕ → ℕ)
    → length xs ≤ n
    → slice from n mem ≡ replicate n 0
    → slice from n (put from xs mem) ≡ xs ++ replicate (n - length xs) 0
unfolding slice put
slice-put from n [] mem h zeros =
    let e : n ≡ n - 0 = omega arith in zeros ∙ ap (λ k. replicate k 0) e
slice-put from zero (x ∷ xs) mem h zeros = absurd (omega (arith, h))
slice-put from (suc n) (x ∷ xs) mem h zeros =
    let e : n - length xs ≡ suc n - length (x ∷ xs) = omega arith in
    ap (λ b. b ∷ slice (suc from) n (update (put (suc from) xs mem) from x))
      (update_same (put (suc from) xs mem) from x)
    ∙ ap (λ l. x ∷ l)
        (slice-below (suc from) n from x (put (suc from) xs mem) (omega arith)
          ∙ slice-put (suc from) n xs mem (omega (arith, h)) (ap tail zeros)
          ∙ ap (λ k. xs ++ replicate k 0) e)
  where
    tail : List ℕ → List ℕ
    tail [] = []
    tail (y ∷ ys) = ys

length-take : (n : ℕ) (xs : List ℕ) → length (take n xs) ≤ n
length-take zero xs = omega arith
length-take (suc n) [] = omega arith
length-take (suc n) (x ∷ xs) = omega (arith, length-take n xs)

abbrev in_segment : (xs : List ℕ) → length (take (buffer_size - 1) xs) ≤ buffer_size
in_segment xs = omega (arith, length-take (buffer_size - 1) xs)

-- The bytes outside of a segment are kept when it is filled.
pub fill-outside :
    (idx : ℕ) (xs : List ℕ) (mem : ℕ → ℕ) (a : ℕ)
    → IsOutside (idx * buffer_size) buffer_size a
    → fill idx xs mem a ≡ mem a
unfolding fill
fill-outside idx xs mem a out =
    put-outside (idx * buffer_size) buffer_size (take (buffer_size - 1) xs)
      (memset (idx * buffer_size) buffer_size mem) a (in_segment xs) out
    ∙ memset-outside (idx * buffer_size) buffer_size mem a out

-- A filled segment holds the first bytes, and zeros.
pub slice-fill :
    (idx : ℕ) (xs : List ℕ) (mem : ℕ → ℕ)
    → slice (idx * buffer_size) buffer_size (fill idx xs mem)
      ≡ take (buffer_size - 1) xs ++ replicate (buffer_size - length (take (buffer_size - 1) xs)) 0
unfolding fill
slice-fill idx xs mem =
    slice-put (idx * buffer_size) buffer_size (take (buffer_size - 1) xs)
      (memset (idx * buffer_size) buffer_size mem) (in_segment xs)
      (slice-memset (idx * buffer_size) buffer_size mem)
