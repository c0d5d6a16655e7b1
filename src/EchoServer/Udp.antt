-- ===== src/EchoServer/Udp.antt =====
-- What a client gets back over UDP.
use notes_coding.Base.{
  ℕ, zero, suc, ◌-◌, ◌<◌, ◌≤◌, ◌≡◌, refl, sym, ◌∙◌, ap, arith, List, [], ◌∷◌, ◌++◌, length,
  length-append, subst, take, take-all, replicate,
}
use notes_coding.EchoServer.{udp_buffer_size, Server, filled, answer, echo_udp}

take-replicate : (n : ℕ) → take {A = ℕ} n (replicate (suc n) 0) ≡ replicate n 0
take-replicate zero = refl
take-replicate (suc n) = ap (λ l. 0 ∷ l) (take-replicate n)

-- A buffer that is filled up with zeros, without its last byte.
take-padded :
    (n : ℕ) (xs : List ℕ)
    → length xs ≤ n
    → take n (xs ++ replicate (suc n - length xs) 0) ≡ xs ++ replicate (n - length xs) 0
take-padded n [] h =
    let e : suc n - 0 ≡ suc n = omega arith in
    let f : n ≡ n - 0 = omega arith in
    ap (λ m. take {A = ℕ} n (replicate m 0)) e
    ∙ take-replicate n
    ∙ ap (λ m. replicate {A = ℕ} m 0) f
take-padded zero (x ∷ xs) h = absurd (omega (arith, h))
take-padded (suc n) (x ∷ xs) h =
    let e : suc (suc n) - suc (length xs) ≡ suc n - length xs = omega arith in
    let f : n - length xs ≡ suc n - suc (length xs) = omega arith in
    ap (λ m. x ∷ take n (xs ++ replicate m 0)) e
    ∙ ap (λ l. x ∷ l) (take-padded n xs (omega (arith, h)))
    ∙ ap (λ m. x ∷ xs ++ replicate m 0) f

length-replicate : (n : ℕ) → length {A = ℕ} (replicate n 0) ≡ n
length-replicate zero = refl
length-replicate (suc n) = ap suc (length-replicate n)

take-filled :
    (xs : List ℕ)
    → length xs < udp_buffer_size
    → take (udp_buffer_size - 1) (filled xs) ≡ xs ++ replicate (udp_buffer_size - 1 - length xs) 0
unfolding filled
take-filled xs h =
    ap (λ l. take (udp_buffer_size - 1) (l ++ replicate (udp_buffer_size - length l) 0))
      (take-all (udp_buffer_size - 1) xs (omega (arith, h)))
    ∙ take-padded (udp_buffer_size - 1) xs (omega (arith, h))

-- The datagram `xs` of a client was answered with `reply`.
pub record Replied (s g : Server) (client : ℕ) (reply : List ℕ) (rest : List (ℕ × List ℕ))
    : Type 0 where
  pub replies : g.replies ≡ s.replies ++ (client, reply) ∷ []
  pub size : length reply ≡ udp_buffer_size - 1
  pub left : g.datagrams ≡ rest

-- A datagram of less than 1024 bytes that is not empty is sent back with zeros after it, so that every
-- reply has 1023 bytes; one event takes one datagram only, and the others go on waiting.
pub echo_udp-Replied :
    (client x : ℕ) (xs : List ℕ) (rest : List (ℕ × List ℕ)) (s : Server)
    → s.datagrams ≡ (client, x ∷ xs) ∷ rest
    → length (x ∷ xs) < udp_buffer_size
    → Replied s
        (echo_udp s)
        client
        (x ∷ xs ++ replicate (udp_buffer_size - 1 - length (x ∷ xs)) 0)
        rest
unfolding echo_udp
echo_udp-Replied client x xs rest s e h =
    let reply : List ℕ = x ∷ xs ++ replicate (udp_buffer_size - 1 - length (x ∷ xs)) 0 in
    subst (λ g. Replied s g client reply rest) (sym (ap (λ l. answer l s) e))
      (record {
        replies = ap (λ l. s.replies ++ (client, l) ∷ []) (take-filled (x ∷ xs) h);
        size =
            length-append (x ∷ xs) (replicate (udp_buffer_size - 1 - length (x ∷ xs)) 0)
            ∙ omega (arith, h, length-replicate (udp_buffer_size - 1 - length (x ∷ xs)));
        left = refl;
      })
