-- ===== src/EchoServer/Tcp.antt =====
-- What a client gets back over TCP.
use notes_coding.Base.{
  ℕ, zero, suc, ◌+◌, ◌-◌, ◌<◌, ◌≡◌, ◌≢◌, refl, sym, ◌∙◌, ap, subst, arith, Bool, true, false, some,
  List, [], ◌∷◌, ◌++◌, length, length-drop, take, drop, append-take-drop, update_same, update_other,
}
use mathlib.Core.List.{append_assoc, append-nil}
use notes_coding.EchoServer.{
  tcp_buffer_size, Connection, Server, close, taken, send, receive, recv, left, received, echo_tcp,
}

-- Of what the client had sent, the first bytes that its send buffer has room for are sent back, nothing
-- is left to read, the other connections and datagrams are as they were, and `closing` are the calls of
-- `close`.
pub record Echoed (s g : Server) (fd : ℕ) (closing : List ℕ) : Type 0 where
  pub sent : (g.conn fd).sent ≡ (s.conn fd).sent ++ take (s.conn fd).room (s.conn fd).incoming
  pub empty : (g.conn fd).incoming ≡ []
  pub others : (other : ℕ) → fd ≢ other → g.conn other ≡ s.conn other
  pub replies : g.replies ≡ s.replies
  pub datagrams : g.datagrams ≡ s.datagrams
  pub closes : g.closes ≡ s.closes ++ closing

take-nil : (r : ℕ) → take {A = ℕ} r [] ≡ []
take-nil zero = refl
take-nil (suc r) = refl

take-append : (r : ℕ) (xs ys : List ℕ) → take r (xs ++ ys) ≡ take r xs ++ take (r - length xs) ys
take-append r [] ys =
    let e : r ≡ r - 0 = omega arith in
    ap (λ k. take k ys) e ∙ ap (λ l. l ++ take (r - 0) ys) (sym (take-nil r))
take-append zero (x ∷ xs) ys =
    let e : 0 ≡ zero - length (x ∷ xs) = omega arith in ap (λ k. take k ys) e
take-append (suc r) (x ∷ xs) ys =
    let e : r - length xs ≡ suc r - length (x ∷ xs) = omega arith in
    ap (λ l. x ∷ l) (take-append r xs ys) ∙ ap (λ k. x ∷ take r xs ++ take k ys) e

-- One round that reads something.
module _ (s : Server) (fd x : ℕ) (xs : List ℕ) where
  abbrev n : ℕ
  n = tcp_buffer_size - 1

  abbrev cut : Connection
  cut = record (s.conn fd) { incoming = drop n (x ∷ xs) }

  abbrev unread : Server
  unread = left fd (drop n (x ∷ xs)) s

  abbrev next : Server
  next = send fd (take n (x ∷ xs)) unread

  next-conn : next.conn fd ≡ taken (take n (x ∷ xs)) cut
  next-conn =
      update_same unread.conn fd (taken (take n (x ∷ xs)) (unread.conn fd))
      ∙ ap (λ (c : Connection). taken (take n (x ∷ xs)) c) (update_same s.conn fd cut)

  -- The bytes of this round and of those after it.
  all_taken :
      (r : ℕ)
      → take r (take n (x ∷ xs)) ++ take (r - length (take n (x ∷ xs))) (drop n (x ∷ xs))
        ≡ take r (x ∷ xs)
  all_taken r =
      sym (take-append r (take n (x ∷ xs)) (drop n (x ∷ xs)))
      ∙ ap (λ l. take r l) (append-take-drop n (x ∷ xs))

  next-Echoed :
      (g : Server) (closing : List ℕ)
      → (s.conn fd).incoming ≡ x ∷ xs
      → Echoed next g fd closing
      → Echoed s g fd closing
  next-Echoed g closing e r = record {
    sent =
        r.sent
        ∙ ap (λ (c : Connection). c.sent ++ take c.room c.incoming) next-conn
        ∙ append_assoc (s.conn fd).sent (take (s.conn fd).room (take n (x ∷ xs))) _
        ∙ ap (λ l. (s.conn fd).sent ++ l)
            (all_taken (s.conn fd).room ∙ ap (λ l. take (s.conn fd).room l) (sym e));
    empty = r.empty;
    others = λ o off.
        r.others o off
        ∙ update_other unread.conn fd o (taken (take n (x ∷ xs)) (unread.conn fd)) off
        ∙ update_other s.conn fd o cut off;
    replies = r.replies;
    datagrams = r.datagrams;
    closes = r.closes;
  }

  -- A round reads the first bytes of what waits.
  echo-next :
      (fuel : ℕ)
      → (s.conn fd).alive ≡ true
      → (s.conn fd).incoming ≡ x ∷ xs
      → echo_tcp (suc fuel) fd s ≡ echo_tcp fuel fd next
  unfolding echo_tcp
  echo-next fuel up e =
      ap
        (λ b.
          received (λ g. echo_tcp fuel fd g) fd (receive n b (s.conn fd).ended (s.conn fd).incoming)
            s)
        up
      ∙ ap (λ l. received (λ g. echo_tcp fuel fd g) fd (receive n true (s.conn fd).ended l) s) e

-- The calls of `close` when the client has ended its side, and when it has not.
abbrev pub closing : (ended : Bool) (fd : ℕ) → List ℕ
closing true fd = fd ∷ fd ∷ []
closing false fd = []

-- Nothing is left to read.
echo-end :
    (fuel fd : ℕ) (s : Server) (ended : Bool)
    → (s.conn fd).alive ≡ true
    → (s.conn fd).incoming ≡ []
    → (s.conn fd).ended ≡ ended
    → (g : Server) × (echo_tcp (suc (suc fuel)) fd s ≡ some g) × Echoed s g fd (closing ended fd)
unfolding echo_tcp
echo-end fuel fd s false up empty e = (
  s,
  ap
        (λ b.
          received (λ g. echo_tcp (suc fuel) fd g) fd
            (receive (tcp_buffer_size - 1) b (s.conn fd).ended (s.conn fd).incoming) s)
        up
      ∙ ap
          (λ b.
            received (λ g. echo_tcp (suc fuel) fd g) fd
              (receive (tcp_buffer_size - 1) true b (s.conn fd).incoming) s)
          e
      ∙ ap
          (λ l.
            received (λ g. echo_tcp (suc fuel) fd g) fd (receive (tcp_buffer_size - 1) true false l)
              s)
          empty,
  record {
    sent = sym (
        ap (λ l. (s.conn fd).sent ++ take (s.conn fd).room l) empty
        ∙ ap (λ l. (s.conn fd).sent ++ l) (take-nil (s.conn fd).room)
        ∙ append-nil (s.conn fd).sent);
    empty = empty;
    others = λ o off. refl;
    replies = refl;
    datagrams = refl;
    closes = sym (append-nil s.closes);
  },
)
echo-end fuel fd s true up empty e =
    let g : Server = close fd s in
    let dead : Connection = record (s.conn fd) { alive = false } in
    let down : g.conn fd ≡ dead = update_same s.conn fd dead in
    let h : Server = close fd g in
    let dead' : Connection = record (g.conn fd) { alive = false } in
    let still : h.conn fd ≡ dead' = update_same g.conn fd dead' in
    (
      h,
      ap
            (λ b.
              received (λ q. echo_tcp (suc fuel) fd q) fd
                (receive (tcp_buffer_size - 1) b (s.conn fd).ended (s.conn fd).incoming) s)
            up
          ∙ ap
              (λ b.
                received (λ q. echo_tcp (suc fuel) fd q) fd
                  (receive (tcp_buffer_size - 1) true b (s.conn fd).incoming) s)
              e
          ∙ ap
              (λ l.
                received (λ q. echo_tcp (suc fuel) fd q) fd
                  (receive (tcp_buffer_size - 1) true true l) s)
              empty
          ∙ ap
              (λ (c : Connection).
                received (λ q. echo_tcp fuel fd q) fd (recv (tcp_buffer_size - 1) c) g)
              down,
      record {
        sent =
            ap (λ (c : Connection). c.sent)
              (still ∙ ap (λ (c : Connection). record c { alive = false }) down)
            ∙ sym (
                ap (λ l. (s.conn fd).sent ++ take (s.conn fd).room l) empty
                ∙ ap (λ l. (s.conn fd).sent ++ l) (take-nil (s.conn fd).room)
                ∙ append-nil (s.conn fd).sent);
        empty =
            ap (λ (c : Connection). c.incoming)
              (still ∙ ap (λ (c : Connection). record c { alive = false }) down)
            ∙ empty;
        others = λ o off. update_other g.conn fd o dead' off ∙ update_other s.conn fd o dead off;
        replies = refl;
        datagrams = refl;
        closes = append_assoc s.closes (fd ∷ []) (fd ∷ []);
      },
    )

-- Of what a client has sent to an open connection, however much, the first bytes that its send buffer
-- has room for, when the client takes none of them meanwhile, are sent back to it, in order, so all of
-- it when there is room; the rest is read and lost. Rounds for each byte and two more are enough; no other connection and no datagram is touched.
-- When the client goes on, nothing is closed; when it has ended its side, the descriptor is closed
-- twice.
pub echo_tcp-Echoed :
    (fuel fd : ℕ) (xs : List ℕ) (s : Server)
    → (s.conn fd).alive ≡ true
    → (s.conn fd).incoming ≡ xs
    → length xs + 1 < fuel
    → (g : Server) × (echo_tcp fuel fd s ≡ some g) × Echoed s g fd (closing (s.conn fd).ended fd)
echo_tcp-Echoed zero fd xs s up e h = absurd (omega (arith, h))
echo_tcp-Echoed (suc zero) fd xs s up e h = absurd (omega (arith, h))
echo_tcp-Echoed (suc (suc fuel)) fd [] s up e h = echo-end fuel fd s (s.conn fd).ended up e refl
echo_tcp-Echoed (suc (suc fuel)) fd (x ∷ xs) s up e h =
    let same : (next s fd x xs).conn fd
        ≡ taken (take (tcp_buffer_size - 1) (x ∷ xs)) (cut s fd x xs) =
      next-conn s fd x xs in
    let (g, run, r) =
      echo_tcp-Echoed (suc fuel) fd (drop (tcp_buffer_size - 1) (x ∷ xs)) (next s fd x xs)
        (ap (λ (c : Connection). c.alive) same ∙ up) (ap (λ (c : Connection). c.incoming) same)
        (omega (arith, h, length-drop (tcp_buffer_size - 1) (x ∷ xs))) in
    (
      g,
      echo-next s fd x xs (suc fuel) up e ∙ run,
      next-Echoed s fd x xs g (closing (s.conn fd).ended fd) e (
          subst (λ b. Echoed (next s fd x xs) g fd (closing b fd))
            (ap (λ (c : Connection). c.ended) same) r),
    )
