-- ===== src/IdleServer/Connect.antt =====
-- A new connection.
use notes_coding.Base.{
  All-map, ℕ, ◌+◌, ◌<◌, ◌≤◌, ◌≡◌, ◌≢◌, inl, inr, refl, ap, sym, ◌∙◌, subst, false, true, none, some,
  List, [], ◌∷◌, arith, ltb, lt→ltb, ◌==◌, Bool-cases, length, update, update_same, update_other,
}
use notes_coding.Memory.{Ptr, null, Node, Nodes, write}
use notes_coding.Memory.Chain.{node, has, Linked, frame-write, write_self}
use notes_coding.Memory.Ends
use notes_coding.Memory.Ends.{Ends, ends}
use notes_coding.TimerList.{UtilTimer, Timers}
use notes_coding.TimerList.Spec.{Cell, Holds, insert, insert-IsSorted}
use notes_coding.TimerList.Insert.{add_timer-insert}
use notes_coding.IdleServer.{ClientData, Server, fd_limit, connect}
use notes_coding.IdleServer.Found.{
  Found, Found-insert_new, Found-insert_old, All-insert, length-insert,
}
use notes_coding.IdleServer.Serving.{Owned, idle_time, IsServing, Serves, lift-Ends}

-- A freed node is not in the list.
has-freed :
    (h : Nodes UtilTimer) (b : Ptr) (xs : List Cell) (stop a : Ptr)
    → Linked h b xs stop
    → h a ≡ none
    → has a xs ≡ false
has-freed h b [] stop a l e = refl
has-freed h b ((p, v) ∷ xs) stop a l e = elim (Bool-cases (a == p)) [
  | inl here ↦ let same : a ≡ p = ground arith in absurd (some-none (sym l.0 ∙ ap h (sym same) ∙ e))
  | inr there ↦ rw there (has-freed h p xs stop a l.1 e)
]
  where
    some-none : {n : Node UtilTimer} → some n ≡ none → ⊥
    some-none f = cc

-- What a new connection changes of the old ones.
module _ (s g : Server) (connfd : ℕ) (u : ClientData) (users : g.users ≡ update s.users connfd u)
    (opened : g.open_fds ≡ update s.open_fds connfd true) where
  Owned-kept : s.open_fds connfd ≡ false → (x : Cell) → Owned s x → Owned g x
  Owned-kept shut x o =
      let ne : connfd ≢ x.1.user_data =
        λ e. absurd (ground (arith, sym (ap s.open_fds e) ∙ shut, o.on)) in
      let same : g.users x.1.user_data ≡ s.users x.1.user_data =
        ap (λ f. f x.1.user_data) users ∙ update_other s.users connfd _ u ne in
      record {
        points = ap (λ d. d.timer) same ∙ o.points;
        number = ap (λ d. d.sockfd) same ∙ o.number;
        on = ap (λ f. f x.1.user_data) opened ∙ update_other s.open_fds connfd _ true ne ∙ o.on;
      }

-- The kernel's and the allocator's answers for a new connection: a descriptor that is not open and
-- fits the array, and memory that is not in use.
pub record IsNew (s : Server) (connfd : ℕ) (timer : Ptr) : Type 0 where
  pub shut : s.open_fds connfd ≡ false
  pub fits : connfd < fd_limit
  pub real : (timer == null) ≡ false
  pub unused : s.timers.nodes timer ≡ none

module _ (now : ℕ) (s : Server) (xs : List Cell) (connfd address : ℕ) (t : Ptr) where
  abbrev tv : UtilTimer
  tv = record { expire = now + idle_time; cb_func = 0; user_data = connfd }

  abbrev stored : Timers
  stored = record (s.timers) { nodes = write (s.timers.nodes) t (some (node tv null null)) }

  abbrev connected : Timers → Server
  connected g = record s {
    users = update s.users connfd (record { address = address; sockfd = connfd; timer = t });
    open_fds = update s.open_fds connfd true;
    timers = g;
  }

  stored-Holds : Holds s.timers xs → has t xs ≡ false → Holds stored xs
  stored-Holds is out = record {
    linked = frame-write s.timers.nodes null xs null t _ is.linked out;
    distinct = is.distinct;
    head = is.head;
    tail = is.tail;
  }

  new-Owned : (g : Timers) → Owned (connected g) (t, tv)
  new-Owned g = record {
    points = ap (λ d. d.timer) (update_same s.users connfd _);
    number = ap (λ d. d.sockfd) (update_same s.users connfd _);
    on = update_same s.open_fds connfd true;
  }

  connected-timed :
      (g : Timers)
      → IsServing now s xs
      → (fd : ℕ) → (connected g).open_fds fd ≡ true
      → Found ((connected g).users fd).timer fd (insert (t, tv) xs)
  connected-timed g is fd on = elim (Bool-cases (fd == connfd)) [
    | inl new ↦
        let e : connfd ≡ fd = ground arith in
        subst (λ f. Found ((connected g).users f).timer f (insert (t, tv) xs)) e
          (rw
            (update_same s.users connfd (record { address = address; sockfd = connfd; timer = t }))
            (Found-insert_new t tv xs))
    | inr old ↦
        let ne : connfd ≢ fd = ground arith in
        let user : (connected g).users fd ≡ s.users fd = update_other s.users connfd fd _ ne in
        let before : Found (s.users fd).timer fd xs =
          is.timed fd (sym (update_other s.open_fds connfd fd true ne) ∙ on) in
        subst (λ d. Found d.timer fd (insert (t, tv) xs)) (sym user)
          (Found-insert_old (s.users fd).timer fd (t, tv) xs before)
  ]

  -- A new connection gets its timer, and the server still serves.
  pub connect-Serves :
      (k : ℕ)
      → IsServing now s xs
      → IsNew s connfd t
      → length xs ≤ k
      → Ends (λ _ g. Serves now xs g) (connect k (some (connfd, address)) t now s)
  unfolding connect
  connect-Serves k is new fuel =
      let out : has t xs ≡ false =
        has-freed s.timers.nodes null xs null t is.holds.linked new.unused in
      let fits : ltb connfd fd_limit ≡ true = lt→ltb _ _ new.fits in
      rw fits (
        lift-Ends (connected stored) (Serves now xs) _ (
          Ends.weaken
            (add_timer-insert k stored t tv new.real (write_self s.timers.nodes t _) xs
              (stored-Holds is.holds out) out fuel)
            λ _ g c. record {
              cells = insert (t, tv) xs;
              serving = record {
                holds = c.holds;
                sorted = insert-IsSorted (t, tv) xs is.sorted;
                owned =
                    All-insert (Owned (connected g)) (t, tv) xs (new-Owned g)
                      (All-map (Owned s) (Owned (connected g)) xs
                        (Owned-kept s (connected g) connfd _ refl refl new.shut) is.owned);
                timed = connected-timed g is;
                recent = All-insert _ (t, tv) xs (omega arith) is.recent;
              };
              growth = omega (arith, length-insert (t, tv) xs);
            }))
