-- ===== src/ForkRoom/Users.antt =====
-- The array of clients and the map from pids to it.
use notes_coding.Base.{
  some-injective, ℕ, ◌+◌, ◌-◌, ◌<◌, ◌≤◌, ◌≡◌, ◌≢◌, inl, inr, refl, ap, sym, ◌∙◌, subst, arith,
  false, Option, none, some, ltb, leb, ◌==◌, Bool-cases, update, update_same, update_other,
}
use notes_coding.ForkRoom.{ClientData, Parent, System, user_limit, connect, remove, reap}

-- At most 5 clients, and the map leads from the pid of each to its place.
pub record IsParent (p : Parent) : Type 0 where
  pub limit : p.g_user_count ≤ user_limit
  pub mapped : (i : ℕ) → i < p.g_user_count → p.sub_process (p.g_users i).pid ≡ some i

-- The client of the child `pid` is at place `i`.
pub record At (p : Parent) (pid i : ℕ) : Type 0 where
  pub here : i < p.g_user_count
  pub own : (p.g_users i).pid ≡ pid

-- No client has the pid.
abbrev pub Unused : Parent → ℕ → Type 0
Unused p pid = (i : ℕ) → i < p.g_user_count → (p.g_users i).pid ≢ pid

-- A pid is that of one client only.
pub At-unique : (p : Parent) (pid i j : ℕ) → IsParent p → At p pid i → At p pid j → i ≡ j
At-unique p pid i j is a b =
    some-injective
      (sym (is.mapped i a.here) ∙ ap p.sub_process (a.own ∙ sym b.own) ∙ is.mapped j b.here)

-- A client put at place `i`, and its pid mapped there.
put_same :
    (sub : ℕ → Option ℕ) (users : ℕ → ClientData) (i j : ℕ) (u : ClientData)
    → i ≡ j
    → update sub u.pid (some i) (update users i u j).pid ≡ some j
put_same sub users i j u e =
    subst (λ k. update sub u.pid (some i) (update users i u k).pid ≡ some k) e
      (ap (λ v. update sub u.pid (some i) v.pid) (update_same users i u)
        ∙ update_same sub u.pid (some i))

put_other :
    (sub : ℕ → Option ℕ) (users : ℕ → ClientData) (i j : ℕ) (u : ClientData)
    → i ≢ j
    → u.pid ≢ (users j).pid
    → update sub u.pid (some i) (update users i u j).pid ≡ sub (users j).pid
put_other sub users i j u ne far =
    ap (λ v. update sub u.pid (some i) v.pid) (update_other users i j u ne)
    ∙ update_other sub u.pid (users j).pid (some i) far

-- A connection keeps the number of clients within its limit and the map from children to clients
-- right, if the pid of the new child is not that of a client.
pub connect-IsParent :
    (connfd address pipefd pid : ℕ) (s : System)
    → IsParent s.parent
    → Unused s.parent pid
    → IsParent (connect (some (connfd, address)) pipefd (some pid) s).parent
unfolding connect
connect-IsParent connfd address pipefd pid s is unused =
    let p : Parent = s.parent in
    elim (Bool-cases (leb user_limit p.g_user_count)) [
      | inl full ↦ rw full (record { limit = is.limit; mapped = is.mapped })
      | inr room ↦ rw room (record {
        limit = ground arith;
        mapped = λ i h. elim (Bool-cases (i == p.g_user_count)) [
          | inl new ↦
              let e : p.g_user_count ≡ i = ground arith in
              put_same p.sub_process p.g_users p.g_user_count i _ e
          | inr old ↦
              put_other p.sub_process p.g_users p.g_user_count i _ (ground arith)
                (λ f. unused i (ground arith) (sym f))
              ∙ is.mapped i (ground arith)
        ];
      })
    ]

module _ (p : Parent) (pid i : ℕ) (is : IsParent p) (at : At p pid i) where
  abbrev cleared : Parent
  cleared = record p { sub_process = update p.sub_process pid none }

  -- The child of a client has ended: the client is taken out.
  pub reap-remove : reap pid p ≡ remove i cleared
  unfolding reap
  reap-remove =
      let found : p.sub_process pid ≡ some i =
        ap p.sub_process (sym at.own) ∙ is.mapped i at.here in
      let small : ltb user_limit i ≡ false = ground (arith, at.here, is.limit) in
      rw (found, reap, small) refl

  remove-IsParent : IsParent (remove i cleared)
  unfolding remove
  remove-IsParent =
      let n : ℕ = p.g_user_count - 1 in
      let last : ClientData = p.g_users n in
      record {
        limit = omega (arith, is.limit);
        mapped = λ j h. elim (Bool-cases (j == i)) [
          | inl here ↦ put_same cleared.sub_process p.g_users i j last (ground arith)
          | inr other ↦
              let j-pid : p.sub_process (p.g_users j).pid ≡ some j = is.mapped j (omega arith) in
              let far : last.pid ≢ (p.g_users j).pid = λ e. omega (
                arith,
                At-unique p last.pid n j is (record { here = omega (arith, at.here); own = refl })
                    (record { here = omega arith; own = sym e }),
              ) in
              let dead : pid ≢ (p.g_users j).pid = λ e.
                ground
                  (arith, At-unique p pid i j is at (record { here = omega arith; own = sym e })) in
              put_other cleared.sub_process p.g_users i j last (ground arith) far
              ∙ update_other p.sub_process pid (p.g_users j).pid none dead
              ∙ j-pid
        ];
      }

  -- A client whose child has ended is taken out, and the map stays right for the others.
  pub reap-IsParent : IsParent (reap pid p) × ((reap pid p).g_user_count + 1 ≡ p.g_user_count)
  unfolding remove
  reap-IsParent = rw reap-remove (remove-IsParent, omega (arith, at.here))

  -- The clients of the other children stay.
  pub reap-At : (pid' j : ℕ) → pid ≢ pid' → At p pid' j → (k : ℕ) × At (reap pid p) pid' k
  unfolding remove
  reap-At pid' j ne a =
      let apart : i ≢ j = λ e. ne (sym at.own ∙ ap (λ k. (p.g_users k).pid) e ∙ a.own) in
      elim (Bool-cases (j == p.g_user_count - 1)) [
        | inl last ↦
            let e : j ≡ p.g_user_count - 1 = ground arith in
            (
              i,
              rw reap-remove (record {
                here = omega (arith, at.here, a.here, e, apart);
                own =
                    ap (λ u. u.pid) (update_same p.g_users i _)
                    ∙ ap (λ k. (p.g_users k).pid) (sym e)
                    ∙ a.own;
              }),
            )
        | inr other ↦
            let off : j ≢ p.g_user_count - 1 = ground arith in
            (
              j,
              rw reap-remove (record {
                here = omega (arith, a.here, off);
                own = ap (λ u. u.pid) (update_other p.g_users i j _ apart) ∙ a.own;
              }),
            )
      ]
