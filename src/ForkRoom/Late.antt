-- ===== src/ForkRoom/Late.antt =====
-- A shutdown that a late client holds up.
use notes_coding.Base.{
  ℕ, ◌+◌, ◌<◌, ◌≡◌, ◌≢◌, inl, inr, refl, ap, sym, ◌∙◌, arith, true, false, some, List, [], ◌∷◌, leb,
  ◌==◌, Bool-cases, length, update_other,
}
use notes_coding.ForkRoom.{
  Parent, System, user_limit, connect, reap_all, sigchld, kill_all, sigterm,
}
use notes_coding.ForkRoom.Users.{IsParent, At, Unused, connect-IsParent}
use notes_coding.ForkRoom.Shutdown.{
  AllAt, Reaped, reap_all-Reaped, pids_from, Killed, kill_all-Killed, Killed-IsParent, Killed-AllAt,
}
use notes_coding.ForkRoom.Loop.{
  child_ended, term, obey, obey_all, connection, signals, handle, handle_all,
}

-- The parent after SIGTERM, a new connection, and the end of the children `pids`.
abbrev pub late : (connfd address pipefd pid : ℕ) (pids : List ℕ) → System → System
late connfd address pipefd pid pids s =
    handle_all
      (signals (term ∷ [])
        ∷ connection (some (connfd, address)) pipefd (some pid)
        ∷ signals (child_ended pids ∷ [])
        ∷ [])
      s

module _ (connfd address pipefd pid : ℕ) (s : System) where
  abbrev come : System
  come = connect (some (connfd, address)) pipefd (some pid) s

  come-At :
      (q i : ℕ)
      → leb user_limit s.parent.g_user_count ≡ false
      → At s.parent q i
      → At come.parent q i
  unfolding connect
  come-At q i room a =
      let old : s.parent.g_user_count ≢ i = omega (arith, a.here) in
      rw room (record {
        here = omega (arith, a.here);
        own = ap (λ u. u.pid) (update_other s.parent.g_users s.parent.g_user_count i _ old) ∙ a.own;
      })

  come-AllAt :
      (pids : List ℕ)
      → leb user_limit s.parent.g_user_count ≡ false
      → AllAt s.parent pids
      → AllAt come.parent pids
  come-AllAt [] room a = tt
  come-AllAt (q ∷ pids) room ((i, at), apart, a) =
      ((i, come-At q i room at), apart, come-AllAt pids room a)

  come-count :
      leb user_limit s.parent.g_user_count ≡ false
      → (come.parent.g_user_count ≡ s.parent.g_user_count + 1)
        × (come.parent.stop_server ≡ s.parent.stop_server)
  unfolding connect
  come-count room = rw room (refl, refl)

-- One client is left, and the loop goes on.
abbrev pub Held : System → Type 0
Held s = (s.parent.g_user_count ≡ 1) × (s.parent.stop_server ≡ false)

sigchld-left :
    (pids : List ℕ) (p : Parent)
    → (reap_all pids p).g_user_count ≡ 1
    → (reap_all pids p).stop_server ≡ false
    → ((sigchld pids p).g_user_count ≡ 1) × ((sigchld pids p).stop_server ≡ false)
unfolding sigchld
sigchld-left pids p one on = elim (Bool-cases (reap_all pids p).terminate) [
  | inl e ↦ rw (e, one) (one, on)
  | inr e ↦ rw e (one, on)
]

-- When a client connects after SIGTERM, with room for it and no stop before, then the end of every
-- child that was killed does not stop the server: the new client's child was never told to end.
pub late-Held :
    (connfd address pipefd pid : ℕ) (pids : List ℕ) (s : System)
    → IsParent s.parent
    → s.parent.stop_server ≡ false
    → 0 < s.parent.g_user_count
    → s.parent.g_user_count < user_limit
    → Unused s.parent pid
    → length pids ≡ s.parent.g_user_count
    → AllAt s.parent pids
    → Held (late connfd address pipefd pid pids s)
unfolding handle_all handle obey_all obey sigchld sigterm
late-Held connfd address pipefd pid pids s is on some_left few unused all a =
    let room : leb user_limit s.parent.g_user_count ≡ false = ground (arith, few) in
    let busy : (s.parent.g_user_count == 0) ≡ false = ground arith in
    let p : Parent = s.parent in
    let ks : List ℕ = pids_from p.g_user_count 0 p in
    let k : Killed p (kill_all p.g_user_count 0 p) ks = kill_all-Killed p.g_user_count 0 p in
    let told : System = record s {
      parent = record (kill_all p.g_user_count 0 p) { terminate = true };
    } in
    let k' : Killed p told.parent ks = record {
      users = k.users;
      sub_process = k.sub_process;
      count = k.count;
      stop = k.stop;
      calls = k.calls;
    } in
    let room' : leb user_limit told.parent.g_user_count ≡ false =
      ap (leb user_limit) k.count ∙ room in
    let (count, stop) = come-count connfd address pipefd pid told room' in
    let g : Parent = (come connfd address pipefd pid told).parent in
    let unused' : Unused told.parent pid =
      λ i h e. unused i (omega (arith, h, k.count)) (sym (ap (λ f. (f i).pid) k.users) ∙ e) in
    let r : Reaped g (reap_all pids g) (length pids) =
      reap_all-Reaped pids g
        (connect-IsParent connfd address pipefd pid told (Killed-IsParent p told.parent ks is k')
          unused')
        (come-AllAt connfd address pipefd pid told pids room'
          (Killed-AllAt p told.parent ks pids k' a)) in
    let one : (reap_all pids g).g_user_count ≡ 1 = omega (arith, r.fewer, count, k.count, all) in
    rw busy (sigchld-left pids g one (r.stop ∙ stop ∙ k.stop ∙ on))
