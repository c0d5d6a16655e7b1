-- ===== src/ForkRoom/Shutdown.antt =====
-- The children that end, and the end of the server.
use notes_coding.Base.{
  ℕ, zero, suc, ◌+◌, ◌<◌, ◌≡◌, ◌≢◌, refl, ap, sym, ◌∙◌, arith, true, false, List, [], ◌∷◌, ◌++◌,
  ◌==◌, length, map, All,
}
use notes_coding.ForkRoom.{Parent, killed, remove, reap, reap_all, sigchld, sigterm, kill_all}
use mathlib.Core.List.{append_assoc, append-nil}
use notes_coding.ForkRoom.Users.{IsParent, At, reap-remove, reap-IsParent, reap-At}

-- Different pids, each of a client.
abbrev pub AllAt : Parent → List ℕ → Type 0
AllAt p [] = Unit
AllAt p (pid ∷ pids) = ((i : ℕ) × At p pid i) × All (λ q. pid ≢ q) pids × AllAt p pids

AllAt-reap :
    (p : Parent) (pid i : ℕ) (pids : List ℕ)
    → IsParent p
    → At p pid i
    → All (λ q. pid ≢ q) pids
    → AllAt p pids
    → AllAt (reap pid p) pids
AllAt-reap p pid i [] is at ne a = tt
AllAt-reap p pid i (q ∷ pids) is at (ne, nes) ((j, b), apart, a) =
    (reap-At p pid i is at q j ne b, apart, AllAt-reap p pid i pids is at nes a)

reap-terminate :
    (p : Parent) (pid i : ℕ)
    → IsParent p
    → At p pid i
    → ((reap pid p).terminate ≡ p.terminate) × ((reap pid p).stop_server ≡ p.stop_server)
unfolding remove
reap-terminate p pid i is at = rw (reap-remove p pid i is at) (refl, refl)

-- What the loop over `n` ended children leaves.
pub record Reaped (p g : Parent) (n : ℕ) : Type 0 where
  pub parent : IsParent g
  pub fewer : g.g_user_count + n ≡ p.g_user_count
  pub terminate : g.terminate ≡ p.terminate
  pub stop : g.stop_server ≡ p.stop_server

-- When the map from children to clients is right, the loop over children that have ended, each once,
-- takes out one client for each, keeps the map right, and does not touch `terminate` and
-- `stop_server`.
pub reap_all-Reaped :
    (pids : List ℕ) (p : Parent)
    → IsParent p
    → AllAt p pids
    → Reaped p (reap_all pids p) (length pids)
unfolding reap_all
reap_all-Reaped [] p is a = record {
  parent = is;
  fewer = omega arith;
  terminate = refl;
  stop = refl;
}
reap_all-Reaped (pid ∷ pids) p is ((i, at), apart, a) =
    let (is', count) = reap-IsParent p pid i is at in
    let (same, stop) = reap-terminate p pid i is at in
    let rest : Reaped (reap pid p) (reap_all pids (reap pid p)) (length pids) =
      reap_all-Reaped pids (reap pid p) is' (AllAt-reap p pid i pids is at apart a) in
    record {
      parent = rest.parent;
      fewer = omega (arith, rest.fewer, count);
      terminate = rest.terminate ∙ same;
      stop = rest.stop ∙ stop;
    }

-- The pids of the clients from place `i` on, `n` of them.
abbrev pub pids_from : (n i : ℕ) → Parent → List ℕ
pids_from zero i p = []
pids_from (suc n) i p = (p.g_users i).pid ∷ pids_from n (i + 1) p

-- Only the calls of the parent change.
pub record Killed (p g : Parent) (pids : List ℕ) : Type 0 where
  pub users : g.g_users ≡ p.g_users
  pub sub_process : g.sub_process ≡ p.sub_process
  pub count : g.g_user_count ≡ p.g_user_count
  pub stop : g.stop_server ≡ p.stop_server
  pub calls : g.calls ≡ p.calls ++ map killed pids

pub kill_all-Killed : (n i : ℕ) (p : Parent) → Killed p (kill_all n i p) (pids_from n i p)
unfolding kill_all
kill_all-Killed zero i p = record {
  users = refl;
  sub_process = refl;
  count = refl;
  stop = refl;
  calls = sym (append-nil p.calls);
}
kill_all-Killed (suc n) i p =
    let one : Parent = record p { calls = p.calls ++ killed (p.g_users i).pid ∷ [] } in
    let k : Killed one (kill_all n (i + 1) one) (pids_from n (i + 1) one) =
      kill_all-Killed n (i + 1) one in
    record {
      users = k.users;
      sub_process = k.sub_process;
      count = k.count;
      stop = k.stop;
      calls =
          k.calls
          ∙ append_assoc p.calls (killed (p.g_users i).pid ∷ []) _
          ∙ ap (λ l. p.calls ++ killed (p.g_users i).pid ∷ map killed l) (pids-same n (i + 1));
    }
  where
    pids-same :
        (m j : ℕ)
        → pids_from m j (record p { calls = p.calls ++ killed (p.g_users i).pid ∷ [] })
          ≡ pids_from m j p
    pids-same zero j = refl
    pids-same (suc m) j = ap (λ l. (p.g_users j).pid ∷ l) (pids-same m (j + 1))

pub Killed-IsParent : (p g : Parent) (pids : List ℕ) → IsParent p → Killed p g pids → IsParent g
Killed-IsParent p g pids is k = record {
  limit = omega (arith, is.limit, k.count);
  mapped = λ i h. (λ t. k.sub_process t (k.users t i).pid) ∙ is.mapped i (omega (arith, k.count));
}

pub Killed-AllAt : (p g : Parent) (ks pids : List ℕ) → Killed p g ks → AllAt p pids → AllAt g pids
Killed-AllAt p g ks [] k a = tt
Killed-AllAt p g ks (pid ∷ pids) k ((i, at), apart, a) = (
  (
    i,
    record { here = omega (arith, at.here, k.count); own = ap (λ f. (f i).pid) k.users ∙ at.own },
  ),
  apart,
  Killed-AllAt p g ks pids k a,
)

-- How the server ends: no client is left, and its loop is to stop.
pub record Stopped (p g : Parent) : Type 0 where
  pub stop : g.stop_server ≡ true
  pub empty : g.g_user_count ≡ 0

-- SIGTERM, when there are clients and the map is right, sends SIGTERM to each of their children, and
-- once these have ended, in any order, SIGCHLD takes out every client and stops the server.
pub sigchld-Stopped :
    (pids : List ℕ) (p : Parent)
    → IsParent p
    → 0 < p.g_user_count
    → length pids ≡ p.g_user_count
    → AllAt p pids
    → Stopped p (sigchld pids (sigterm p))
      × ((sigterm p).calls ≡ p.calls ++ map killed (pids_from p.g_user_count 0 p))
unfolding sigchld sigterm
sigchld-Stopped pids p is some_left all a =
    let busy : (p.g_user_count == 0) ≡ false = ground arith in
    let k : Killed p (kill_all p.g_user_count 0 p) (pids_from p.g_user_count 0 p) =
      kill_all-Killed p.g_user_count 0 p in
    let killed_all : Parent = record (kill_all p.g_user_count 0 p) { terminate = true } in
    let k' : Killed p killed_all (pids_from p.g_user_count 0 p) = record {
      users = k.users;
      sub_process = k.sub_process;
      count = k.count;
      stop = k.stop;
      calls = k.calls;
    } in
    let r : Reaped killed_all (reap_all pids killed_all) (length pids) =
      reap_all-Reaped pids killed_all (Killed-IsParent p killed_all _ is k')
        (Killed-AllAt p killed_all _ pids k' a) in
    let none_left : (reap_all pids killed_all).g_user_count ≡ 0 =
      omega (arith, r.fewer, k.count, all) in
    rw (busy, r.terminate, none_left) (record { stop = refl; empty = refl }, k.calls)
