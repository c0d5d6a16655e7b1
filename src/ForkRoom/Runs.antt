-- ===== src/ForkRoom/Runs.antt =====
-- What the loop of the parent keeps, and a shutdown that a late client holds up.
use notes_coding.Base.{
  ℕ, zero, suc, ◌+◌, ◌≢◌, inl, inr, ap, sym, ◌∙◌, arith, Bool, true, false, Option, none, some,
  List, [], ◌∷◌, leb, ◌==◌, Bool-cases, if◌then◌else◌, length, update_other,
}
use notes_coding.ForkRoom.{
  Parent, System, user_limit, connect, reap_all, sigchld, kill_all, sigterm, tell_others, forward,
}
use notes_coding.ForkRoom.Users.{IsParent, Unused, connect-IsParent}
use notes_coding.ForkRoom.Shutdown.{
  AllAt, Reaped, reap_all-Reaped, pids_from, kill_all-Killed, Killed-IsParent,
}
use notes_coding.ForkRoom.Loop.{
  Signal, child_ended, term, interrupt, other, obey, obey_all, Event, connection, signals,
  client_data, no_input, handle, handle_all, serve,
}

-- `waitpid` returns each ended child of a client once.
abbrev pub FromWait : Signal → Parent → Type 0
FromWait (child_ended pids) p = AllAt p pids
FromWait term p = Unit
FromWait interrupt p = Unit
FromWait other p = Unit

abbrev pub AllFromWait : List Signal → Parent → Type 0
AllFromWait [] p = Unit
AllFromWait (sig ∷ sigs) p = FromWait sig p × AllFromWait sigs (obey sig p)

-- `fork` returns a pid that no client's child has.
abbrev pub FromKernel : Event → System → Type 0
FromKernel (connection accepted pipefd none) s = Unit
FromKernel (connection accepted pipefd (some pid)) s = Unused s.parent pid
FromKernel (signals sigs) s = AllFromWait sigs s.parent
FromKernel (client_data sockfd child) s = Unit
FromKernel no_input s = Unit

abbrev pub AllFromKernel : List Event → System → Type 0
AllFromKernel [] s = Unit
AllFromKernel (e ∷ es) s = FromKernel e s × AllFromKernel es (handle e s)

abbrev pub RunFromKernel : List (Option (List Event)) → System → Type 0
RunFromKernel [] s = Unit
RunFromKernel (none ∷ rounds) s = Unit
RunFromKernel (some es ∷ rounds) s = AllFromKernel es s × RunFromKernel rounds (handle_all es s)

stop-IsParent :
    (b : Bool) (p : Parent)
    → IsParent p
    → IsParent (if b then record p { stop_server = true } else p)
stop-IsParent true p is = record { limit = is.limit; mapped = is.mapped }
stop-IsParent false p is = is

sigterm-IsParent : (p : Parent) → IsParent p → IsParent (sigterm p)
unfolding sigterm
sigterm-IsParent p is = elim (Bool-cases (p.g_user_count == 0)) [
  | inl e ↦ rw e (record { limit = is.limit; mapped = is.mapped })
  | inr e ↦
      let k : IsParent (kill_all p.g_user_count 0 p) =
        Killed-IsParent p (kill_all p.g_user_count 0 p) (pids_from p.g_user_count 0 p) is
          (kill_all-Killed p.g_user_count 0 p) in
      rw e (record { limit = k.limit; mapped = k.mapped })
]

obey-IsParent : (sig : Signal) (p : Parent) → IsParent p → FromWait sig p → IsParent (obey sig p)
unfolding obey sigchld
obey-IsParent (child_ended pids) p is w =
    let r : Reaped p (reap_all pids p) (length pids) = reap_all-Reaped pids p is w in
    stop-IsParent _ (reap_all pids p) r.parent
obey-IsParent term p is w = sigterm-IsParent p is
obey-IsParent interrupt p is w = sigterm-IsParent p is
obey-IsParent other p is w = is

obey_all-IsParent :
    (sigs : List Signal) (p : Parent) → IsParent p → AllFromWait sigs p → IsParent (obey_all sigs p)
unfolding obey_all
obey_all-IsParent [] p is w = is
obey_all-IsParent (sig ∷ sigs) p is (w, ws) =
    obey_all-IsParent sigs (obey sig p) (obey-IsParent sig p is w) ws

tell_others-IsParent :
    (n j sockfd child : ℕ) (p : Parent) → IsParent p → IsParent (tell_others n j sockfd child p)
unfolding tell_others
tell_others-IsParent zero j sockfd child p is = is
tell_others-IsParent (suc n) j sockfd child p is =
    elim (Bool-cases ((p.g_users j).pipefd == sockfd)) [
      | inl e ↦ rw e (tell_others-IsParent n (j + 1) sockfd child p is)
      | inr e ↦ rw e (
          tell_others-IsParent n (j + 1) sockfd child _
            (record { limit = is.limit; mapped = is.mapped }))
    ]

handle-IsParent :
    (e : Event) (s : System) → IsParent s.parent → FromKernel e s → IsParent (handle e s).parent
unfolding handle connect forward
handle-IsParent (connection none pipefd none) s is k = is
handle-IsParent (connection none pipefd (some pid)) s is k = is
handle-IsParent (connection (some (connfd, address)) pipefd none) s is k =
    elim (Bool-cases (leb user_limit s.parent.g_user_count)) [
      | inl full ↦ rw full (record { limit = is.limit; mapped = is.mapped })
      | inr room ↦ rw room (record {
        limit = is.limit;
        mapped = λ i h.
            let other : i ≢ s.parent.g_user_count = omega (arith, h) in
            ap (λ u. s.parent.sub_process u.pid)
              (update_other s.parent.g_users s.parent.g_user_count i _ (λ e. other (sym e)))
            ∙ is.mapped i h;
      })
    ]
handle-IsParent (connection (some (connfd, address)) pipefd (some pid)) s is k =
    connect-IsParent connfd address pipefd pid s is k
handle-IsParent (signals sigs) s is k = obey_all-IsParent sigs s.parent is k
handle-IsParent (client_data sockfd none) s is k = is
handle-IsParent (client_data sockfd (some child)) s is k =
    tell_others-IsParent s.parent.g_user_count 0 sockfd child s.parent is
handle-IsParent no_input s is k = is

handle_all-IsParent :
    (es : List Event) (s : System)
    → IsParent s.parent
    → AllFromKernel es s
    → IsParent (handle_all es s).parent
unfolding handle_all
handle_all-IsParent [] s is k = is
handle_all-IsParent (e ∷ es) s is (k, ks) =
    handle_all-IsParent es (handle e s) (handle-IsParent e s is k) ks

either-IsParent :
    (b : Bool) (s t : System)
    → IsParent s.parent
    → IsParent t.parent
    → IsParent (elim b as (λ c. System) [ true ↦ s | false ↦ t ]).parent
either-IsParent true s t is it = is
either-IsParent false s t is it = it

-- When `fork` returns pids that no client's child has and `waitpid` returns the children of clients,
-- each once, then every run of the parent's loop (connections, failed calls, signals and what clients
-- say, in any order) keeps the number of clients within 5 and the map from children to clients right.
pub serve-IsParent :
    (rounds : List (Option (List Event))) (s : System)
    → IsParent s.parent
    → RunFromKernel rounds s
    → IsParent (serve rounds s).parent
unfolding serve
serve-IsParent [] s is k = is
serve-IsParent (none ∷ rounds) s is k = is
serve-IsParent (some es ∷ rounds) s is (k, ks) =
    either-IsParent s.parent.stop_server s (serve rounds (handle_all es s)) is
      (serve-IsParent rounds (handle_all es s) (handle_all-IsParent es s is k) ks)
